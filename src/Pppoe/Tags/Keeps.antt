-- ===== src/Pppoe/Tags/Keeps.antt =====
-- `parsePacket` of rp-pppoe/src/common.c with a callback that keeps a property.
use zy_agf.Prelude.{
  take, drop, subst, some_inj, ℕ, zero, suc, ◌+◌, Bool, true, false, Option, none, some, List, ◌≡◌,
  ap, if◌then◌else◌,
}
use zy_agf.Pppoe.Packet.{tag_hdr_size, Packet}
use zy_agf.Pppoe.Tags.{
  Header, no_room, end_of_list, too_long, tag, ParseFunc, parse_from, parse_packet, is_sane,
  read_header,
}

same_pair :
    {E : Type 0} (P : E → Type 0) {b ok : Bool} {e e' : E}
    → P e
    → ◌≡◌ {A = Option (Bool × E)} (some (b, e)) (some (ok, e'))
    → P e'
same_pair P h q = subst P (ap (λ r. r.1) (some_inj q)) h

-- One round of the loop of `parse_packet`, `go_on` what follows a tag.
round :
    {E : Type 0} (P : E → Type 0) (o : Option Header) (go_on : ℕ → ℕ → Option (Bool × E)) {e e' : E}
    {ok : Bool}
    → P e
    → ((t l : ℕ) → go_on t l ≡ some (ok, e') → P e')
    → (elim o as (λ x. Option (Bool × E)) [
      | none ↦ none
      | some no_room ↦ some (true, e)
      | some end_of_list ↦ some (true, e)
      | some too_long ↦ some (false, e)
      | some (tag t l) ↦ go_on t l
    ])
      ≡ some (ok, e')
    → P e'
round P none go_on h k q = cc
round P (some no_room) go_on h k q = same_pair P h q
round P (some end_of_list) go_on h k q = same_pair P h q
round P (some too_long) go_on h k q = same_pair P h q
round P (some (tag t l)) go_on h k q = k t l q

-- What a callback keeps, the call keeps.
module _ {E : Type 0} (func : ParseFunc E) (P : E → Type 0)
    (keeps : (t n : ℕ) (bytes : List ℕ) (e : E) → P e → P (func t n bytes e)) where
  parse_from-keeps :
      (payload : List ℕ) (len fuel cur : ℕ) (e : E) {ok : Bool} {e' : E}
      → P e
      → parse_from func payload len fuel cur e ≡ some (ok, e')
      → P e'
  unfolding parse_from
  parse_from-keeps payload len zero cur e h q = cc
  parse_from-keeps payload len (suc fuel) cur e {ok} {e'} h q =
      round P (read_header payload len cur) _ h
        (λ t l.
          parse_from-keeps payload len fuel (cur + tag_hdr_size + l)
            (func t l (take l (drop (cur + tag_hdr_size) payload)) e)
            (keeps t l (take l (drop (cur + tag_hdr_size) payload)) e h))
        q

  pub parse_packet-keeps :
      (p : Packet) (e : E) {ok : Bool} {e' : E} → P e → parse_packet func p e ≡ some (ok, e') → P e'
  unfolding parse_packet
  parse_packet-keeps p e {ok} {e'} h q =
      either (is_sane p) h (parse_from-keeps p.payload p.length (suc p.length) 0 e h) q
    where
      either :
          (b : Bool) {r : Option (Bool × E)}
          → P e
          → (r ≡ some (ok, e') → P e')
          → (if b then r else some (false, e)) ≡ some (ok, e')
          → P e'
      either true k go_on q' = go_on q'
      either false k go_on q' = same_pair P k q'
