-- ===== src/Pppoe/Discovery/Mine.antt =====
-- rp-pppoe/src/discovery.c: the tags that `packetIsForMe` and `parsePADSTags` look for, in the packet's
-- own list of tags.
use zy_agf.Prelude.{
  ℕ, Bool, true, false, ◌&&◌, ◌==◌, some, List, [], ◌∷◌, All, ◌≡◌, ◌≢◌, ◌⊎◌, inl, inr, refl, sym,
  ap, ◌∙◌, arith, Bool-cases, some_inj, ◌>>=◌, if◌then◌else◌, foldl, length,
}
use zy_agf.Pppoe.Packet.{Packet, tag_host_uniq}
use zy_agf.Pppoe.Tags.{Tag, parse_packet, is_sane}
use zy_agf.Pppoe.Tags.Parse.{Reads, visit, is_sane-fits, parse_packet-Reads, parse_packet_total}
use zy_agf.Pppoe.Relay.{mac_eq}
use zy_agf.Pppoe.Relay.Table.{mac_eq-eq}
use zy_agf.Pppoe.Discovery.{
  Conn, same, is_error, parse_for_host_uniq, packet_is_for_me, parse_pads_tags,
}
use zy_agf.Pppoe.Discovery.Reads.{IsWhole, parse_packet-insane}

-- One of the tags has the type and the value.
abbrev pub Holds : ℕ → List ℕ → List Tag → Type 0
Holds type value [] = ⊥
Holds type value (t ∷ ts) = ((t.type ≡ type) × (t.value ≡ value)) ⊎ Holds type value ts

-- The packet's bytes hold such a tag.
pub record HasTag (p : Packet) (type : ℕ) (value : List ℕ) : Type 0 where
  pub tags : List Tag
  pub ok : Bool
  pub reads : Reads p tags ok
  pub holds : Holds type value tags

-- Where the packet passes the sanity checks, none of the tags that its bytes hold is an error.
abbrev pub NoError : Packet → Type 0
NoError p =
    is_sane p ≡ true
    → (tags : List Tag) (ok : Bool) → Reads p tags ok
    → All (λ t. is_error t.type ≡ false) tags

host_uniq-Holds :
    (name : List ℕ) (ts : List Tag) (found : Bool)
    → foldl (visit (parse_for_host_uniq (some name))) found ts ≡ true
    → (found ≡ true) ⊎ Holds tag_host_uniq name ts
unfolding parse_for_host_uniq same
host_uniq-Holds name [] found h = inl h
host_uniq-Holds name (t ∷ ts) found h =
    elim (host_uniq-Holds name ts
      (if t.type == tag_host_uniq && mac_eq t.value name then true else found) h) [
        | inr later ↦ inr (inr later)
        | inl now ↦ elim (Bool-cases (t.type == tag_host_uniq && mac_eq t.value name)) [
          | inl both ↦ inr (inl (ground arith, mac_eq-eq t.value name (ground arith)))
          | inr neither ↦ inl (rw neither at now)
        ]
      ]

not_refused : some false ≢ some true
not_refused e = let q : false ≡ true = some_inj e in cc

packet_is_for_me-cases :
    (c : Conn) (p : Packet)
    → packet_is_for_me c p ≡ some true
    → (mac_eq p.dest c.my_eth ≡ true)
      × ((name : List ℕ)
          → c.host_uniq ≡ some name
          → (parse_packet (parse_for_host_uniq (some name)) p false >>= λ (ok, for_me). some for_me)
            ≡ some true)
unfolding packet_is_for_me
packet_is_for_me-cases c p h = elim (Bool-cases (mac_eq p.dest c.my_eth)) [
  | inl e ↦ (e, λ name q. rw (e, q) at h)
  | inr e ↦ absurd (not_refused (rw e at h))
]

pub packet_is_for_me-dest :
    (c : Conn) (p : Packet) → packet_is_for_me c p ≡ some true → p.dest ≡ c.my_eth
packet_is_for_me-dest c p h = mac_eq-eq p.dest c.my_eth (packet_is_for_me-cases c p h).0

-- The answer of a parse of a packet whose array is whole.
found-HasTag :
    (name : List ℕ) (p : Packet)
    → IsWhole p
    → (parse_packet (parse_for_host_uniq (some name)) p false >>= λ (ok, for_me). some for_me)
      ≡ some true
    → HasTag p tag_host_uniq name
found-HasTag name p whole h = elim (Bool-cases (is_sane p)) [
  | inr odd ↦
      absurd
        (not_refused (rw (parse_packet-insane (parse_for_host_uniq (some name)) p false odd) at h))
  | inl sane ↦
      let (ts, ok, reads, q) =
        parse_packet_total (parse_for_host_uniq (some name)) p false sane whole in
      let r = some_inj (rw q at h) in
      elim (host_uniq-Holds name ts false r) [
        | inl no_start ↦ absurd (not_refused (ap some no_start))
        | inr k ↦ record { tags = ts; ok = ok; reads = reads; holds = k }
      ]
]

pub packet_is_for_me-HasTag :
    (c : Conn) (p : Packet)
    → IsWhole p
    → packet_is_for_me c p ≡ some true
    → (name : List ℕ) → c.host_uniq ≡ some name
    → HasTag p tag_host_uniq name
packet_is_for_me-HasTag c p whole h name e =
    found-HasTag name p whole ((packet_is_for_me-cases c p h).1 name e)

-- An error stays noted.
foldl_had_error :
    (ts : List Tag) (d : Conn)
    → d.pads_had_error ≡ true
    → (foldl (visit parse_pads_tags) d ts).pads_had_error ≡ true
unfolding parse_pads_tags
foldl_had_error [] d h = h
foldl_had_error (t ∷ ts) d h = foldl_had_error ts _ (ground arith)

foldl-NoError :
    (ts : List Tag) (d : Conn)
    → (foldl (visit parse_pads_tags) d ts).pads_had_error ≡ false
    → All (λ t. is_error t.type ≡ false) ts
unfolding parse_pads_tags
foldl-NoError [] d h = tt
foldl-NoError (t ∷ ts) d h = elim (Bool-cases (is_error t.type)) [
  | inr none_here ↦ (none_here, foldl-NoError ts _ h)
  | inl error ↦
      let noted =
        foldl_had_error ts (parse_pads_tags t.type (length t.value) t.value d) (rw error refl) in
      absurd (not_refused (ap some (sym h ∙ noted)))
]

pub parse_packet-NoError :
    (d : Conn) (p : Packet) {ok : Bool} {d' : Conn}
    → IsWhole p
    → parse_packet parse_pads_tags p d ≡ some (ok, d')
    → d'.pads_had_error ≡ false
    → NoError p
parse_packet-NoError d p {ok} {d'} whole e had sane ts ok' reads =
    let q = parse_packet-Reads parse_pads_tags p d sane (is_sane-fits p sane whole) reads in
    let same_end : foldl (visit parse_pads_tags) d ts ≡ d' = ap (λ r. r.1) (some_inj (sym q ∙ e)) in
    foldl-NoError ts d (ap (λ x. x.pads_had_error) same_end ∙ had)
