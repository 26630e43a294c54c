-- ===== src/Pppoe/Relay/Invariant/Discovery.antt =====
-- Discovery packets of any kind, on a well-formed table: the handler does not fault, and the table stays
-- well formed.
use zy_agf.Prelude.{
  ℕ, zero, suc, ◌<◌, Bool, true, false, not, Option, none, some, List, [], ◌∷◌, ◌++◌, ◌==◌,
  if◌then◌else◌, length, get_elem?, drop, take, ◌≡◌, refl, arith, Bool-cases, inl, inr, ◌>>=◌,
  Option-cases,
}
use zy_agf.Pppoe.Packet.{
  Packet, eth_jumbo_len, tag_relay_session_id, tag_host_uniq, code_pads, code_padt,
}
use zy_agf.Pppoe.Tags.{Tag, find_tag, is_sane}
use zy_agf.Pppoe.Tags.Scan.{scan_total}
use zy_agf.Pppoe.Tags.Parse.{is_sane-fits}
use zy_agf.Pppoe.Tags.Find.{locate, find_tag-Reads}
use zy_agf.Pppoe.Relay.{Relay, mac_eq, find_session}
use zy_agf.Pppoe.Relay.Ports.{Interface, Sent, not_unicast, relay_send_error}
use zy_agf.Pppoe.Relay.Offers.{Target, check_target, relay_target}
use zy_agf.Pppoe.Relay.Offers.Targets.{check_target_inv}
use zy_agf.Pppoe.Relay.Pads.{
  deliver_pads, refuse_pads, pads_session, accept_pads, relay_handle_pads,
}
use zy_agf.Pppoe.Relay.Invariant.{IsValid}
use zy_agf.Pppoe.Relay.Invariant.Create.{create_session-IsValid}
use zy_agf.Pppoe.Relay.Invariant.Steps.{Keeps, same-Keeps}

pub find_tag_total :
    (p : Packet) (type : ℕ)
    → length p.payload ≡ eth_jumbo_len
    → (o : Option (ℕ × Tag)) × (find_tag p type ≡ some o)
unfolding find_tag
find_tag_total p type whole = elim (Bool-cases (is_sane p)) [
  | inl sane ↦
      let s = scan_total (take p.length p.payload) in
      (
        locate type 0 s.tags,
        unfold find_tag in find_tag-Reads p type sane (is_sane-fits p sane whole) s.scan,
      )
  | inr bad ↦ (none, rw bad)
]

get_elem?-lt : {A : Type 0} (xs : List A) (i : ℕ) (x : A) → get_elem? xs i ≡ some x → i < length xs
get_elem?-lt [] i x e = cc
get_elem?-lt (y ∷ xs) zero x e = omega arith
get_elem?-lt (y ∷ xs) (suc i) x e = omega (arith, get_elem?-lt xs i x e)

-- Where a tag points, if anywhere, is an interface that exists.
abbrev pub Exists : List Interface → Option Target → Type 0
Exists ifaces none = Unit
Exists ifaces (some g) = g.index < length ifaces

check_target-Exists :
    (serves : Interface → Bool) (ifaces : List Interface) (i loc : ℕ) (t : Tag) (o : Option Target)
    → check_target serves ifaces i loc t ≡ o
    → Exists ifaces o
check_target-Exists serves ifaces i loc t none e = tt
check_target-Exists serves ifaces i loc t (some g) e =
    get_elem?-lt ifaces g.index g.iface (check_target_inv serves ifaces i loc t e).0

pub relay_target_total :
    (serves : Interface → Bool) (ifaces : List Interface) (i : ℕ) (p : Packet)
    → length p.payload ≡ eth_jumbo_len
    → (o : Option Target) × (relay_target serves ifaces i p ≡ some o) × Exists ifaces o
unfolding relay_target
relay_target_total serves ifaces i p whole = go (find_tag_total p tag_relay_session_id whole)
  where
    go :
        (o : Option (ℕ × Tag)) × (find_tag p tag_relay_session_id ≡ some o)
        → (o : Option Target) × ((find_tag p tag_relay_session_id >>= λ f. elim f [
          | none ↦ some none
          | some (loc, t) ↦ some (check_target serves ifaces i loc t)
        ])
            ≡ some o)
          × Exists ifaces o
    go (none, e) = (none, rw e, tt)
    go (some (loc, t), e) = (
      check_target serves ifaces i loc t,
      rw e,
      check_target-Exists serves ifaces i loc t (check_target serves ifaces i loc t) refl,
    )

pads_session_total :
    (n : ℕ) (r : Relay) (i : ℕ) (p : Packet) (t : Target)
    → IsValid n r
    → i < n
    → t.index < n
    → (s : Option ℕ) × (r' : Relay) × (pads_session r i p t ≡ some (s, r')) × IsValid n r'
unfolding pads_session
pads_session_total n r i p t v a b = elim (Option-cases (find_session r p.source p.session)) [
  | inl f ↦
      let c = create_session-IsValid n i t.index p.source (drop 4 t.tag.value) p.session r v a b in
      (c.made, c.after, rw (pads_session, f) c.runs, c.valid)
  | inr (h, f) ↦ (some ((r.hashes h).ses), r, rw (pads_session, f), v)
]

-- A bind whose first part returns, and whose second part always does.
bind_total :
    {A B : Type 0} (m : Option A) (a : A) (g : A → B)
    → m ≡ some a
    → (b : B) × ((m >>= λ x. some (g x)) ≡ some b)
bind_total m a g e = (g a, rw e)

bind-Keeps :
    {A : Type 0} (n : ℕ) (m : Option A) (a : A) (f : A → Option (List Sent × Relay))
    → m ≡ some a
    → Keeps n (f a)
    → Keeps n (m >>= f)
bind-Keeps n m a f e k = record {
  sent = k.sent;
  after = k.after;
  returns = rw e k.returns;
  valid = k.valid;
}

refuse_pads_total :
    (stack err_msg : List ℕ) (ifaces : List Interface) (i : ℕ) (p : Packet) (t : Target)
    → length p.payload ≡ eth_jumbo_len
    → (sent : List Sent) × (refuse_pads stack err_msg ifaces i p t ≡ some sent)
unfolding refuse_pads
refuse_pads_total stack err_msg ifaces i p t whole =
    let (o, e) = find_tag_total p tag_host_uniq whole in
    bind_total (find_tag p tag_host_uniq) o
      (λ found.
        let hu : Option Tag = elim found [ none ↦ none | some (l, u) ↦ some u ] in
        relay_send_error stack code_pads 0 ifaces t.index (drop 4 t.tag.value) hu err_msg
        ++ relay_send_error stack code_padt p.session ifaces i p.source none err_msg)
      e

-- A PADS that names a client, with a session number.
accept_pads-IsValid :
    (stack err_msg : List ℕ) (ifaces : List Interface) (i : ℕ) (p : Packet) (size : ℕ) (t : Target)
    (r : Relay)
    → length p.payload ≡ eth_jumbo_len
    → IsValid (length ifaces) r
    → i < length ifaces
    → t.index < length ifaces
    → Keeps (length ifaces) (accept_pads stack err_msg ifaces i p size t r)
unfolding accept_pads
accept_pads-IsValid stack err_msg ifaces i p size t r whole v a b =
    let (o, r', e, v') = pads_session_total (length ifaces) r i p t v a b in
    let (sent, f) = refuse_pads_total stack err_msg ifaces i p t whole in
    unfold pads_session refuse_pads deliver_pads in
    bind-Keeps (length ifaces) (pads_session r i p t) (o, r')
      (λ made. elim made.0 [
        | none ↦ refuse_pads stack err_msg ifaces i p t >>= λ s. some (s, made.1)
        | some s ↦
            some (deliver_pads (record p { session = (made.1.sessions s).ses_num }) size t, made.1)
      ])
      e (made o r' sent f v')
  where
    made :
        (o : Option ℕ) (r' : Relay) (sent : List Sent)
        → refuse_pads stack err_msg ifaces i p t ≡ some sent
        → IsValid (length ifaces) r'
        → Keeps (length ifaces) (elim o [
          | none ↦ refuse_pads stack err_msg ifaces i p t >>= λ s. some (s, r')
          | some s ↦ some (deliver_pads (record p { session = (r'.sessions s).ses_num }) size t, r')
        ])
    made none r' sent f v' =
        bind-Keeps (length ifaces) (refuse_pads stack err_msg ifaces i p t) sent (λ s. some (s, r'))
          f (same-Keeps (length ifaces) r' sent v')
    made (some s) r' sent f v' =
        same-Keeps (length ifaces) r'
          (deliver_pads (record p { session = (r'.sessions s).ses_num }) size t) v'

pads_target :
    (stack err_msg : List ℕ) (ifaces : List Interface) (i : ℕ) (p : Packet) (size : ℕ)
    (o : Option Target) (r : Relay)
    → length p.payload ≡ eth_jumbo_len
    → IsValid (length ifaces) r
    → i < length ifaces
    → Exists ifaces o
    → Keeps (length ifaces) (elim o [
      | none ↦ some ([], r)
      | some t ↦
          if p.session == 0
          then some (deliver_pads p size t, r)
          else accept_pads stack err_msg ifaces i p size t r
    ])
pads_target stack err_msg ifaces i p size none r whole v a b = same-Keeps (length ifaces) r [] v
pads_target stack err_msg ifaces i p size (some t) r whole v a b =
    elim (Bool-cases (p.session == 0)) [
      | inl z ↦ rw z (same-Keeps (length ifaces) r (deliver_pads p size t) v)
      | inr nz ↦ rw nz (accept_pads-IsValid stack err_msg ifaces i p size t r whole v a b)
    ]

-- Guards in front of a handler.
guard-Keeps :
    (n : ℕ) (b : Bool) (o : Option (List Sent × Relay)) (r : Relay)
    → IsValid n r
    → Keeps n o
    → Keeps n (if b then some ([], r) else o)
guard-Keeps n true o r v k = same-Keeps n r [] v
guard-Keeps n false o r v k = k

pub relay_handle_pads-IsValid :
    (stack err_msg : List ℕ) (ifaces : List Interface) (i : ℕ) (iface : Interface) (p : Packet)
    (size : ℕ) (r : Relay)
    → length p.payload ≡ eth_jumbo_len
    → IsValid (length ifaces) r
    → i < length ifaces
    → Keeps (length ifaces) (relay_handle_pads stack err_msg ifaces i iface p size r)
unfolding relay_handle_pads
relay_handle_pads-IsValid stack err_msg ifaces i iface p size r whole v a =
    let n = length ifaces in
    let (o, e, x) = relay_target_total (λ f. f.client_ok) ifaces i p whole in
    let last : Option (List Sent × Relay) = relay_target (λ f. f.client_ok) ifaces i p >>= λ target.
    elim target [
      | none ↦ some ([], r)
      | some t ↦
          if p.session == 0
          then some (deliver_pads p size t, r)
          else accept_pads stack err_msg ifaces i p size t r
    ] in
    let k3 : Keeps n last = rw e (pads_target stack err_msg ifaces i p size o r whole v a x) in
    let k2 = guard-Keeps n (not (mac_eq p.dest iface.mac)) last r v k3 in
    let k1 =
      guard-Keeps n (not_unicast p.source)
        (if not (mac_eq p.dest iface.mac) then some ([], r) else last) r v k2 in
    unfold relay_target accept_pads deliver_pads in
    guard-Keeps n (not iface.ac_ok)
      (if not_unicast p.source
        then some ([], r)
        else if not (mac_eq p.dest iface.mac)
        then some ([], r)
        else last)
      r v k1
