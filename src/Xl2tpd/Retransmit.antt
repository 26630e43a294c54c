-- ===== src/Xl2tpd/Retransmit.antt =====
-- xl2tpd/network.c: `control_xmit`, which sends a control message again until it is confirmed or the
-- retries are used up. The timer that it sets calls it again with the same buffer.
use native.Mathlib.Nat.{add-zero}
use zy_agf.Prelude.{
  ℕ, zero, suc, ◌+◌, ◌-◌, ◌^◌, ◌≤◌, ◌<◌, Bool, true, false, Option, none, some, List, [], ◌∷◌, ◌++◌,
  ltb, if◌then◌else◌, ◌≡◌, refl, ap, ap₂, ◌∙◌, arith, ◌*◌, min, All, length, ◌==◌, ==_iff,
  holds_below, holds_below_lem, Bool-cases, inl, inr, le→ltb, lt→ltb,
}

-- What the function uses of `struct tunnel`: `cLr`, and of its own call the flags and whether
-- `errormsg` is "Timeout".
pub record Peer : Type 0 where
  pub clr : ℕ
  pub needclose : Bool
  pub closing : Bool
  pub timed_out : Bool

-- What it uses of `struct buffer`: the message's number, and how often it was tried.
pub record Message : Type 0 where
  pub ns : ℕ
  pub retries : ℕ

-- `call_close` on the tunnel's own call, `toss`, a timer for so many seconds, and `udp_xmit`.
pub data Action : Type 0 where
  close_call toss udp_xmit : Action
  timer : ℕ → Action

pub record Tried : Type 0 where
  pub message : Message
  pub peer : Option Peer
  pub actions : List Action

-- The delay in seconds before try `retries + 1`.
abbrev pub backoff : ℕ → ℕ
backoff retries = 2 ^ (if ltb 31 (retries - 1) then 31 else retries - 1)

-- The flags when the retries are used up.
unfoldable pub give_up : Peer → Peer
give_up t =
    if t.needclose
    then record t { needclose = false; closing = true }
    else record t { needclose = true; timed_out = true }

unfoldable pub retry : ℕ → Message → Option Peer → Tried
unfolding give_up
retry max_retries b none =
    if ltb max_retries b.retries
    then record { message = b; peer = none; actions = toss ∷ [] }
    else record { message = b; peer = none; actions = timer (backoff b.retries) ∷ udp_xmit ∷ [] }
retry max_retries b (some t) =
    if ltb b.ns t.clr
    then record { message = b; peer = some t; actions = toss ∷ [] }
    else if ltb max_retries b.retries
    then record { message = b; peer = some (give_up t); actions = close_call ∷ toss ∷ [] }
    else record { message = b; peer = some t; actions = timer (backoff b.retries) ∷ udp_xmit ∷ [] }

unfoldable pub control_xmit : ℕ → Message → Option Peer → Tried
unfolding retry
control_xmit max_retries b t = retry max_retries (record b { retries = b.retries + 1 }) t

-- Whether the buffer is still held by a timer.
abbrev pub is_waiting : List Action → Bool
is_waiting (timer n ∷ rest) = true
is_waiting _ = false

-- The calls for one message over time. `readings` holds the peer's state at each expiry of the timer;
-- the result is all that was done, and whether the buffer was freed.
unfoldable pub deliver : ℕ → Message → List Peer → List Action × Bool
deliver max_retries b [] = ([], false)
deliver max_retries b (t ∷ readings) =
    let r = control_xmit max_retries b (some t) in
    let (later, freed) = deliver max_retries r.message readings in
    if is_waiting r.actions then (r.actions ++ later, freed) else (r.actions, true)

abbrev pub constantly : ℕ → Peer → List Peer
constantly zero t = []
constantly (suc n) t = t ∷ constantly n t

-- `n` tries with their timers, the first of `delay` seconds, each later one of twice the one before but
-- 2 ^ 31 at most, and then the end.
abbrev pub schedule_of : ℕ → ℕ → List Action
schedule_of zero delay = close_call ∷ toss ∷ []
schedule_of (suc n) delay = timer delay ∷ udp_xmit ∷ schedule_of n (min (delay * 2) (2 ^ 31))

-- The delay after `retries` tries.
abbrev capped : ℕ → ℕ
capped retries = 2 ^ min retries 31

-- Checked for every number of tries that makes a difference.
doubles_table : holds_below 32 (λ r. capped (r + 1) == min (capped r * 2) (2 ^ 31)) ≡ true
unfolding holds_below
doubles_table = refl

doubles : (r : ℕ) → capped (r + 1) ≡ min (capped r * 2) (2 ^ 31)
doubles r = elim (Bool-cases (ltb r 32)) [
  | inl few ↦ (==_iff _ _).0 (
      holds_below_lem 32 (λ k. capped (k + 1) == min (capped k * 2) (2 ^ 31)) r doubles_table
        (ground arith))
  | inr many ↦
      let now : min r 31 ≡ 31 = ground arith in
      let then' : min (r + 1) 31 ≡ 31 = ground arith in rw (now, then') refl
]

backoff_lem : (r : ℕ) → backoff (r + 1) ≡ capped r
backoff_lem r = ap (λ n. 2 ^ n) (ground arith)

-- One try of a message that is not confirmed, with retries left.
deliver_again :
    (max_retries : ℕ) (b : Message) (t : Peer) (readings : List Peer)
    → t.clr ≤ b.ns
    → b.retries + 1 ≤ max_retries
    → deliver max_retries b (t ∷ readings) ≡ (
      timer (backoff (b.retries + 1))
          ∷ udp_xmit
          ∷ (deliver max_retries (record b { retries = b.retries + 1 }) readings).0,
      (deliver max_retries (record b { retries = b.retries + 1 }) readings).1,
    )
unfolding deliver control_xmit
deliver_again max_retries b t readings h m =
    rw (le→ltb b.ns t.clr h, le→ltb max_retries (b.retries + 1) m)

-- The try behind the last one.
deliver_last :
    (b : Message) (t : Peer) (readings : List Peer)
    → t.clr ≤ b.ns
    → deliver b.retries b (t ∷ readings) ≡ (close_call ∷ toss ∷ [], true)
unfolding deliver control_xmit
deliver_last b t readings h =
    rw (le→ltb b.ns t.clr h, lt→ltb b.retries (b.retries + 1) (omega arith))

-- At no expiry has the peer confirmed the message.
abbrev pub NeverConfirmed : Message → List Peer → Type 0
NeverConfirmed b readings = All (λ t. t.clr ≤ b.ns) readings

deliver_unconfirmed_at :
    (n max_retries : ℕ) (b : Message) (readings : List Peer)
    → NeverConfirmed b readings
    → length readings ≡ suc n
    → max_retries ≡ b.retries + n
    → deliver max_retries b readings ≡ (schedule_of n (capped b.retries), true)
deliver_unconfirmed_at n max_retries b [] h l e = absurd (omega arith)
deliver_unconfirmed_at zero max_retries b (t ∷ []) (h, k) l e =
    rw (e, add-zero) (deliver_last b t [] h)
deliver_unconfirmed_at zero max_retries b (t ∷ u ∷ readings) h l e = absurd (omega arith)
deliver_unconfirmed_at (suc n) max_retries b (t ∷ readings) (h, k) l e =
    let b' = record b { retries = b.retries + 1 } in
    deliver_again max_retries b t readings h (omega arith)
    ∙ ap (λ r. (timer (backoff (b.retries + 1)) ∷ udp_xmit ∷ r.0, r.1))
        (deliver_unconfirmed_at n max_retries b' readings k (omega arith) (omega arith))
    ∙ ap₂ (λ d d'. (timer d ∷ udp_xmit ∷ schedule_of n d', true)) (backoff_lem b.retries)
        (doubles b.retries)

-- A new message, with `n` retries configured, that is not confirmed at any of `n` + 1 expiries of its
-- timer, whatever else the peer's state is at each: it is sent `n` times, each time with a timer, whose
-- delay is 1 second at first and doubles from try to try up to 2 ^ 31 seconds. Then the tunnel's call is
-- closed and the buffer freed.
pub deliver_unconfirmed :
    (n : ℕ) (b : Message) (readings : List Peer)
    → b.retries ≡ 0
    → NeverConfirmed b readings
    → length readings ≡ suc n
    → deliver n b readings ≡ (schedule_of n 1, true)
deliver_unconfirmed n b readings fresh h l =
    deliver_unconfirmed_at n n b readings h l (omega (arith, fresh))
    ∙ ap (λ r. (schedule_of n (capped r), true)) fresh

abbrev pub sends : List Action → ℕ
sends [] = 0
sends (udp_xmit ∷ rest) = suc (sends rest)
sends (_ ∷ rest) = sends rest

deliver_done :
    (max_retries : ℕ) (b : Message) (u : Peer) (readings : List Peer)
    → b.ns < u.clr
    → (sends (deliver max_retries b (u ∷ readings)).0 ≡ 0)
      × ((deliver max_retries b (u ∷ readings)).1 ≡ true)
unfolding deliver control_xmit
deliver_done max_retries b u readings k = rw (lt→ltb b.ns u.clr k) (refl, refl)

-- A message that the peer has confirmed by the expiry after `n` tries, with that many tries left, was
-- sent exactly `n` times, whatever comes later, and its buffer is freed.
pub deliver_confirmed :
    (max_retries n : ℕ) (b : Message) (t u : Peer) (readings : List Peer)
    → t.clr ≤ b.ns
    → b.ns < u.clr
    → b.retries + n ≤ max_retries
    → (sends (deliver max_retries b (constantly n t ++ (u ∷ readings))).0 ≡ n)
      × ((deliver max_retries b (constantly n t ++ (u ∷ readings))).1 ≡ true)
deliver_confirmed max_retries zero b t u readings h k m = deliver_done max_retries b u readings k
deliver_confirmed max_retries (suc n) b t u readings h k m =
    let b' = record b { retries = b.retries + 1 } in
    let ih = deliver_confirmed max_retries n b' t u readings h k (omega arith) in
    rw (deliver_again max_retries b t (constantly n t ++ (u ∷ readings)) h (omega arith))
      (ap suc ih.0, ih.1)
