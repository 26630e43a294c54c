-- ===== src/Pppoe/Framing/Feed.antt =====
-- The loops of `asyncReadFromPPP` take their input byte by byte: how it is cut into reads makes no
-- difference.
use zy_agf.Prelude.{
  ℕ, zero, suc, ◌-◌, ◌≤◌, ◌<◌, bit_xor, List, [], ◌∷◌, ◌++◌, ◌==◌, ltb, leb, if◌then◌else◌, length,
  take, ◌≡◌, refl, sym, ap, ◌∙◌, arith, Bool-cases, inl, inr, append_assoc, length-append,
  length-take,
}
use zy_agf.Pppoe.Framing.{
  Mode, waitfor_frame_addr, drop_proto, building_packet, dead, Framer, Progress, frame_esc,
  frame_flag, frame_addr, frame_ctrl, frame_enc, max_frame, wait_addr, drop_ctrl, build, enter,
  async_read, async_read_from_ppp,
}

-- One byte.
abbrev pub reset : Framer
reset = record { mode = waitfor_frame_addr; buf = []; xor_value = 0 }

abbrev pub build_byte : Framer → ℕ → Framer × List (List ℕ)
build_byte s c =
    if c == frame_esc
    then (record s { xor_value = frame_enc }, [])
    else if c == frame_flag
    then (if ltb (length s.buf) 2
        then (record s { mode = dead }, [])
        else (reset, take (length s.buf - 2) s.buf ∷ []))
    else if leb max_frame (length s.buf)
    then (reset, [])
    else (record s { buf = s.buf ++ (bit_xor c s.xor_value ∷ []); xor_value = 0 }, [])

abbrev pub step_in : Mode → Framer → ℕ → Framer × List (List ℕ)
step_in waitfor_frame_addr s c = (if c == frame_addr then record s { mode = drop_proto } else s, [])
step_in drop_proto s c =
    (if c == bit_xor frame_ctrl frame_enc then record s { mode = building_packet } else s, [])
step_in building_packet s c = build_byte s c
step_in dead s c = (s, [])

-- A string of bytes, one at a time.
unfoldable pub feed : Framer → List ℕ → Framer × List (List ℕ)
feed s [] = (s, [])
feed s (c ∷ bytes) =
    let (s1, out) = step_in s.mode s c in let (s2, later) = feed s1 bytes in (s2, out ++ later)

pub feed-append :
    (s : Framer) (xs ys : List ℕ)
    → feed s (xs ++ ys) ≡ ((feed (feed s xs).0 ys).0, (feed s xs).1 ++ (feed (feed s xs).0 ys).1)
unfolding feed
feed-append s [] ys = refl
feed-append s (c ∷ xs) ys =
    let (s1, out) = step_in s.mode s c in
    ap (λ r. (r.0, out ++ r.1)) (feed-append s1 xs ys)
    ∙ ap (λ r. ((feed (feed s1 xs).0 ys).0, r))
        (sym (append_assoc out (feed s1 xs).1 (feed (feed s1 xs).0 ys).1))

-- What a loop leaves, finished byte by byte.
abbrev pub finish : Progress → Framer × List (List ℕ)
finish p = let (s, later) = feed p.framer p.unread in (s, p.sent ++ later)

abbrev pub at : Mode → List ℕ → ℕ → Framer
at m b x = record { mode = m; buf = b; xor_value = x }

-- Each loop does what the single bytes do, and takes at least one.
abbrev Follows : Framer → List ℕ → Progress → Type 0
Follows s bytes p = (feed s bytes ≡ finish p) × (length p.unread ≤ length bytes - 1)

wait_addr-Follows :
    (b : List ℕ) (x : ℕ) (bytes : List ℕ)
    → Follows (at waitfor_frame_addr b x) bytes (wait_addr (at waitfor_frame_addr b x) bytes)
unfolding feed wait_addr
wait_addr-Follows b x [] = (refl, omega arith)
wait_addr-Follows b x (c ∷ bytes) =
    let ih = wait_addr-Follows b x bytes in
    elim (Bool-cases (c == frame_addr)) [
      | inl e ↦ rw e (refl, omega arith)
      | inr e ↦ rw e (ih.0, omega (arith, ih.1))
    ]

drop_ctrl-Follows :
    (b : List ℕ) (x : ℕ) (bytes : List ℕ)
    → Follows (at drop_proto b x) bytes (drop_ctrl (at drop_proto b x) bytes)
unfolding feed drop_ctrl
drop_ctrl-Follows b x [] = (refl, omega arith)
drop_ctrl-Follows b x (c ∷ bytes) =
    let ih = drop_ctrl-Follows b x bytes in
    elim (Bool-cases (c == bit_xor frame_ctrl frame_enc)) [
      | inl e ↦ rw e (refl, omega arith)
      | inr e ↦ rw e (ih.0, omega (arith, ih.1))
    ]

feed-dead : (b : List ℕ) (x : ℕ) (bytes : List ℕ) → feed (at dead b x) bytes ≡ (at dead b x, [])
unfolding feed
feed-dead b x [] = refl
feed-dead b x (c ∷ bytes) = feed-dead b x bytes

build-Follows :
    (b : List ℕ) (x : ℕ) (bytes : List ℕ)
    → Follows (at building_packet b x) bytes (build (at building_packet b x) bytes)
unfolding feed build
build-Follows b x [] = (refl, omega arith)
build-Follows b x (c ∷ bytes) =
    let escaped = build-Follows b frame_enc bytes in
    let stored = build-Follows (b ++ (bit_xor c x ∷ [])) 0 bytes in
    elim (Bool-cases (c == frame_esc)) [
      | inl e ↦ rw e (escaped.0, omega (arith, escaped.1))
      | inr e ↦ elim (Bool-cases (c == frame_flag)) [
        | inl f ↦ elim (Bool-cases (ltb (length b) 2)) [
          | inl short ↦ rw (e, f, short) (refl, omega arith)
          | inr long ↦ rw (e, f, long) (refl, omega arith)
        ]
        | inr f ↦ elim (Bool-cases (leb max_frame (length b))) [
          | inl big ↦ rw (e, f, big) (refl, omega arith)
          | inr fits ↦ rw (e, f, fits) (stored.0, omega (arith, stored.1))
        ]
      ]
    ]

enter-Follows :
    (m : Mode) (b : List ℕ) (x : ℕ) (bytes : List ℕ)
    → Follows (at m b x) bytes (enter m (at m b x) bytes)
unfolding enter feed
enter-Follows waitfor_frame_addr b x bytes = wait_addr-Follows b x bytes
enter-Follows drop_proto b x bytes = drop_ctrl-Follows b x bytes
enter-Follows building_packet b x bytes = build-Follows b x bytes
enter-Follows dead b x bytes = (feed-dead b x bytes, omega arith)

async_read-feed :
    (fuel : ℕ) (s : Framer) (bytes : List ℕ)
    → length bytes < fuel
    → async_read fuel s bytes ≡ feed s bytes
unfolding async_read
async_read-feed zero s bytes h = absurd (omega arith)
async_read-feed (suc fuel) s [] h = unfold feed in refl
async_read-feed (suc fuel) s (c ∷ bytes) h =
    let f = enter-Follows s.mode s.buf s.xor_value (c ∷ bytes) in
    let p = enter s.mode s (c ∷ bytes) in
    ap (λ r. (r.0, p.sent ++ r.1)) (async_read-feed fuel p.framer p.unread (omega (arith, f.1)))
    ∙ sym f.0

-- The fuel is enough, and the loops do what single bytes do.
pub async_read_from_ppp-feed :
    (s : Framer) (bytes : List ℕ) → async_read_from_ppp s bytes ≡ feed s bytes
unfolding async_read_from_ppp
async_read_from_ppp-feed s bytes = async_read-feed (suc (length bytes)) s bytes (omega arith)

-- From any state, two reads one after the other leave the state that one read of all the bytes leaves,
-- and send the same packets.
pub async_read_from_ppp-append :
    (s : Framer) (xs ys : List ℕ)
    → let (s1, first) = async_read_from_ppp s xs in
      let (s2, second) = async_read_from_ppp s1 ys in
      async_read_from_ppp s (xs ++ ys) ≡ (s2, first ++ second)
async_read_from_ppp-append s xs ys =
    rw
      (
        async_read_from_ppp-feed s xs,
        async_read_from_ppp-feed s (xs ++ ys),
        async_read_from_ppp-feed (feed s xs).0 ys,
      )
      (feed-append s xs ys)

-- Packets of at most as many bytes as a PPPoE payload.
abbrev pub Short : List (List ℕ) → Type 0
Short [] = Unit
Short (p ∷ ps) = (length p ≤ 1502) × Short ps

Short-append : (ps qs : List (List ℕ)) → Short ps → Short qs → Short (ps ++ qs)
Short-append [] qs h k = k
Short-append (p ∷ ps) qs h k = (h.0, Short-append ps qs h.1 k)

step-Short :
    (m : Mode) (b : List ℕ) (x c : ℕ)
    → length b ≤ max_frame
    → (length (step_in m (at m b x) c).0.buf ≤ max_frame) × Short (step_in m (at m b x) c).1
step-Short waitfor_frame_addr b x c h = ground arith
step-Short drop_proto b x c h = ground arith
step-Short dead b x c h = (h, tt)
step-Short building_packet b x c h =
    ground (arith, length-append b (bit_xor c x ∷ []), length-take (length b - 2) b)

feed-Short :
    (s : Framer) (bytes : List ℕ)
    → length s.buf ≤ max_frame
    → (length (feed s bytes).0.buf ≤ max_frame) × Short (feed s bytes).1
unfolding feed
feed-Short s [] h = (h, tt)
feed-Short s (c ∷ bytes) h =
    let st = step-Short s.mode s.buf s.xor_value c h in
    let r = step_in s.mode s c in
    let ih = feed-Short r.0 bytes st.0 in (ih.0, Short-append r.1 (feed r.0 bytes).1 st.1 ih.1)

-- From a state whose packet has at most ETH_JUMBO_LEN - 4 bytes, the packet being built keeps that bound
-- whatever is read, and every packet that goes out has at most MAX_PPPOE_PAYLOAD bytes.
pub async_read_from_ppp-Short :
    (s : Framer) (bytes : List ℕ)
    → length s.buf ≤ max_frame
    → (length (async_read_from_ppp s bytes).0.buf ≤ max_frame)
      × Short (async_read_from_ppp s bytes).1
async_read_from_ppp-Short s bytes h = rw (async_read_from_ppp-feed s bytes) (feed-Short s bytes h)
