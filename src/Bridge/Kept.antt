-- ===== src/Bridge/Kept.antt =====
-- What the loop of tools/bridge.c keeps, and when it goes on.
use mt8183_kukui_pmos.Prelude.{
  ℕ, ◌+◌, ◌-◌, ◌*◌, ◌/◌, ◌<◌, ◌≡◌, ◌⊎◌, refl, ◌∙◌, arith, Bool-cases, true, false, inl, inr, List,
  [], ◌∷◌, length, All,
}
use mt8183_kukui_pmos.Bridge.Pixels.{Bytes}
use mt8183_kukui_pmos.Bridge.Convert.{frame_stride, Tone, convert}
use mt8183_kukui_pmos.Bridge.Blocks.{colours_at}
use mt8183_kukui_pmos.Bridge.Written.{IsPixel, convert-IsPixel}
use mt8183_kukui_pmos.Bridge.Loop.{
  Round, Loop, Setup, Next, next_round, break_loop, return_1, write_frame, bridge_round,
  bridge_loop, close_request,
}

-- A round gives back the request it opened, and counts the frame it writes, or fails to write.
abbrev pub IsBalanced : Loop → Loop → Type 0
IsBalanced before after =
    (after.open_requests ≡ before.open_requests)
    × (after.frames + (length before.written + before.failed)
        ≡ before.frames + (length after.written + after.failed))

bridge_round-IsBalanced : (s : Setup) (r : Round) (l : Loop) → IsBalanced l (bridge_round s r l).0
unfolding bridge_round write_frame
bridge_round-IsBalanced s r l =
    let closed : l.open_requests + 1 - 1 ≡ l.open_requests = omega arith in
    elim (Bool-cases r.request_alloc) [
      | inr no_request ↦ rw no_request (refl, refl)
      | inl alloc ↦ rw alloc (elim (Bool-cases (r.qbuf l.queued)) [
        | inr refused ↦ rw refused (closed, refl)
        | inl accepted ↦ rw accepted (elim (Bool-cases r.request_queue) [
          | inr refused ↦ rw refused (closed, refl)
          | inl queued ↦ rw queued (elim (Bool-cases r.poll) [
            | inr timeout ↦ rw timeout (closed, refl)
            | inl ready ↦ rw ready (elim (Bool-cases r.dqbuf) [
              | inr failed ↦ rw failed (closed, refl)
              | inl taken ↦ rw taken (elim (Bool-cases r.write) [
                | inl accepted ↦ rw accepted (closed, omega arith)
                | inr refused ↦ rw refused (closed, omega arith)
              ])
            ])
          ])
        ])
      ])
    ]

IsBalanced-trans : (a b c : Loop) → IsBalanced a b → IsBalanced b c → IsBalanced a c
IsBalanced-trans a b c (o, f) (o1, f1) = (o1 ∙ o, omega arith)

Next-cases : (n : Next) → (n ≡ next_round) ⊎ ((n ≡ break_loop) ⊎ (n ≡ return_1))
Next-cases next_round = inl refl
Next-cases break_loop = inr (inl refl)
Next-cases return_1 = inr (inr refl)

-- The loop, for any answers of the kernel and however it ends: as many requests are open as before
-- it, and the counter of frames has grown by the number of frames written and of failed writes.
pub bridge_loop-IsBalanced :
    (s : Setup) (rounds : List Round) (l : Loop) → IsBalanced l (bridge_loop s rounds l).0
unfolding bridge_loop
bridge_loop-IsBalanced s [] l = (refl, refl)
bridge_loop-IsBalanced s (r ∷ rest) l =
    let call = bridge_round s r l in
    let one = bridge_round-IsBalanced s r l in
    elim (Next-cases call.1) [
      | inl on ↦
          rw (bridge_loop, on)
            (IsBalanced-trans l call.0 (bridge_loop s rest call.0).0 one
              (bridge_loop-IsBalanced s rest call.0))
      | inr (inl stop) ↦ rw (bridge_loop, stop) one
      | inr (inr failed) ↦ rw (bridge_loop, failed) one
    ]

-- A round in which every call succeeds, for a buffer that is not in the queue, with a memory of bytes.
abbrev pub IsGood : Round → Type 0
IsGood r =
    (r.request_alloc ≡ true)
    × ((r.qbuf false ≡ true)
        × ((r.request_queue ≡ true)
            × ((r.poll ≡ true)
                × ((r.dqbuf ≡ true) × ((r.write ≡ true) × ((i : ℕ) → r.memory i < 256))))))

good_round :
    (s : Setup) (r : Round) (l : Loop)
    → IsGood r
    → l.queued ≡ false
    → bridge_round s r l ≡ (
      write_frame s true r.memory
          (record l { open_requests = l.open_requests + 1; queued = false }),
      next_round,
    )
unfolding bridge_round
good_round s r l (alloc, (qbuf, (queue, (poll, (dqbuf, (write, bytes)))))) free =
    rw (alloc, free, qbuf, queue, poll, dqbuf, write) refl

-- A frame that shows the memory of a round: each pixel has the two bytes of its place in the memory,
-- with the gains of that time.
abbrev pub IsShown : Setup → Round → Bytes → Type 0
IsShown s r f =
    (t : Tone) × ((xx y : ℕ)
      → xx < s.width / 2
      → y < s.height / 2
      → IsPixel t (y * (s.width / 2) * 2) xx
          (colours_at s.order r.memory (frame_stride s.width) y xx) f)

-- The frames after some rounds are those before and, on top of them, one for each round.
abbrev pub AreShown : Setup → List Round → List Bytes → List Bytes → Type 0
AreShown s [] before after = after ≡ before
AreShown s (r ∷ rest) before after =
    (f : Bytes) × IsShown s r f × AreShown s rest (f ∷ before) after

-- As long as every call succeeds, the loop goes on: it ends with status 0 and the buffer out of the
-- queue, it has written one frame for each round, in order, and each pixel of it has the luma and the
-- chroma byte of the colours at its place in the memory of that round, for some state of the gains.
pub bridge_loop_live :
    (s : Setup) (rounds : List Round) (l : Loop)
    → All IsGood rounds
    → l.queued ≡ false
    → (let (after, status) = bridge_loop s rounds l in
        (status ≡ 0)
        × ((after.frames ≡ l.frames + length rounds)
            × (AreShown s rounds l.written after.written × (after.queued ≡ false))))
unfolding bridge_loop write_frame
bridge_loop_live s [] l good free = (refl, (omega arith, (refl, free)))
bridge_loop_live s (r ∷ rest) l (fine, good) free =
    let next : Loop =
      write_frame s true r.memory
        (record l { open_requests = l.open_requests + 1; queued = false }) in
    let (status, (frames, (written, out))) = bridge_loop_live s rest next good refl in
    let shown : IsShown s r (convert l.tone s.order s.width s.height r.memory l.yuyv) = (
      l.tone,
      λ xx. λ y. λ in_row. λ in_frame.
          convert-IsPixel l.tone s.order s.width s.height xx y r.memory l.yuyv fine.1.1.1.1.1.1
            in_row in_frame,
    ) in
    let went = good_round s r l fine free in
    rw (bridge_loop, went, went)
      (
        status,
        (
          omega arith,
          ((convert l.tone s.order s.width s.height r.memory l.yuyv, shown, written), out),
        ),
      )

-- A round in which `poll` gives nothing leaves the buffer in the queue.
abbrev waiting_after : Loop → Loop
waiting_after l = close_request (record l { open_requests = l.open_requests + 1; queued = true })

timed_out_round :
    (s : Setup) (r : Round) (l : Loop)
    → r.request_alloc ≡ true
    → r.qbuf l.queued ≡ true
    → r.request_queue ≡ true
    → r.poll ≡ false
    → bridge_round s r l ≡ (waiting_after l, next_round)
unfolding bridge_round
timed_out_round s r l alloc qbuf queue timeout = rw (alloc, qbuf, queue, timeout) refl

refused_round :
    (s : Setup) (r : Round) (l : Loop)
    → r.qbuf l.queued ≡ false
    → (bridge_round s r l ≡ (l, return_1))
      ⊎ (bridge_round s r l
          ≡ (close_request (record l { open_requests = l.open_requests + 1 }), break_loop))
unfolding bridge_round
refused_round s r l refused = elim (Bool-cases r.request_alloc) [
  | inr no_request ↦ rw no_request (inl refl)
  | inl opened ↦ rw (opened, refused) (inr refl)
]

-- A round in which `poll` gives nothing, followed by one of a driver that does not take a buffer that
-- it has already: although the code goes on with the next round, the loop ends there, and not a frame
-- is written any more, whatever the rounds behind would bring.
pub bridge_loop_timeout :
    (s : Setup) (r r1 : Round) (rest : List Round) (l : Loop)
    → r.request_alloc ≡ true
    → r.qbuf l.queued ≡ true
    → r.request_queue ≡ true
    → r.poll ≡ false
    → r1.qbuf true ≡ false
    → (let after = (bridge_loop s (r ∷ r1 ∷ rest) l).0 in
        ((bridge_round s r l).1 ≡ next_round)
        × ((after.written ≡ l.written) × (after.frames ≡ l.frames)))
unfolding bridge_loop
bridge_loop_timeout s r r1 rest l alloc qbuf queue timeout refused =
    let first = timed_out_round s r l alloc qbuf queue timeout in
    elim (refused_round s r1 (waiting_after l) refused) [
      | inl stop ↦ rw (first, bridge_loop, first, stop, first, stop) (refl, (refl, refl))
      | inr stop ↦ rw (first, bridge_loop, first, stop, first, stop) (refl, (refl, refl))
    ]
