-- ===== src/Bridge/Loop.antt =====
-- tools/bridge.c: the start of the program and its loop, from the camera's buffer to the loopback
-- device. What the kernel answers in a round is an argument.
use mt8183_kukui_pmos.Prelude.{
  ℕ, ◌+◌, ◌-◌, ◌*◌, ◌/◌, ◌&&◌, if◌then◌else◌, Bool, true, false, not, Option, none, some, List, [],
  ◌∷◌,
}
use mt8183_kukui_pmos.Bridge.Pixels.{Bytes, BayerOrder}
use mt8183_kukui_pmos.Bridge.Convert.{Tone, convert}

-- A round of the loop, as the kernel answers it: whether the ioctls succeed, where the queueing of the
-- buffer may depend on whether the buffer is still in the driver's queue; whether `poll` gives a
-- positive number; the mapped memory when the buffer is taken back; and whether `write` takes the frame.
pub record Round : Type 0 where
  pub request_alloc : Bool
  pub qbuf : (queued : Bool) → Bool
  pub request_queue : Bool
  pub poll : Bool
  pub dqbuf : Bool
  pub memory : Bytes
  pub write : Bool

-- The program between two rounds: the requests that are open, whether the buffer is in the driver's
-- queue, the table and the gains, the output buffer and the frames written, the newest first.
pub record Loop : Type 0 where
  pub open_requests : ℕ
  pub queued : Bool
  pub tone : Tone
  pub yuyv : Bytes
  pub frames : ℕ
  pub written : List Bytes
  pub failed : ℕ

-- The order of the colours and the size of the camera's frames, and the gains for the next frame,
-- floating-point arithmetic on the sums of the last one.
pub record Setup : Type 0 where
  pub order : BayerOrder
  pub width : ℕ
  pub height : ℕ
  pub retone : Tone → Bytes → Tone

-- How a round ends: with the next one, with `break`, or with the return of `CK`.
pub data Next : Type 0 where
  next_round break_loop return_1 : Next

abbrev pub close_request : Loop → Loop
close_request l = record l { open_requests = l.open_requests - 1 }

-- The end of a round, from the frame in the mapped memory on, by whether `write` takes it; where it
-- fails, that is reported and the counter goes on.
unfoldable pub write_frame : Setup → Bool → Bytes → Loop → Loop
write_frame s accepted memory l =
    let yuyv = convert l.tone s.order s.width s.height memory l.yuyv in
    close_request (record l {
      yuyv = yuyv;
      tone = s.retone l.tone memory;
      frames = l.frames + 1;
      written = if accepted then yuyv ∷ l.written else l.written;
      failed = if accepted then l.failed else l.failed + 1;
    })

unfoldable pub bridge_round : Setup → Round → Loop → Loop × Next
bridge_round s r l =
    if not r.request_alloc
    then (l, return_1)
    else let opened = record l { open_requests = l.open_requests + 1 } in
      let waiting = record opened { queued = true } in
      let back = record waiting { queued = false } in
      if not (r.qbuf l.queued)
      then (close_request opened, break_loop)
      else if not r.request_queue
      then (close_request opened, break_loop)
      else if not r.poll
      then (close_request waiting, next_round)
      else if not r.dqbuf
      then (close_request waiting, break_loop)
      else (write_frame s r.write r.memory back, next_round)

-- `while (run)`, for the rounds until a signal clears `run`, with the program's exit status.
unfoldable pub bridge_loop : Setup → List Round → Loop → Loop × ℕ
bridge_loop s [] l = (l, 0)
bridge_loop s (r ∷ rest) l =
    let (after, next) = bridge_round s r l in
    let others = bridge_loop s rest after in
    elim next [ next_round ↦ others | break_loop ↦ (after, 0) | return_1 ↦ (after, 1) ]

-- `argv[4]` and `argv[5]` where they are given, as `atoi` reads them.
abbrev pub requested_size : Option ℕ → Option ℕ → ℕ × ℕ
requested_size width height = (or_else width 1600, or_else height 1200)
  where
    or_else : Option ℕ → ℕ → ℕ
    or_else none n = n
    or_else (some m) n = m

-- The format that the loopback device gets for frames of a size.
pub record LoopbackFormat : Type 0 where
  pub width : ℕ
  pub height : ℕ
  pub bytesperline : ℕ
  pub sizeimage : ℕ

abbrev pub loopback_format : ℕ → ℕ → LoopbackFormat
loopback_format w h = record {
  width = w / 2;
  height = h / 2;
  bytesperline = w / 2 * 2;
  sizeimage = w / 2 * (h / 2) * 2;
}

-- The calls before the loop, in order, and the size that the camera's VIDIOC_S_FMT gives back.
pub record Start : Type 0 where
  pub open_media : Bool
  pub open_video : Bool
  pub open_loopback : Bool
  pub set_format : (ℕ × ℕ) → Option (ℕ × ℕ)
  pub set_loopback : LoopbackFormat → Bool
  pub reqbufs : Bool
  pub querybuf : Bool
  pub mmap : Bool
  pub streamon : Bool

-- From `main` to the loop: the size of the frames, or `none` where the program ends with status 1.
unfoldable pub bridge_start : Start → Option ℕ → Option ℕ → Option (ℕ × ℕ)
bridge_start a width height =
    if not (a.open_media && (a.open_video && a.open_loopback))
    then none
    else elim (a.set_format (requested_size width height)) [
      | none ↦ none
      | some (w, h) ↦
          if a.set_loopback (loopback_format w h)
            && (a.reqbufs && (a.querybuf && (a.mmap && a.streamon)))
          then some (w, h)
          else none
    ]
