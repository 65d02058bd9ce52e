-- ===== src/Cam/Dequeue.antt =====
-- What `mtk_cam_dev_dequeue_req_frame` does when a frame is complete: it retires the running jobs
-- up to that frame, in their order, and takes no buffer off a list on which it is not.
use mathlib.Core.List.{append-nil}
use native.Mathlib.Nat.{add-zero}
use mt8183_kukui_pmos.Prelude.{
  ℕ, zero, suc, ◌+◌, ◌-◌, ◌^◌, ◌<◌, ◌≡◌, refl, ◌∙◌, arith, true, List, [], ◌∷◌, ◌++◌, ◌==◌,
  if◌then◌else◌, Option, some, Option-cases, inl, inr, length, take, drop, length-take-drop,
}
use mt8183_kukui_pmos.Cam.State.{
  Cam, NodeMap, Req, Buf, BufRef, BufState, state_done, state_error, Event, kfree, set_at, ◌>>=◌,
}
use mt8183_kukui_pmos.Cam.Jobs.{del, dec32, retire, dequeue_loop, mtk_cam_dev_dequeue_req_frame}
use mt8183_kukui_pmos.Cam.Queueing.{Numbered, Jobs}
use mt8183_kukui_pmos.Cam.Completion.{
  job_events, job_refs, Tracked, without, without_total, mtk_cam_dev_job_done-without,
}

abbrev pub jobs_refs : List Req → List BufRef
jobs_refs [] = []
jobs_refs (r ∷ rs) = job_refs r ++ jobs_refs rs

abbrev freed : Req → List Event → List Event
freed r log = if r.synthetic then kfree r.id ∷ log else log

-- The events of the jobs that frame `n` retires: the job of that frame is done, an older one is an
-- error, and a request that the driver made is freed.
abbrev pub jobs_done : ℕ → (ℕ → ℕ) → List Req → List Event → List Event
jobs_done n ts_eof [] log = log
jobs_done n ts_eof (r ∷ rs) log = jobs_done n ts_eof rs (
    freed r (
      job_events r (if r.frame_seq_no == n then state_done else state_error) (ts_eof r.frame_seq_no)
        log))

-- The state when the jobs `gone` have been retired and `left` still run.
abbrev pub retired : ℕ → (ℕ → ℕ) → (gone left : List Req) → NodeMap (List Buf) → Cam → Cam
retired n ts_eof gone left lists c = record c {
  running_job_count = length left;
  running_job_list = left;
  buf_list = lists;
  log = jobs_done n ts_eof gone c.log;
}

retire-retired :
    (req : Req) (rest : List Req) (state : BufState) (ts_eof : ℕ) (c : Cam)
    (lists : NodeMap (List Buf))
    → c.streaming ≡ true
    → c.running_job_count ≡ suc (length rest)
    → length rest < 2 ^ 32 - 1
    → without c.buf_list (job_refs req) ≡ some lists
    → retire req rest state ts_eof c
      ≡ some (record c {
        running_job_count = length rest;
        running_job_list = rest;
        buf_list = lists;
        log = freed req (job_events req state ts_eof c.log);
      })
unfolding retire
retire-retired req rest state ts_eof c lists on count small h =
    let fewer : dec32 c.running_job_count ≡ length rest = omega arith in
    let d = record c { running_job_count = dec32 c.running_job_count } in
    rw (mtk_cam_dev_job_done-without req state ts_eof d lists on h, ◌>>=◌) (ground (arith, fewer))

without-append :
    (lists left : NodeMap (List Buf)) (xs ys : List BufRef)
    → without lists xs ≡ some left
    → without lists (xs ++ ys) ≡ without left ys
without-append lists left [] ys h = ground (arith, h)
without-append lists left (r ∷ xs) ys h = elim (Option-cases (del r.buf (lists r.node))) [
  | inl stuck ↦ absurd (ground arith)
  | inr (rest, d) ↦ rw (d, ◌>>=◌) (without-append (set_at r.node rest lists) left xs ys (rw d at h))
]

-- The result of retiring the first `k` of the jobs `rs`.
abbrev pub Retires : ℕ → (ℕ → ℕ) → ℕ → List Req → Cam → Option Cam → Type 0
Retires n ts_eof k rs c out =
    (lists : NodeMap (List Buf)) × (out ≡ some (retired n ts_eof (take k rs) (drop k rs) lists c))
    × (without c.buf_list (jobs_refs (take k rs)) ≡ some lists)
    × Tracked lists (jobs_refs (drop k rs))

dequeue_loop-Retires :
    (n first k : ℕ) (ts_eof : ℕ → ℕ) (rs : List Req) (c : Cam)
    → k ≡ n - first
    → Numbered first rs
    → c.streaming ≡ true
    → c.running_job_list ≡ rs
    → c.running_job_count ≡ length rs
    → length rs < 2 ^ 32
    → Tracked c.buf_list (jobs_refs rs)
    → Retires n ts_eof k rs c (dequeue_loop n ts_eof rs c)
unfolding dequeue_loop
dequeue_loop-Retires n first zero ts_eof [] c e num on same count small t =
    (c.buf_list, ground arith, refl, t)
dequeue_loop-Retires n first (suc k) ts_eof [] c e num on same count small t =
    (c.buf_list, ground arith, refl, t)
dequeue_loop-Retires n first zero ts_eof (r ∷ rs) c e num on same count small t =
    (c.buf_list, ground arith, refl, t)
dequeue_loop-Retires n first (suc zero) ts_eof (r ∷ rs) c e num on same count small t =
    let (lists, gone, kept) = without_total c.buf_list (job_refs r) (jobs_refs rs) t in
    let ret =
      retire-retired r rs state_done (ts_eof r.frame_seq_no) c lists on count (omega arith) gone in
    (lists, ground (arith, ret), rw (append-nil (job_refs r)) gone, kept)
dequeue_loop-Retires n first (suc (suc k)) ts_eof (r ∷ rs) c e num on same count small t =
    let (lists, gone, kept) = without_total c.buf_list (job_refs r) (jobs_refs rs) t in
    let ret =
      retire-retired r rs state_error (ts_eof r.frame_seq_no) c lists on count (omega arith) gone in
    let d = record c {
      running_job_count = length rs;
      running_job_list = rs;
      buf_list = lists;
      log = freed r (job_events r state_error (ts_eof r.frame_seq_no) c.log);
    } in
    let (final, loop, out, tracked) =
      dequeue_loop-Retires n (suc first) (suc k) ts_eof rs d (omega arith) num.1 on refl refl
        (omega arith) kept in
    (
      final,
      ground (arith, ret, loop),
      without-append c.buf_list lists (job_refs r) (jobs_refs (take (suc k) rs)) gone ∙ out,
      tracked,
    )

-- With the invariant, and each buffer of a running job on its node's list,
-- `mtk_cam_dev_dequeue_req_frame` on a streaming device does no undefined `list_del`. It retires
-- the running jobs with a number up to the frame's, `n - first` of them: the buffers of the job of
-- that frame go back as done, those of the older ones as errors, in the order of the frames; these
-- buffers and no others leave the lists; the requests that the driver made are freed; the count is
-- that of the jobs left, whose buffers are on their lists still; nothing else changes.
pub mtk_cam_dev_dequeue_req_frame-Retires :
    (c : Cam) (n : ℕ) (ts_eof : ℕ → ℕ) (j : Jobs c)
    → c.streaming ≡ true
    → Tracked c.buf_list (jobs_refs c.running_job_list)
    → Retires n ts_eof (n - j.first) c.running_job_list c (mtk_cam_dev_dequeue_req_frame n ts_eof c)
unfolding mtk_cam_dev_dequeue_req_frame
mtk_cam_dev_dequeue_req_frame-Retires c n ts_eof j on t =
    dequeue_loop-Retires n j.first (n - j.first) ts_eof c.running_job_list c refl j.numbered on refl
      j.counted (omega (arith, j.bounded)) t

Numbered-drop :
    (n k : ℕ) (rs : List Req) → Numbered n rs → Numbered (n + length (take k rs)) (drop k rs)
Numbered-drop n zero rs h = rw (add-zero) h
Numbered-drop n (suc k) [] h = tt
Numbered-drop n (suc k) (r ∷ rs) h =
    let next = Numbered-drop (suc n) k rs h.1 in
    let e : suc n + length (take k rs) ≡ n + suc (length (take k rs)) = omega arith in rw e at next

pub retired-Jobs :
    (c : Cam) (n k : ℕ) (ts_eof : ℕ → ℕ) (lists : NodeMap (List Buf))
    → Jobs c
    → Jobs (retired n ts_eof (take k c.running_job_list) (drop k c.running_job_list) lists c)
retired-Jobs c n k ts_eof lists j =
    let both = length-take-drop {0} k c.running_job_list in
    record {
      first = j.first + length (take k c.running_job_list);
      counted = refl;
      bounded = omega (arith, both, j.bounded);
      numbered = Numbered-drop j.first k c.running_job_list j.numbered;
      last = omega (arith, both, j.last);
    }
