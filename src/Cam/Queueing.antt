-- ===== src/Cam/Queueing.antt =====
-- What `mtk_cam_dev_req_try_queue` does, in closed form: it starts as many pending jobs as there
-- are free slots, in their order, and numbers them on from the last frame.
use mathlib.Core.Path.{subst}
use mathlib.Core.List.{append-nil, append_assoc}
use mt8183_kukui_pmos.Prelude.{
  ℕ, zero, suc, ◌+◌, ◌-◌, ◌^◌, ◌≤◌, ◌<◌, ◌≡◌, refl, sym, ap, arith, true, false, List, [], ◌∷◌,
  ◌++◌, length, take, drop, u32, length-append, length-take-le, length-take_or_drop, ◌⊎◌, inl, inr,
  Bool-cases,
}
use mt8183_kukui_pmos.Cam.State.{Cam, Req}
use mt8183_kukui_pmos.Cam.Jobs.{max_running_jobs, start_job, queue_loop, mtk_cam_dev_req_try_queue}

-- Requests with the frame numbers after `n`.
abbrev pub number : ℕ → List Req → List Req
number n [] = []
number n (r ∷ rs) = record r { frame_seq_no = suc n } ∷ number (suc n) rs

-- The state after the first jobs of the pending ones, `ps`, have started, as many as `free`.
abbrev pub started : ℕ → List Req → Cam → Cam
started free ps c =
    let new = number c.p1.enqueued_frame_seq_no (take free ps) in
    record c {
      running_job_count = c.running_job_count + length (take free ps);
      pending_job_list = drop free ps;
      running_job_list = c.running_job_list ++ new;
      p1 = record (c.p1) {
        enqueued_frame_seq_no = c.p1.enqueued_frame_seq_no + length (take free ps);
      };
      works = c.works ++ new;
    }

started-none : (ps : List Req) (c : Cam) → c.pending_job_list ≡ ps → c ≡ started 0 ps c
started-none ps c e = ground (arith, append-nil c.running_job_list, append-nil c.works)

started-start_job :
    (p : Req) (ps : List Req) (free : ℕ) (c : Cam)
    → c.running_job_count < max_running_jobs
    → c.p1.enqueued_frame_seq_no + 1 < 2 ^ 32
    → started free ps (start_job p ps c) ≡ started (suc free) (p ∷ ps) c
unfolding start_job
started-start_job p ps free c h w =
    let n : u32 (c.p1.enqueued_frame_seq_no + 1) ≡ suc c.p1.enqueued_frame_seq_no = omega arith in
    let k : u32 (c.running_job_count + 1) ≡ suc c.running_job_count = omega arith in
    let first = record p { frame_seq_no = suc c.p1.enqueued_frame_seq_no } in
    let rest = number (suc c.p1.enqueued_frame_seq_no) (take free ps) in
    rw (n, k)
      (ground (
        arith,
        append_assoc c.running_job_list (first ∷ []) rest,
        append_assoc c.works (first ∷ []) rest,
      ))

start_job_fields :
    (p : Req) (ps : List Req) (c : Cam)
    → c.running_job_count < max_running_jobs
    → c.p1.enqueued_frame_seq_no + 1 < 2 ^ 32
    → ((start_job p ps c).pending_job_list ≡ ps)
      × ((start_job p ps c).running_job_count ≡ c.running_job_count + 1)
      × ((start_job p ps c).p1.enqueued_frame_seq_no ≡ c.p1.enqueued_frame_seq_no + 1)
unfolding start_job
start_job_fields p ps c h w = (refl, omega arith, omega arith)

queue_loop-started :
    (ps : List Req) (free : ℕ) (c : Cam)
    → c.pending_job_list ≡ ps
    → c.running_job_count + free ≡ max_running_jobs
    → c.p1.enqueued_frame_seq_no + length ps < 2 ^ 32
    → queue_loop ps c ≡ started free ps c
unfolding queue_loop
queue_loop-started [] zero c e h w = started-none [] c e
queue_loop-started [] (suc free) c e h w = started-none [] c e
queue_loop-started (p ∷ ps) zero c e h w = ground (arith, started-none (p ∷ ps) c)
queue_loop-started (p ∷ ps) (suc free) c e h w = ground (
  arith,
  queue_loop-started ps free (start_job p ps c),
  started-start_job p ps free c,
  start_job_fields p ps c,
)

-- The frame numbers of the jobs follow on from `n`.
abbrev pub Numbered : ℕ → List Req → Type 0
Numbered n [] = Unit {0}
Numbered n (r ∷ rs) = (r.frame_seq_no ≡ suc n) × Numbered (suc n) rs

-- What holds of the jobs between two operations: the count is right, at most three jobs run, and
-- the running jobs are the last frames that were numbered, in order and with no gap.
pub record Jobs (c : Cam) : Type 0 where
  pub first : ℕ
  pub counted : c.running_job_count ≡ length c.running_job_list
  pub bounded : length c.running_job_list ≤ max_running_jobs
  pub numbered : Numbered first c.running_job_list
  pub last : c.p1.enqueued_frame_seq_no ≡ first + length c.running_job_list

Numbered-number : (n : ℕ) (rs : List Req) → Numbered n (number n rs)
Numbered-number n [] = tt
Numbered-number n (r ∷ rs) = (refl, Numbered-number (suc n) rs)

length-number : (n : ℕ) (rs : List Req) → length (number n rs) ≡ length rs
length-number n [] = refl
length-number n (r ∷ rs) = ap suc (length-number (suc n) rs)

Numbered-append :
    (n m : ℕ) (xs ys : List Req)
    → m ≡ n + length xs
    → Numbered n xs
    → Numbered m ys
    → Numbered n (xs ++ ys)
Numbered-append n m [] ys e h k = let same : m ≡ n = omega arith in rw same at k
Numbered-append n m (x ∷ xs) ys e h k = (h.0, Numbered-append (suc n) m xs ys (omega arith) h.1 k)

-- With the invariant and no overflow of the frame numbers, `mtk_cam_dev_req_try_queue` on a
-- streaming device starts the first pending jobs, as many as there are slots free of the three:
-- it numbers them on from the last frame, puts them behind the running jobs and behind the
-- composer's works in their order, adds them to the count, and changes nothing else.
pub mtk_cam_dev_req_try_queue-started :
    (c : Cam)
    → Jobs c
    → c.streaming ≡ true
    → c.p1.enqueued_frame_seq_no + length c.pending_job_list < 2 ^ 32
    → mtk_cam_dev_req_try_queue c
      ≡ started (max_running_jobs - length c.running_job_list) c.pending_job_list c
unfolding mtk_cam_dev_req_try_queue
mtk_cam_dev_req_try_queue-started c j s w = ground (
  arith,
  queue_loop-started c.pending_job_list (max_running_jobs - length c.running_job_list) c refl,
)

pub started-Jobs :
    (c : Cam)
    → Jobs c
    → Jobs (started (max_running_jobs - length c.running_job_list) c.pending_job_list c)
started-Jobs c j =
    let free = max_running_jobs - length c.running_job_list in
    let new = take free c.pending_job_list in
    let n = c.p1.enqueued_frame_seq_no in
    let all : length (c.running_job_list ++ number n new) ≡ length c.running_job_list + length new =
      omega (arith, length-append {0} c.running_job_list (number n new), length-number n new) in
    record {
      first = j.first;
      counted = omega (arith, all, j.counted);
      bounded = omega (arith, all, length-take-le {0} free c.pending_job_list, j.bounded);
      numbered =
          Numbered-append j.first n c.running_job_list (number n new) j.last j.numbered
            (Numbered-number n new);
      last = omega (arith, all, j.last);
    }

try_queue_off : (c : Cam) → c.streaming ≡ false → mtk_cam_dev_req_try_queue c ≡ c
unfolding mtk_cam_dev_req_try_queue
try_queue_off c off = ground arith

filled :
    (c : Cam)
    → Jobs c
    → let d = started (max_running_jobs - length c.running_job_list) c.pending_job_list c in
      (length d.running_job_list ≡ max_running_jobs) ⊎ (d.pending_job_list ≡ [])
filled c j =
    let free = max_running_jobs - length c.running_job_list in
    let n = c.p1.enqueued_frame_seq_no in
    let new = number n (take free c.pending_job_list) in
    elim (length-take_or_drop {0} free c.pending_job_list) [
      | inl full ↦ inl (
          omega (
            arith,
            full,
            j.bounded,
            length-append {0} c.running_job_list new,
            length-number n (take free c.pending_job_list),
          ))
      | inr done ↦ inr done
    ]

-- What the next theorem says of a state.
abbrev Kept : Cam → Cam → Type 0
Kept c d =
    Jobs d
    × ((c.streaming ≡ false)
        ⊎ ((length d.running_job_list ≡ max_running_jobs) ⊎ (d.pending_job_list ≡ [])))

-- Where the frame numbers of the pending jobs do not overflow, `mtk_cam_dev_req_try_queue` keeps the
-- invariant, streaming or not, and on a streaming device it leaves no slot free while a job is pending.
pub mtk_cam_dev_req_try_queue-Jobs :
    (c : Cam)
    → Jobs c
    → c.p1.enqueued_frame_seq_no + length c.pending_job_list < 2 ^ 32
    → let d = mtk_cam_dev_req_try_queue c in
      Jobs d
      × ((c.streaming ≡ false)
          ⊎ ((length d.running_job_list ≡ max_running_jobs) ⊎ (d.pending_job_list ≡ [])))
mtk_cam_dev_req_try_queue-Jobs c j w = elim (Bool-cases c.streaming) [
  | inr off ↦ subst (Kept c) (sym (try_queue_off c off)) (j, inl off)
  | inl on ↦
      subst (Kept c) (sym (mtk_cam_dev_req_try_queue-started c j on w))
        (started-Jobs c j, inr (filled c j))
]
