-- ===== src/Cam/Capturing.antt =====
-- The state of a device that captures, for the interrupt of camera/driver/cam/mtk_cam-hw.c: the
-- invariant of the jobs, and each buffer of a job on its node's list.
use mathlib.Core.Path.{subst}
use mathlib.Core.List.{append_assoc}
use mt8183_kukui_pmos.Prelude.{
  ℕ, zero, suc, ◌+◌, ◌^◌, ◌<◌, ◌≡◌, refl, sym, ap, arith, Bool, true, false, ◌||◌, ◌&&◌, List, [],
  ◌∷◌, ◌++◌, ◌==◌, length, take, drop, All, any, Bool-cases, inl, inr,
}
use mt8183_kukui_pmos.Format.Nodes.{NodeId}
use mt8183_kukui_pmos.Cam.State.{Cam, NodeMap, Buf, BufRef, Req, Event, set_at, same_node}
use mt8183_kukui_pmos.Cam.Jobs.{stamp_req}
use mt8183_kukui_pmos.Cam.Buffers.{MetaNode, meta_node, mtk_cam_dev_dequeue_frame}
use mt8183_kukui_pmos.Cam.Queueing.{Numbered, Jobs, number}
use mt8183_kukui_pmos.Cam.Completion.{Tracked, job_refs, same_ref}
use mt8183_kukui_pmos.Cam.Returned.{
  last_returned, passed, waiting, meta_events, mtk_cam_dev_dequeue_frame-passed,
}
use mt8183_kukui_pmos.Cam.Dequeue.{jobs_refs}

-- The buffer is not one of the two nodes whose buffers `mtk_cam_dev_dequeue_frame` gives back.
abbrev pub NotMeta : BufRef → Type 0
NotMeta r = (m : MetaNode) → same_node (meta_node m) r.node ≡ false

-- What an interrupt needs of the state, beside the invariant of the jobs: each buffer that a job
-- holds, running or pending, is on its node's list, is held once, and is of no meta node, and the
-- frame numbers do not wrap for the pending jobs.
pub record Capturing (c : Cam) : Type 0 where
  pub jobs : Jobs c
  pub streaming : c.streaming ≡ true
  pub tracked : Tracked c.buf_list (jobs_refs (c.running_job_list ++ c.pending_job_list))
  pub no_meta : All NotMeta (jobs_refs (c.running_job_list ++ c.pending_job_list))
  pub room : c.p1.enqueued_frame_seq_no + length c.pending_job_list < 2 ^ 32

-- Lists that agree but on the two meta nodes.
abbrev Agree : NodeMap (List Buf) → NodeMap (List Buf) → Type 0
Agree xs ys = (n : NodeId) → ((m : MetaNode) → same_node (meta_node m) n ≡ false) → xs n ≡ ys n

Tracked-Agree :
    (xs ys : NodeMap (List Buf)) (rs : List BufRef)
    → Agree xs ys
    → All NotMeta rs
    → Tracked xs rs
    → Tracked ys rs
Tracked-Agree xs ys [] same far t = tt
Tracked-Agree xs ys (r ∷ rs) same far (here, alone, t) =
    (rw (same r.node far.0) at here, alone, Tracked-Agree xs ys rs same far.1 t)

-- A state that differs in its meta buffers and its log only.
abbrev pub MetaOnly : Cam → Cam → Type 0
MetaOnly c d =
    (lists : NodeMap (List Buf)) × (log : List Event) × (d
      ≡ record c { buf_list = lists; log = log })
    × Agree c.buf_list lists

pub dequeue_frame-MetaOnly :
    (m : MetaNode) (fbc now frame seq_no : ℕ) (c : Cam)
    → MetaOnly c (mtk_cam_dev_dequeue_frame m fbc now frame seq_no c)
unfolding mtk_cam_dev_dequeue_frame
dequeue_frame-MetaOnly m fbc now frame seq_no c =
    let last = last_returned m fbc seq_no c in
    let bs = c.buf_list (meta_node m) in
    elim (Bool-cases (c.enabled (meta_node m) && c.streaming)) [
      | inl on ↦ (
        set_at (meta_node m) (waiting last bs) c.buf_list,
        meta_events frame now (meta_node m) (passed last bs) c.log,
        mtk_cam_dev_dequeue_frame-passed m fbc now frame seq_no c (ground arith) (ground arith),
        λ n far. rw (far m),
      )
      | inr off ↦ (c.buf_list, c.log, ground arith, λ n far. refl)
    ]

pub Capturing-MetaOnly : (c d : Cam) → Capturing c → MetaOnly c d → Capturing d
Capturing-MetaOnly c d k (lists, log, e, same) = subst Capturing (sym e) (record {
  jobs = record {
    first = k.jobs.first;
    counted = k.jobs.counted;
    bounded = k.jobs.bounded;
    numbered = k.jobs.numbered;
    last = k.jobs.last;
  };
  streaming = k.streaming;
  tracked =
      Tracked-Agree c.buf_list lists (jobs_refs (c.running_job_list ++ c.pending_job_list)) same
        k.no_meta k.tracked;
  no_meta = k.no_meta;
  room = k.room;
})

pub jobs_refs-append : (xs ys : List Req) → jobs_refs (xs ++ ys) ≡ jobs_refs xs ++ jobs_refs ys
jobs_refs-append [] ys = refl
jobs_refs-append (x ∷ xs) ys =
    ground (arith, jobs_refs-append xs ys, append_assoc (job_refs x) (jobs_refs xs) (jobs_refs ys))

pub take-append-drop : (n : ℕ) (xs : List Req) → take n xs ++ drop n xs ≡ xs
take-append-drop zero xs = refl
take-append-drop (suc n) [] = refl
take-append-drop (suc n) (x ∷ xs) = ap (x ∷◌) (take-append-drop n xs)

pub All-append-right : (P : BufRef → Type 0) (xs ys : List BufRef) → All P (xs ++ ys) → All P ys
All-append-right P [] ys h = h
All-append-right P (x ∷ xs) ys h = All-append-right P xs ys h.1

jobs_refs-number : (n : ℕ) (rs : List Req) → jobs_refs (number n rs) ≡ jobs_refs rs
jobs_refs-number n [] = refl
jobs_refs-number n (r ∷ rs) = ap (λ t. job_refs r ++ t) (jobs_refs-number (suc n) rs)

pub jobs_refs-stamp_req :
    (n now : ℕ) (rs : List Req) → jobs_refs (stamp_req n now rs) ≡ jobs_refs rs
unfolding stamp_req
jobs_refs-stamp_req n now [] = refl
jobs_refs-stamp_req n now (r ∷ rs) = elim (Bool-cases (r.frame_seq_no == n)) [
  | inl e ↦ rw e
  | inr e ↦ rw e (ap (λ t. job_refs r ++ t) (jobs_refs-stamp_req n now rs))
]

pub length-stamp_req : (n now : ℕ) (rs : List Req) → length (stamp_req n now rs) ≡ length rs
unfolding stamp_req
length-stamp_req n now [] = refl
length-stamp_req n now (r ∷ rs) = ground (arith, length-stamp_req n now rs)

pub Numbered-stamp_req :
    (first n now : ℕ) (rs : List Req) → Numbered first rs → Numbered first (stamp_req n now rs)
unfolding stamp_req
Numbered-stamp_req first n now [] h = tt
Numbered-stamp_req first n now (r ∷ rs) h = elim (Bool-cases (r.frame_seq_no == n)) [
  | inl e ↦ rw e h
  | inr e ↦ rw e (h.0, Numbered-stamp_req (suc first) n now rs h.1)
]

pub jobs_refs-number-split :
    (xs ps : List Req) (free n : ℕ)
    → jobs_refs ((xs ++ number n (take free ps)) ++ drop free ps) ≡ jobs_refs (xs ++ ps)
jobs_refs-number-split xs ps free n =
    let new = number n (take free ps) in
    cc (
      append_assoc xs new (drop free ps),
      jobs_refs-append xs (new ++ drop free ps),
      jobs_refs-append new (drop free ps),
      jobs_refs-number n (take free ps),
      jobs_refs-append (take free ps) (drop free ps),
      take-append-drop free ps,
      jobs_refs-append xs ps,
    )

any-append : (p : BufRef → Bool) (xs ys : List BufRef) → any p (xs ++ ys) ≡ (any p xs || any p ys)
any-append p [] ys = refl
any-append p (x ∷ xs) ys = ground (arith, any-append p xs ys)

pub Tracked-append-left :
    (lists : NodeMap (List Buf)) (xs ys : List BufRef) → Tracked lists (xs ++ ys) → Tracked lists xs
Tracked-append-left lists [] ys t = tt
Tracked-append-left lists (r ∷ xs) ys (here, alone, t) =
    (here, ground (arith, any-append (same_ref r) xs ys, alone), Tracked-append-left lists xs ys t)
