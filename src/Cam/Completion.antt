-- ===== src/Cam/Completion.antt =====
-- Giving the buffers of a job back: what `mtk_cam_dev_job_done` reports, and that it takes no
-- buffer off a list on which it is not.
use mt8183_kukui_pmos.Prelude.{
  ℕ, ◌≡◌, refl, ◌∙◌, arith, Bool, true, false, List, [], ◌∷◌, ◌++◌, ◌==◌, if◌then◌else◌, any,
  Option, none, some, Bool-cases, Option-cases, inl, inr,
}
use mt8183_kukui_pmos.Uapi.{type_is_output}
use mt8183_kukui_pmos.Format.Nodes.{NodeId, node_desc}
use mt8183_kukui_pmos.Cam.State.{
  Cam, NodeMap, Req, Buf, BufRef, ReqObject, buffer, other_object, BufState, Event, buffer_done,
  ◌>>=◌, set_at, same_node,
}
use mt8183_kukui_pmos.Cam.Jobs.{del, complete, complete_objects, mtk_cam_dev_job_done}

-- The event of one buffer of a job.
abbrev pub object_done : Req → BufState → ℕ → BufRef → Event
object_done req state ts_eof ref = buffer_done ref state (
    some (
      req.frame_seq_no,
      if type_is_output (node_desc ref.node).buf_type then ts_eof else req.timestamp,
    ))

-- The events of the objects of a request, in front of the earlier ones.
abbrev pub objects_done : Req → BufState → ℕ → List ReqObject → List Event → List Event
objects_done req state ts_eof [] log = log
objects_done req state ts_eof (other_object ∷ os) log = objects_done req state ts_eof os log
objects_done req state ts_eof (buffer ref ∷ os) log =
    objects_done req state ts_eof os (object_done req state ts_eof ref ∷ log)

-- The events of a job: of its one buffer if the driver made the request, else of its objects.
abbrev pub job_events : Req → BufState → ℕ → List Event → List Event
job_events req state ts_eof log = elim req.synthetic [
  | false ↦ objects_done req state ts_eof req.objects log
  | true ↦ elim req.sbuf [
    | none ↦ log
    | some ref ↦ buffer_done ref state (some (req.frame_seq_no, req.timestamp)) ∷ log
  ]
]

-- The buffers that a job holds.
abbrev pub object_refs : List ReqObject → List BufRef
object_refs [] = []
object_refs (other_object ∷ os) = object_refs os
object_refs (buffer ref ∷ os) = ref ∷ object_refs os

abbrev pub job_refs : Req → List BufRef
job_refs req = elim req.synthetic [
  | false ↦ object_refs req.objects
  | true ↦ elim req.sbuf [ none ↦ [] | some ref ↦ ref ∷ [] ]
]

abbrev pub on_list : ℕ → List Buf → Bool
on_list i bs = any (λ b. b.id == i) bs

abbrev pub same_ref : BufRef → BufRef → Bool
same_ref r s = elim (same_node r.node s.node) [ false ↦ false | true ↦ r.buf == s.buf ]

-- Each of the buffers is on the list of its node, and no two are the same.
abbrev pub Tracked : NodeMap (List Buf) → List BufRef → Type 0
Tracked lists [] = Unit {0}
Tracked lists (r ∷ rs) =
    (on_list r.buf (lists r.node) ≡ true) × (any (same_ref r) rs ≡ false) × Tracked lists rs

-- The lists without the buffers, one after another.
abbrev pub without : NodeMap (List Buf) → List BufRef → Option (NodeMap (List Buf))
without lists [] = some lists
without lists (r ∷ rs) = del r.buf (lists r.node) >>= λ rest. without (set_at r.node rest lists) rs

del_total :
    (i : ℕ) (bs : List Buf) → on_list i bs ≡ true → (rest : List Buf) × (del i bs ≡ some rest)
unfolding del
del_total i [] h = absurd (cc)
del_total i (b ∷ bs) h = elim (Bool-cases (b.id == i)) [
  | inl e ↦ (bs, ground arith)
  | inr e ↦ let (rest, d) = del_total i bs (ground arith) in (b ∷ rest, ground (arith, d))
]

on_list-del :
    (i j : ℕ) (bs rest : List Buf)
    → del i bs ≡ some rest
    → (i == j) ≡ false
    → on_list j rest ≡ on_list j bs
unfolding del
on_list-del i j [] rest h ne = absurd (cc)
on_list-del i j (b ∷ bs) rest h ne = elim (Bool-cases (b.id == i)) [
  | inl e ↦ ground arith
  | inr e ↦ elim (Option-cases (del i bs)) [
    | inl stuck ↦ absurd (ground arith)
    | inr (r, d) ↦ ground (arith, on_list-del i j bs r d ne)
  ]
]

pub same_node→≡ : (m n : NodeId) → same_node m n ≡ true → m ≡ n
same_node→≡ m n h = ground arith

Tracked-del :
    (lists : NodeMap (List Buf)) (r : BufRef) (rest : List Buf) (rs : List BufRef)
    → del r.buf (lists r.node) ≡ some rest
    → any (same_ref r) rs ≡ false
    → Tracked lists rs
    → Tracked (set_at r.node rest lists) rs
Tracked-del lists r rest [] d apart t = tt
Tracked-del lists r rest (s ∷ rs) d apart (here, alone, t) = (
  elim (Bool-cases (same_node r.node s.node)) [
    | inr e ↦ rw e here
    | inl e ↦
        let at_r : on_list s.buf (lists r.node) ≡ true = rw (same_node→≡ r.node s.node e) here in
        rw e (on_list-del r.buf s.buf (lists r.node) rest d (ground (arith, apart, e)) ∙ at_r)
  ],
  alone,
  Tracked-del lists r rest rs d (ground (arith, apart)) t,
)

-- The buffers of one job can be taken off, and those of the others stay tracked.
pub without_total :
    (lists : NodeMap (List Buf)) (xs ys : List BufRef)
    → Tracked lists (xs ++ ys)
    → (left : NodeMap (List Buf)) × (without lists xs ≡ some left) × Tracked left ys
without_total lists [] ys t = (lists, refl, t)
without_total lists (r ∷ xs) ys (here, alone, t) =
    let (rest, d) = del_total r.buf (lists r.node) here in
    let (left, gone, kept) =
      without_total (set_at r.node rest lists) xs ys
        (Tracked-del lists r rest (xs ++ ys) d alone t) in
    (left, rw (d, ◌>>=◌) gone, kept)

complete_objects-without :
    (req : Req) (state : BufState) (ts_eof : ℕ) (os : List ReqObject) (c : Cam)
    (left : NodeMap (List Buf))
    → without c.buf_list (object_refs os) ≡ some left
    → complete_objects req state ts_eof os c
      ≡ some (record c { buf_list = left; log = objects_done req state ts_eof os c.log })
unfolding complete_objects
complete_objects-without req state ts_eof [] c left h = ground arith
complete_objects-without req state ts_eof (other_object ∷ os) c left h =
    complete_objects-without req state ts_eof os c left h
complete_objects-without req state ts_eof (buffer ref ∷ os) c left h =
    elim (Option-cases (del ref.buf (c.buf_list ref.node))) [
      | inl stuck ↦ absurd (ground arith)
      | inr (rest, d) ↦
          rw (d, complete)
            (complete_objects-without req state ts_eof os
              (record c {
                buf_list = set_at ref.node rest c.buf_list;
                log = object_done req state ts_eof ref ∷ c.log;
              })
              left (rw d at h))
    ]

-- On a streaming device a job whose buffers can be taken off their lists gives back exactly those,
-- with its number and its state, and nothing else changes.
pub mtk_cam_dev_job_done-without :
    (req : Req) (state : BufState) (ts_eof : ℕ) (c : Cam) (left : NodeMap (List Buf))
    → c.streaming ≡ true
    → without c.buf_list (job_refs req) ≡ some left
    → mtk_cam_dev_job_done req state ts_eof c
      ≡ some (record c { buf_list = left; log = job_events req state ts_eof c.log })
unfolding mtk_cam_dev_job_done
mtk_cam_dev_job_done-without req state ts_eof c left on h =
    ground (arith, complete_objects-without req state ts_eof req.objects c left)
