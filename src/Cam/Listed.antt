-- ===== src/Cam/Listed.antt =====
-- The lists of buffers when camera/driver/cam/mtk_cam.c queues the buffers of a request.
use mt8183_kukui_pmos.Prelude.{
  ℕ, ◌≡◌, refl, ap, arith, true, false, ◌||◌, ◌==◌, Bool, Bool-cases, inl, inr, List, [], ◌∷◌, ◌++◌,
  All, suc, any, map, length, ◌∙◌,
}
use mt8183_kukui_pmos.Cam.State.{Cam, NodeMap, Buf, BufRef, Req, DmaBuffer, set_at, same_node}
use mt8183_kukui_pmos.Cam.Buffers.{buf_queue_request, track}
use mt8183_kukui_pmos.Cam.Completion.{
  Tracked, on_list, same_node→≡, object_refs, same_ref, job_refs,
}
use mt8183_kukui_pmos.Cam.Dequeue.{jobs_refs}
use mt8183_kukui_pmos.Cam.Session.{
  Queued, ref, refs, objects_of, queue_buffers, fill, hand_over, Apart,
}

-- A buffer on the list of its node.
abbrev pub IsListed : NodeMap (List Buf) → BufRef → Type 0
IsListed lists r = on_list r.buf (lists r.node) ≡ true

pub Tracked-IsListed :
    (lists : NodeMap (List Buf)) (rs : List BufRef) → Tracked lists rs → All (IsListed lists) rs
Tracked-IsListed lists [] t = tt
Tracked-IsListed lists (r ∷ rs) (listed, alone, t) = (listed, Tracked-IsListed lists rs t)

pub IsListed-Tracked :
    (lists : NodeMap (List Buf)) (rs : List BufRef)
    → All (IsListed lists) rs
    → Apart rs
    → Tracked lists rs
IsListed-Tracked lists [] all apart = tt
IsListed-Tracked lists (r ∷ rs) (listed, all) (alone, apart) =
    (listed, alone, IsListed-Tracked lists rs all apart)

on_list-append :
    (i : ℕ) (bs : List Buf) (b : Buf) → on_list i (bs ++ b ∷ []) ≡ (on_list i bs || (b.id == i))
on_list-append i [] b = elim (Bool-cases (b.id == i)) [ inl e ↦ rw e refl | inr e ↦ rw e refl ]
on_list-append i (x ∷ bs) b = elim (Bool-cases (x.id == i)) [
  | inl e ↦ rw e refl
  | inr e ↦ rw e (on_list-append i bs b)
]

-- The lists with a buffer queued.
abbrev with_buffer : Queued → NodeMap (List Buf) → NodeMap (List Buf)
with_buffer q lists = set_at q.node (lists q.node ++ q.buf ∷ []) lists

with_buffer-kept :
    (q : Queued) (lists : NodeMap (List Buf)) (r : BufRef)
    → IsListed lists r
    → IsListed (with_buffer q lists) r
with_buffer-kept q lists r listed = elim (Bool-cases (same_node q.node r.node)) [
  | inr e ↦ rw e listed
  | inl e ↦
      let own : on_list r.buf (lists q.node) ≡ true = rw (same_node→≡ q.node r.node e) listed in
      rw (e, on_list-append r.buf (lists q.node) q.buf, own) refl
]

with_buffer-own : (q : Queued) (lists : NodeMap (List Buf)) → IsListed (with_buffer q lists) (ref q)
with_buffer-own q lists =
    let same : same_node q.node q.node ≡ true = ground arith in
    let own : (q.buf.id == q.buf.id) ≡ true = ground arith in
    rw (same, on_list-append q.buf.id (lists q.node) q.buf, own)
      (or_true (on_list q.buf.id (lists q.node)))
  where
    or_true : (b : Bool) → (b || true) ≡ true
    or_true true = refl
    or_true false = refl

abbrev pub with_buffers : List Queued → NodeMap (List Buf) → NodeMap (List Buf)
with_buffers [] lists = lists
with_buffers (q ∷ qs) lists = with_buffers qs (with_buffer q lists)

with_buffers-kept :
    (qs : List Queued) (lists : NodeMap (List Buf)) (r : BufRef)
    → IsListed lists r
    → IsListed (with_buffers qs lists) r
with_buffers-kept [] lists r h = h
with_buffers-kept (q ∷ qs) lists r h =
    with_buffers-kept qs (with_buffer q lists) r (with_buffer-kept q lists r h)

with_buffers-own :
    (qs : List Queued) (lists : NodeMap (List Buf))
    → All (IsListed (with_buffers qs lists)) (refs qs)
with_buffers-own [] lists = tt
with_buffers-own (q ∷ qs) lists = (
  with_buffers-kept qs (with_buffer q lists) (ref q) (with_buffer-own q lists),
  with_buffers-own qs (with_buffer q lists),
)

pub with_buffers-IsListed :
    (qs : List Queued) (lists : NodeMap (List Buf)) (rs : List BufRef)
    → All (IsListed lists) rs
    → All (IsListed (with_buffers qs lists)) (rs ++ refs qs)
with_buffers-IsListed qs lists [] all = with_buffers-own qs lists
with_buffers-IsListed qs lists (r ∷ rs) (h, all) =
    (with_buffers-kept qs lists r h, with_buffers-IsListed qs lists rs all)

-- The buffers of a request whose queues stream change its addresses and the lists, and nothing else.
pub queue_buffers_lem :
    (started : NodeMap Bool) (qs : List Queued) (req : Req) (c : Cam)
    → All (λ q. started q.node ≡ true) qs
    → (dma : NodeMap DmaBuffer) × (queue_buffers started qs req c
        ≡ (record req { dma_bufs = dma }, record c { buf_list = with_buffers qs c.buf_list }))
unfolding queue_buffers buf_queue_request
queue_buffers_lem started [] req c all = (req.dma_bufs, refl)
queue_buffers_lem started (q ∷ qs) req c (streams, all) =
    let (filled, d) = buf_queue_request q.node q.buf req c in
    let (dma, e) = queue_buffers_lem started qs filled d all in (dma, rw streams e)

pub queue_buffers_kept :
    (qs : List Queued) (req : Req) (c : Cam) → queue_buffers (λ n. false) qs req c ≡ (req, c)
unfolding queue_buffers
queue_buffers_kept [] req c = refl
queue_buffers_kept (q ∷ qs) req c = queue_buffers_kept qs req c

-- Filling a request in leaves its buffers.
fill-jobs_refs :
    (q : Queued) (c : Cam) (rs : List Req)
    → (jobs_refs (map (fill q c) rs) ≡ jobs_refs rs) × (length (map (fill q c) rs) ≡ length rs)
unfolding buf_queue_request
fill-jobs_refs q c [] = (refl, refl)
fill-jobs_refs q c (r ∷ rs) =
    let (same, size) = fill-jobs_refs q c rs in
    elim (Bool-cases (any (same_ref (ref q)) (object_refs r.objects))) [
      | inl own ↦ rw own (ap (λ xs. job_refs r ++ xs) same, ap suc size)
      | inr other ↦ rw other (ap (λ xs. job_refs r ++ xs) same, ap suc size)
    ]

-- The buffers that are handed over change the lists and the addresses in the pending requests.
pub hand_over_lem :
    (qs : List Queued) (c : Cam)
    → (ps : List Req) × (hand_over qs c
        ≡ record c { buf_list = with_buffers qs c.buf_list; pending_job_list = ps })
      × (jobs_refs ps ≡ jobs_refs c.pending_job_list)
      × (length ps ≡ length c.pending_job_list)
unfolding hand_over
hand_over_lem [] c = (c.pending_job_list, refl, refl, refl)
hand_over_lem (q ∷ qs) c =
    let (same, size) = fill-jobs_refs q c c.pending_job_list in
    let (ps, e, same1, size1) = hand_over_lem qs (record c {
      buf_list = (track q.node q.buf c).buf_list;
      pending_job_list = map (fill q c) c.pending_job_list;
    }) in
    (ps, e, same1 ∙ same, size1 ∙ size)

pub with_buffers-append :
    (qs ks : List Queued) (lists : NodeMap (List Buf))
    → with_buffers (qs ++ ks) lists ≡ with_buffers ks (with_buffers qs lists)
with_buffers-append [] ks lists = refl
with_buffers-append (q ∷ qs) ks lists = with_buffers-append qs ks (with_buffer q lists)

pub object_refs-objects_of : (qs : List Queued) → object_refs (objects_of qs) ≡ refs qs
object_refs-objects_of [] = refl
object_refs-objects_of (q ∷ qs) = ap (λ rs. ref q ∷ rs) (object_refs-objects_of qs)

pub All-append :
    (P : BufRef → Type 0) (xs ys : List BufRef) → All P xs → All P ys → All P (xs ++ ys)
All-append P [] ys all own = own
All-append P (x ∷ xs) ys (p, all) own = (p, All-append P xs ys all own)
