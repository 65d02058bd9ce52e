-- ===== src/Cam/Session.antt =====
-- camera/driver/cam/mtk_cam.c: requests that are queued, and the steps of a session of frames that are
-- captured by requests. What the queues of videobuf2 do is by its documentation.
use mt8183_kukui_pmos.Prelude.{
  ℕ, Bool, if◌then◌else◌, map, ◌^◌, ◌+◌, ◌<◌, ◌≡◌, true, false, List, [], ◌∷◌, ◌++◌, some, none,
  length, All, any,
}
use mt8183_kukui_pmos.Format.Nodes.{NodeId}
use mt8183_kukui_pmos.Cam.State.{Cam, NodeMap, same_node, Buf, BufRef, Req, ReqObject, buffer}
use mt8183_kukui_pmos.Cam.Jobs.{add_pending, mtk_cam_dev_req_try_queue, isp_tx_frame_worker}
use mt8183_kukui_pmos.Cam.Buffers.{buf_queue_request, track}
use mt8183_kukui_pmos.Cam.Irq.{Inputs, isp_irq_cam, isp_composer_handler}
use mt8183_kukui_pmos.Cam.Stream.{Answers, mtk_cam_vb2_start_streaming, mtk_cam_vb2_stop_streaming}
use mt8183_kukui_pmos.Cam.Completion.{same_ref, object_refs}
use mt8183_kukui_pmos.Cam.Dequeue.{jobs_refs}
use mt8183_kukui_pmos.Cam.Capturing.{NotMeta}

-- A buffer of a request, with its node.
pub record Queued : Type 0 where
  pub node : NodeId
  pub buf : Buf

abbrev pub ref : Queued → BufRef
ref q = record { node = q.node; buf = q.buf.id }

abbrev pub refs : List Queued → List BufRef
refs [] = []
refs (q ∷ qs) = ref q ∷ refs qs

-- The objects of a request whose buffers they are.
abbrev pub objects_of : List Queued → List ReqObject
objects_of [] = []
objects_of (q ∷ qs) = buffer (ref q) ∷ objects_of qs

-- `vb2_request_queue`: it calls `mtk_cam_vb2_buf_queue` for each buffer of the request whose queue has
-- started to stream, and keeps the others back until it has.
unfoldable pub queue_buffers : NodeMap Bool → List Queued → Req → Cam → Req × Cam
queue_buffers started [] req c = (req, c)
queue_buffers started (q ∷ qs) req c =
    let (filled, d) = if started q.node then buf_queue_request q.node q.buf req c else (req, c) in
    queue_buffers started qs filled d

unfoldable pub mtk_cam_req_queue : NodeMap Bool → List Queued → Req → Cam → Cam
mtk_cam_req_queue started qs req c =
    let (filled, d) = queue_buffers started qs req c in
    mtk_cam_dev_req_try_queue (add_pending filled d)

-- What `mtk_cam_vb2_buf_queue` writes into the request that the buffer is of.
abbrev pub fill : Queued → Cam → Req → Req
fill q c req =
    if any (same_ref (ref q)) (object_refs req.objects)
    then (buf_queue_request q.node q.buf req c).0
    else req

-- The streaming of a queue begins: it calls `mtk_cam_vb2_buf_queue` for each buffer that it has kept
-- back, whose request is one of the pending ones; then it calls `mtk_cam_vb2_start_streaming`.
unfoldable pub hand_over : List Queued → Cam → Cam
hand_over [] c = c
hand_over (q ∷ qs) c = hand_over qs (record c {
  buf_list = (track q.node q.buf c).buf_list;
  pending_job_list = map (fill q c) c.pending_job_list;
})

-- No two buffers are the same.
abbrev pub Apart : List BufRef → Type 0
Apart [] = Unit
Apart (r ∷ rs) = (any (same_ref r) rs ≡ false) × Apart rs

-- What the kernel grants of a request that user space queues: its objects are its buffers, none of
-- which is in the queue already; the model adds that they are of no meta node, and that the frame
-- numbers do not wrap.
pub record IsNew (qs : List Queued) (req : Req) (c : Cam) : Type 0 where
  pub own : req.synthetic ≡ false
  pub objects : req.objects ≡ objects_of qs
  pub apart : Apart (jobs_refs (c.running_job_list ++ c.pending_job_list) ++ refs qs)
  pub no_meta : All NotMeta (refs qs)
  pub room : c.p1.enqueued_frame_seq_no + (length c.pending_job_list + 1) < 2 ^ 32

-- A buffer of the node.
abbrev pub IsOf : NodeId → Queued → Type 0
IsOf node q = same_node node q.node ≡ true

-- A step of a session of one node: a request is queued whose buffers are of that node, the composer's
-- worker sends a frame, the composer answers, the hardware interrupts.
pub data Step : NodeId → Cam → Cam → Type 0 where
  queue_request :
      (node : NodeId) (qs : List Queued) (req : Req) (c : Cam)
      → All (IsOf node) qs
      → IsNew qs req c
      → Step node c (mtk_cam_req_queue (same_node node) qs req c)
  send_frame : (node : NodeId) (c : Cam) → Step node c (isp_tx_frame_worker c)
  composer_answer :
      (node : NodeId) (len cmd_id ack_cmd_id frame_seq_no : ℕ) (c : Cam)
      → Step node c (isp_composer_handler len cmd_id ack_cmd_id frame_seq_no c)
  interrupt : (node : NodeId) (i : Inputs) (c d : Cam) → isp_irq_cam i c ≡ some d → Step node c d

pub data SessionReaches : NodeId → Cam → Cam → Type 0 where
  here : (node : NodeId) (c : Cam) → SessionReaches node c c
  after :
      (node : NodeId) (c d e : Cam)
      → SessionReaches node c d
      → Step node d e
      → SessionReaches node c e

-- What happens to a device of which one node is used, with the buffers that the node's queue keeps back:
-- requests are queued while the node does not stream, and whole sessions run, which are started, with a
-- work queue, and, when sensor and seninf obey, stopped.
pub data History : NodeId → Cam → List Queued → Cam → Type 0 where
  none_yet : (node : NodeId) (c : Cam) → History node c [] c
  request :
      (node : NodeId) (held qs : List Queued) (req : Req) (c d : Cam)
      → History node c held d
      → All (IsOf node) qs
      → IsNew qs req d
      → History node c (held ++ qs) (mtk_cam_req_queue (λ n. false) qs req d)
  session :
      (node : NodeId) (a b : Answers) (held : List Queued) (c d e f g : Cam)
      → History node c held d
      → a.workqueue ≡ true
      → mtk_cam_vb2_start_streaming a true node (hand_over held d) ≡ some (e, none)
      → e.streaming ≡ true
      → SessionReaches node e f
      → f.stream_count ≡ 1
      → f.enabled_count ≡ 1
      → f.held.composer_wq ≡ true
      → b.sensor_off ≡ none
      → b.seninf_off ≡ none
      → mtk_cam_vb2_stop_streaming b node f ≡ some g
      → History node c [] g
