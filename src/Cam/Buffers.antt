-- ===== src/Cam/Buffers.antt =====
-- camera/driver/cam/mtk_cam.c: buffers on their way from user space to the hardware and back, with
-- `mtk_isp_enqueue` of mtk_cam-hw.c.
use mt8183_kukui_pmos.Prelude.{
  ℕ, zero, suc, ◌+◌, ◌-◌, ◌==◌, ltb, if◌then◌else◌, Bool, true, not, ◌||◌, List, [], ◌∷◌, ◌++◌,
  Option, none, some, u32,
}
use mt8183_kukui_pmos.Uapi.{
  BufType, type_is_output, Fmt, pix_mp, meta, Result, ok, err, einval, efault,
}
use mt8183_kukui_pmos.Format.Nodes.{
  NodeId, node_index, main_stream_out, meta_out_0, meta_out_1, NodeDesc, node_desc,
}
use mt8183_kukui_pmos.Format.Negotiate.{clamp}
use mt8183_kukui_pmos.Cam.State.{
  Cam, P1, Req, Buf, DmaBuffer, BufState, state_done, state_error, Event, buffer_done, ipi_send,
  cmd_enqueue_meta, Run, emit, set_at, NodeMap, same_node,
}
use mt8183_kukui_pmos.Cam.Jobs.{add_pending, mtk_cam_dev_req_try_queue}

-- `buffer->seq_no = …` of the buffer with the name, through its pointer.
unfoldable pub set_seq_no : ℕ → ℕ → List Buf → List Buf
set_seq_no i n [] = []
set_seq_no i n (b ∷ bs) = if b.id == i then record b { seq_no = n } ∷ bs else b ∷ set_seq_no i n bs

-- The message to the composer and the buffer's new number.
abbrev sent_meta : NodeId → ℕ → Buf → ℕ → Cam → Cam
sent_meta node dma_port buf n c = record c {
  buf_list = set_at node (set_seq_no buf.id n (c.buf_list node)) c.buf_list;
  log =
      ipi_send (cmd_enqueue_meta dma_port n (record { iova = buf.daddr; scp_addr = buf.scp_addr }))
      ∷ c.log;
}

-- `++p1_dev->enqueued_meta_seq_no[idx]`; `none` is an access outside the array of two.
unfoldable pub next_seq_no_at : ℕ → P1 → Option (ℕ × P1)
next_seq_no_at zero p =
    let n = u32 (p.enqueued_meta0 + 1) in some (n, record p { enqueued_meta0 = n })
next_seq_no_at (suc zero) p =
    let n = u32 (p.enqueued_meta1 + 1) in some (n, record p { enqueued_meta1 = n })
next_seq_no_at _ p = none

-- The same with `idx` the node's number less `MTK_CAM_P1_META_OUT_0`, which may be negative.
unfoldable pub next_meta_seq_no : NodeId → P1 → Option (ℕ × P1)
unfolding next_seq_no_at
next_meta_seq_no node p =
    if ltb (node_index node) (node_index meta_out_0)
    then none
    else next_seq_no_at (node_index node - node_index meta_out_0) p

-- `mtk_isp_enqueue` of a buffer of the node.
unfoldable pub mtk_isp_enqueue : NodeId → ℕ → Buf → Cam → Run
unfolding next_meta_seq_no set_seq_no
mtk_isp_enqueue node dma_port buf c =
    if c.enabled_dmas == 0 then some c else elim (next_meta_seq_no node c.p1) [
      | none ↦ none
      | some (n, p) ↦ some (sent_meta node dma_port buf n (record c { p1 = p }))
    ]

abbrev pub no_dma : NodeMap DmaBuffer
no_dma node = record { iova = 0; scp_addr = 0 }

-- The request that the driver makes for one buffer of the main stream.
abbrev pub synthetic_req : ℕ → NodeId → Buf → Req
synthetic_req id node buf = record {
  id = id;
  frame_seq_no = 0;
  dma_bufs = set_at node (record { iova = buf.daddr; scp_addr = buf.scp_addr }) no_dma;
  objects = [];
  timestamp = 0;
  synthetic = true;
  sbuf = some (record { node = node; buf = buf.id });
}

-- `mtk_cam_enqueue_no_request`; `alloc` is the name of what `kzalloc` gives, or `none`.
unfoldable pub mtk_cam_enqueue_no_request : Option ℕ → NodeId → Buf → Cam → Run
unfolding mtk_isp_enqueue
mtk_cam_enqueue_no_request alloc node buf c =
    if not (same_node node main_stream_out)
    then mtk_isp_enqueue node (node_desc node).dma_port buf c
    else elim alloc [
      | none ↦ some (emit (buffer_done (record { node = node; buf = buf.id }) state_error none) c)
      | some id ↦ some (mtk_cam_dev_req_try_queue (add_pending (synthetic_req id node buf) c))
    ]

abbrev pub track : NodeId → Buf → Cam → Cam
track node buf c = record c { buf_list = set_at node (c.buf_list node ++ buf ∷ []) c.buf_list }

-- `mtk_cam_vb2_buf_queue` of a queue that does not use requests; `queue_streaming` is the queue's
-- own flag.
unfoldable pub buf_queue_no_request : Option ℕ → Bool → NodeId → Buf → Cam → Run
unfolding mtk_cam_enqueue_no_request
buf_queue_no_request alloc queue_streaming node buf c =
    if queue_streaming
    then mtk_cam_enqueue_no_request alloc node buf (track node buf c)
    else some (track node buf c)

-- `mtk_cam_vb2_buf_queue` of a buffer of a request: its addresses go into the request.
unfoldable pub buf_queue_request : NodeId → Buf → Req → Cam → Req × Cam
buf_queue_request node buf req c = (
  record req {
    dma_bufs = set_at node (record { iova = buf.daddr; scp_addr = buf.scp_addr }) req.dma_bufs;
  },
  track node buf c,
)

-- The loop of `mtk_cam_dev_dequeue_frame` over a list of buffers: what stays on it, and the log.
unfoldable pub dequeue_meta : ℕ → ℕ → ℕ → NodeId → List Buf → List Event → List Buf × List Event
dequeue_meta seq_no frame_seq_no now node [] log = ([], log)
dequeue_meta seq_no frame_seq_no now node (b ∷ bs) log =
    let rest = dequeue_meta seq_no (u32 (frame_seq_no + 1)) now node bs (
      buffer_done (record { node = node; buf = b.id }) state_done (some (frame_seq_no, now))
      ∷ log) in
    if ltb seq_no b.seq_no then (b ∷ bs, log) else rest

-- The two nodes for which `mtk_cam_dev_dequeue_frame` is called.
pub data MetaNode : Type 0 where
  meta0 meta1 : MetaNode

abbrev pub meta_node : MetaNode → NodeId
meta_node meta0 = meta_out_0
meta_node meta1 = meta_out_1

abbrev pub enqueued_meta : MetaNode → P1 → ℕ
enqueued_meta meta0 p = p.enqueued_meta0
enqueued_meta meta1 p = p.enqueued_meta1

-- `mtk_cam_dev_dequeue_frame`: `fbc_cnt` is the low seven bits of the node's FBC status, `now` the
-- clock, which the loop reads for each buffer.
unfoldable pub mtk_cam_dev_dequeue_frame : MetaNode → ℕ → ℕ → ℕ → ℕ → Cam → Cam
unfolding dequeue_meta
mtk_cam_dev_dequeue_frame m fbc_cnt now frame_seq_no seq_no c =
    let node = meta_node m in
    let last = if fbc_cnt == 0 then enqueued_meta m c.p1 else seq_no in
    if not (c.enabled node) || not c.streaming
    then c
    else let (left, log) = dequeue_meta last frame_seq_no now node (c.buf_list node) c.log in
      record c { buf_list = set_at node left c.buf_list; log = log }

unfoldable pub return_all : NodeId → BufState → List Buf → List Event → List Event
return_all node state [] log = log
return_all node state (b ∷ bs) log =
    return_all node state bs (buffer_done (record { node = node; buf = b.id }) state none ∷ log)

unfoldable pub mtk_cam_vb2_return_all_buffers : NodeId → BufState → Cam → Cam
unfolding return_all
mtk_cam_vb2_return_all_buffers node state c = record c {
  buf_list = set_at node [] c.buf_list;
  log = return_all node state (c.buf_list node) c.log;
}

-- `buffersize` of a meta format, `sizeimage` of an image format.
abbrev pub format_size : Fmt → ℕ
format_size (meta m) = m.buffersize
format_size (pix_mp p) = p.sizeimage

-- `mtk_cam_vb2_buf_init`: `map` is the answer of `dma_map_resource`, `none` for an error. The result
-- is `daddr` and `scp_addr`.
unfoldable pub mtk_cam_vb2_buf_init : Bool → (ℕ → Option ℕ) → ℕ → Result (ℕ × ℕ)
mtk_cam_vb2_buf_init smem_alloc map addr =
    if not smem_alloc
    then ok (addr, 0)
    else elim (map addr) [ none ↦ err efault | some iova ↦ ok (iova, addr) ]

-- `mtk_cam_vb2_buf_cleanup`: the address that it gives back to `dma_unmap_page_attrs`, if it does.
unfoldable pub mtk_cam_vb2_buf_cleanup : Bool → ℕ → Option ℕ
mtk_cam_vb2_buf_cleanup smem_alloc daddr = if not smem_alloc then none else some daddr

-- `mtk_cam_vb2_buf_prepare`: from the plane's size and payload to the payload that it sets.
unfoldable pub mtk_cam_vb2_buf_prepare : BufType → Fmt → ℕ → ℕ → Result ℕ
mtk_cam_vb2_buf_prepare type fmt plane_size payload =
    if ltb plane_size (format_size fmt)
    then err einval
    else if type_is_output type
    then (if payload == format_size fmt then ok payload else err einval)
    else ok (format_size fmt)

-- `mtk_cam_vb2_queue_setup`: the number of buffers, and the size of the one plane. `planes` and
-- `size0` are `*num_planes` and `sizes[0]`.
unfoldable pub mtk_cam_vb2_queue_setup : NodeDesc → Fmt → ℕ → ℕ → ℕ → Result (ℕ × ℕ)
unfolding clamp
mtk_cam_vb2_queue_setup desc fmt num_buffers planes size0 =
    let count =
      if desc.max_buf_count == 0 then num_buffers else clamp num_buffers 1 desc.max_buf_count in
    if planes == 0
    then ok (count, format_size fmt)
    else if ltb size0 (format_size fmt) || not (planes == 1)
    then err einval
    else ok (count, size0)
