-- ===== src/Cam/State.antt =====
-- camera/driver/cam/mtk_cam.h and mtk_cam-hw.h: the state of the driver that its operations change,
-- in one record. An object in memory is named by a number; a list of the kernel's is a List.
use mt8183_kukui_pmos.Prelude.{ℕ, ◌==◌, if◌then◌else◌, Bool, List, ◌∷◌, Option, none, some}
use mt8183_kukui_pmos.Uapi.{V4l2Format}
use mt8183_kukui_pmos.Format.Nodes.{NodeId, node_index}
use mt8183_kukui_pmos.Format.Config.{ImgOutput}

-- A map from the nodes, `vdev_nodes[]` by one of its fields.
abbrev pub NodeMap : Type 0 → Type 0
NodeMap A = NodeId → A

abbrev pub same_node : NodeId → NodeId → Bool
same_node m n = node_index m == node_index n

abbrev pub set_at : {A : Type 0} → NodeId → A → NodeMap A → NodeMap A
set_at n v f m = if same_node n m then v else f m

-- `struct mtk_cam_dev_buffer`, as it stands on the `buf_list` of its node.
pub record Buf : Type 0 where
  pub id : ℕ
  pub daddr : ℕ
  pub scp_addr : ℕ
  pub seq_no : ℕ

-- A pointer to a buffer: its node and its name.
pub record BufRef : Type 0 where
  pub node : NodeId
  pub buf : ℕ

-- An object of a media request: a buffer, or one that `vb2_request_object_is_buffer` rejects.
pub data ReqObject : Type 0 where
  buffer : BufRef → ReqObject
  other_object : ReqObject

-- `struct dma_buffer` of mtk_cam-ipi.h
pub record DmaBuffer : Type 0 where
  pub iova : ℕ
  pub scp_addr : ℕ

-- `struct mtk_cam_dev_request`. `objects` is the list of the embedded media request.
pub record Req : Type 0 where
  pub id : ℕ
  pub frame_seq_no : ℕ
  pub dma_bufs : NodeMap DmaBuffer
  pub objects : List ReqObject
  pub timestamp : ℕ
  pub synthetic : Bool
  pub sbuf : Option BufRef

-- `enum vb2_buffer_state`, as far as the driver uses it.
pub data BufState : Type 0 where
  state_done state_error state_queued : BufState

-- `struct p1_config_param`, with the constants of `mtk_cam_dev_isp_config` left out.
pub record ConfigParam : Type 0 where
  pub sensor_width : ℕ
  pub sensor_height : ℕ
  pub raw_pixel_id : ℕ
  pub img_fmt : ℕ
  pub main_output : ImgOutput
  pub resize_output : Option ImgOutput
  pub config_dmas : ℕ

-- `struct mtk_isp_scp_p1_cmd`, by its `cmd_id`, and the frame message.
pub data Ipi : Type 0 where
  cmd_init : ℕ → ℕ → ℕ → Ipi
  cmd_config : ConfigParam → Ipi
  cmd_stream : Bool → Ipi
  cmd_deinit : Ipi
  cmd_config_meta : ℕ → Ipi
  cmd_enqueue_meta : ℕ → ℕ → DmaBuffer → Ipi
  frame : ℕ → NodeMap DmaBuffer → Ipi

-- What the driver does to the world outside it.
pub data Event : Type 0 where
  -- `vb2_buffer_done` with the buffer's sequence number and time stamp; of a buffer that is given
  -- back unused these are not set.
  buffer_done : BufRef → BufState → Option (ℕ × ℕ) → Event
  ipi_send : Ipi → Event
  frame_sync : ℕ → Event
  kfree : ℕ → Event
  write_reg : ℕ → ℕ → Event

-- `struct mtk_isp_p1_device`. The two `*_meta_seq_no[2]` are a field for each index.
pub record P1 : Type 0 where
  pub enqueued_frame_seq_no : ℕ
  pub dequeued_frame_seq_no : ℕ
  pub composed_frame_seq_no : ℕ
  pub enqueued_meta0 : ℕ
  pub enqueued_meta1 : ℕ
  pub dequeued_meta0 : ℕ
  pub dequeued_meta1 : ℕ
  pub sof_count : ℕ
  pub composer_iova : ℕ
  pub composer_scp_addr : ℕ

-- What the driver holds of the kernel: the counts of `rproc_boot` and `pm_runtime_get`, the
-- handlers it has registered, its work queue, the media pipeline and the two streaming subdevices.
pub record Held : Type 0 where
  pub rproc : ℕ
  pub pm : ℕ
  pub ipi_cmd : Bool
  pub ipi_frame : Bool
  pub composer_wq : Bool
  pub pipeline : Bool
  pub seninf_on : Bool
  pub sensor_on : Bool

-- `struct mtk_cam_dev` with the P1 device around it. `works` is the composer's ordered queue, and
-- `log` holds the events, the newest first.
pub record Cam : Type 0 where
  pub streaming : Bool
  pub enabled : NodeMap Bool
  pub vdev_fmt : NodeMap V4l2Format
  pub buf_list : NodeMap (List Buf)
  pub enabled_dmas : ℕ
  pub enabled_count : ℕ
  pub stream_count : ℕ
  pub running_job_count : ℕ
  pub pending_job_list : List Req
  pub running_job_list : List Req
  pub p1 : P1
  pub held : Held
  pub works : List Req
  pub log : List Event

-- A run of an operation: `none` is undefined behaviour of the C code, an index out of its array or
-- a `list_del` of an entry that is on no list.
abbrev pub Run : Type 0
Run = Option Cam

infixl 5 ◌>>=◌
abbrev pub ◌>>=◌ : {A B : Type 0} → Option A → (A → Option B) → Option B
none >>= f = none
some a >>= f = f a

abbrev pub emit : Event → Cam → Cam
emit e c = record c { log = e ∷ c.log }
