-- ===== src/Cam/Stream.antt =====
-- camera/driver/cam/mtk_cam.c and mtk_cam-hw.c: starting and stopping the capture. What the calls
-- of the kernel and of the other drivers answer is an argument, `Answers`.
use mt8183_kukui_pmos.Prelude.{
  ℕ, ◌+◌, ◌-◌, ◌==◌, ltb, if◌then◌else◌, Bool, true, false, not, ◌&&◌, length, List, [], ◌∷◌,
  Option, none, some, u32,
}
use mt8183_kukui_pmos.Uapi.{Errno, enodev, enolink, eperm, Result, ok, err}
use mt8183_kukui_pmos.Format.Nodes.{NodeId}
use mt8183_kukui_pmos.Cam.State.{
  Cam, Buf, ConfigParam, state_error, state_queued, Run, ◌>>=◌, same_node,
}
use mt8183_kukui_pmos.Cam.Composer.{
  isp_composer_meta_config, isp_composer_hw_init, isp_composer_hw_deinit, mtk_isp_hw_config,
  mtk_isp_stream,
}
use mt8183_kukui_pmos.Cam.Jobs.{dec32, mtk_cam_dev_req_try_queue, mtk_cam_dev_req_cleanup}
use mt8183_kukui_pmos.Cam.Buffers.{mtk_cam_enqueue_no_request, mtk_cam_vb2_return_all_buffers}
use mt8183_kukui_pmos.Cam.Configure.{SensorFmt, mtk_cam_dev_init_stream, isp_config_param}

-- An answer `none` is 0, `some e` an error.
pub record Answers : Type 0 where
  pub seninf_bound : Bool
  pub active_sensor : Bool
  pub seninf_on : Option Errno
  pub sensor_on : Option Errno
  pub sensor_fmt : Result SensorFmt
  pub sensor_off : Option Errno
  pub seninf_off : Option Errno
  pub pipeline_start : Option Errno
  pub rproc_boot : Option Errno
  pub register_cmd : Option Errno
  pub register_frame : Option Errno
  pub workqueue : Bool
  -- What `kzalloc` gives for the buffer with the name.
  pub kzalloc : ℕ → Option ℕ

-- The new state and the value returned: `none` inside is 0.
abbrev pub Returned : Type 0
Returned = Option (Cam × Option Errno)

abbrev pub sensor_held : Bool → Cam → Cam
sensor_held on c = record c { held = record (c.held) { sensor_on = on } }

abbrev pub seninf_held : Bool → Cam → Cam
seninf_held on c = record c { held = record (c.held) { seninf_on = on } }

-- Whether a subdevice that is turned off stays on, by what the call answers.
abbrev pub stays_on : Option Errno → Bool
stays_on none = false
stays_on (some e) = true

-- `fail_seninf_off` and `fail_sensor_off`, which do not look at the answers.
abbrev pub fail_seninf_off : Answers → Cam → Cam
fail_seninf_off a c = seninf_held (stays_on a.seninf_off) c

abbrev pub fail_sensor_off : Answers → Cam → Cam
fail_sensor_off a c = fail_seninf_off a (sensor_held (stays_on a.sensor_off) c)

-- Starting jobs gives the work queue a work for each: `none` is a `queue_work` where no queue is there.
unfoldable pub with_work_queue : Cam → Cam → Run
with_work_queue before after =
    if not before.held.composer_wq && ltb (length before.works) (length after.works)
    then none
    else some after

-- The end of `mtk_cam_cio_stream_on`, with the sensor and the seninf on.
unfoldable pub stream_configured : Answers → Result ConfigParam → Cam → Returned
stream_configured a (err e) c = some (fail_sensor_off a c, some e)
stream_configured a (ok param) c =
    let d = mtk_isp_stream true (record (mtk_isp_hw_config param c) { streaming = true }) in
    with_work_queue d (mtk_cam_dev_req_try_queue d) >>= λ f. some (f, none)

unfoldable pub mtk_cam_cio_stream_on : Answers → Cam → Returned
unfolding isp_config_param stream_configured
mtk_cam_cio_stream_on a c =
    if not a.seninf_bound
    then some (c, some enodev)
    else if not a.active_sensor
    then some (c, some enodev)
    else elim a.seninf_on [
      | some e ↦ some (c, some e)
      | none ↦ elim a.sensor_on [
        | some e ↦ some (fail_seninf_off a (seninf_held true c), some e)
        | none ↦
            let d = sensor_held true (seninf_held true c) in
            isp_config_param a.sensor_fmt d >>= λ r. stream_configured a r d
      ]
    ]

unfoldable pub mtk_isp_hw_release : Cam → Run
mtk_isp_hw_release c = isp_composer_hw_deinit c >>= λ d.
    some (record d { held = record (d.held) { rproc = d.held.rproc - 1; pm = d.held.pm - 1 } })

unfoldable pub mtk_cam_cio_stream_off : Answers → Cam → Returned
mtk_cam_cio_stream_off a c = elim a.sensor_off [
  | some e ↦ some (c, some eperm)
  | none ↦ elim a.seninf_off [
    | some e ↦ some (sensor_held false c, some eperm)
    | none ↦
        let d = seninf_held false (sensor_held false c) in
        mtk_isp_hw_release (mtk_isp_stream false (record d { streaming = false })) >>= λ e.
        some (e, none)
  ]
]

unfoldable pub mtk_cam_sd_s_stream : Bool → Answers → Cam → Returned
unfolding mtk_cam_cio_stream_on mtk_cam_cio_stream_off
mtk_cam_sd_s_stream true a c = if c.streaming then some (c, none) else mtk_cam_cio_stream_on a c
mtk_cam_sd_s_stream false a c =
    if not c.streaming then some (c, none) else mtk_cam_cio_stream_off a c

-- `isp_composer_init`. Where the work queue is missing, the value returned is that of the last
-- call before it, 0.
unfoldable pub isp_composer_init : Answers → Cam → Cam × Option Errno
isp_composer_init a c = elim a.register_cmd [
  | some e ↦ (c, some e)
  | none ↦ elim a.register_frame [
    | some e ↦ (record c { held = record (c.held) { ipi_cmd = false } }, some e)
    | none ↦
        if a.workqueue
        then (
          record c {
            held = record (c.held) { ipi_cmd = true; ipi_frame = true; composer_wq = true };
          },
          none,
        )
        else (
          record c {
            held = record (c.held) { ipi_cmd = false; ipi_frame = false; composer_wq = false };
          },
          none,
        )
  ]
]

-- The end of `mtk_isp_hw_init`: power, the composer's parameters, the counters at 0 and the meta
-- DMAs.
unfoldable pub hw_ready : Cam → Cam
hw_ready c =
    let d = isp_composer_hw_init (record c { held = record (c.held) { pm = c.held.pm + 1 } }) in
    let e = isp_composer_meta_config d.enabled_dmas d in
    record e {
      p1 = record (e.p1) {
        enqueued_frame_seq_no = 0;
        dequeued_frame_seq_no = 0;
        composed_frame_seq_no = 0;
        sof_count = 0;
        enqueued_meta0 = 0;
        enqueued_meta1 = 0;
        dequeued_meta0 = 0;
        dequeued_meta1 = 0;
      };
    }

unfoldable pub mtk_isp_hw_init : Answers → Cam → Cam × Option Errno
unfolding isp_composer_init hw_ready
mtk_isp_hw_init a c = elim a.rproc_boot [
  | some e ↦ (c, some e)
  | none ↦
      let (d, ret) =
        isp_composer_init a (record c { held = record (c.held) { rproc = c.held.rproc + 1 } }) in
      elim ret [ some e ↦ (d, some e) | none ↦ (hw_ready d, none) ]
]

abbrev pub pipeline_held : Bool → Cam → Cam
pipeline_held on c = record c { held = record (c.held) { pipeline = on } }

-- `fail_stop_pipeline` and what follows it in `mtk_cam_vb2_start_streaming`.
unfoldable pub start_failed : NodeId → Errno → Cam → Cam × Option Errno
start_failed node e c =
    let d = if c.stream_count == 0 then pipeline_held false c else c in
    (mtk_cam_vb2_return_all_buffers node state_queued d, some e)

-- The loop over the buffers that wait on a node.
unfoldable pub enqueue_waiting : Answers → NodeId → List Buf → Cam → Run
enqueue_waiting a node [] c = some c
enqueue_waiting a node (b ∷ bs) c =
    mtk_cam_enqueue_no_request (a.kzalloc b.id) node b c >>= enqueue_waiting a node bs

-- The end of `mtk_cam_vb2_start_streaming`: the last of the enabled nodes starts the subdevice.
unfoldable pub start_node : Answers → NodeId → Cam → Returned
unfolding mtk_cam_sd_s_stream start_failed
start_node a node c =
    let d = record c { stream_count = u32 (c.stream_count + 1) } in
    if ltb d.stream_count d.enabled_count
    then some (d, none)
    else mtk_cam_sd_s_stream true a d >>= λ (f, ret). elim ret [
      | none ↦ some (f, none)
      | some e ↦ some (start_failed node e (record f { stream_count = dec32 f.stream_count }))
    ]

-- The middle of `mtk_cam_vb2_start_streaming`: the buffers that were queued with no request.
unfoldable pub start_queued : Answers → Bool → NodeId → Cam → Returned
unfolding enqueue_waiting start_node
start_queued a uses_requests node c =
    (if uses_requests then some c else enqueue_waiting a node (c.buf_list node) c)
    >>= start_node a node

unfoldable pub mtk_cam_vb2_start_streaming : Answers → Bool → NodeId → Cam → Returned
unfolding mtk_cam_dev_init_stream mtk_isp_hw_init start_failed start_queued
mtk_cam_vb2_start_streaming a uses_requests node c =
    if not (c.enabled node)
    then some (mtk_cam_vb2_return_all_buffers node state_queued c, some enolink)
    else if c.held.pipeline
    then start_queued a uses_requests node c
    else elim a.pipeline_start [
      | some e ↦ some (mtk_cam_vb2_return_all_buffers node state_queued c, some e)
      | none ↦
          let (d, ret) = mtk_isp_hw_init a (mtk_cam_dev_init_stream (pipeline_held true c)) in
          elim ret [
            | some e ↦ some (start_failed node e d)
            | none ↦ start_queued a uses_requests node d
          ]
    ]

-- The first part of `mtk_cam_vb2_stop_streaming`: the first node to stop stops the subdevice, whose
-- answer is not looked at.
unfoldable pub stop_first : Answers → Cam → Run
stop_first a c =
    if c.stream_count == c.enabled_count
    then (mtk_cam_sd_s_stream false a c >>= λ (d, ret). some (record d { enabled_dmas = 0 }))
    else some c

unfoldable pub mtk_cam_vb2_stop_streaming : Answers → NodeId → Cam → Run
unfolding stop_first
mtk_cam_vb2_stop_streaming a node c = stop_first a c >>= λ d.
    let e = mtk_cam_vb2_return_all_buffers node state_error d in
    let f = record e { stream_count = dec32 e.stream_count } in
    some (if f.stream_count == 0 then pipeline_held false (mtk_cam_dev_req_cleanup f) else f)

-- `mtk_cam_media_link_setup` with the pad's index; a pad past the nodes changes nothing.
unfoldable pub mtk_cam_media_link_setup : Option NodeId → Bool → Cam → Cam
mtk_cam_media_link_setup none on c = c
mtk_cam_media_link_setup (some node) on c = record c {
  enabled = λ n. if node_of node n then on else c.enabled n;
}
  where
    node_of : NodeId → NodeId → Bool
    node_of m n = same_node m n
