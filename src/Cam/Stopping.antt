-- ===== src/Cam/Stopping.antt =====
-- Stopping the last node: `mtk_cam_vb2_stop_streaming` leaves no job, no buffer of the node and no
-- pipeline behind.
use mt8183_kukui_pmos.Prelude.{
  not, subst, sym, ◌-◌, ◌==◌, ◌≡◌, refl, arith, true, false, some, none, List, [], ◌∷◌,
  if◌then◌else◌,
}
use mt8183_kukui_pmos.Format.Nodes.{NodeId}
use mt8183_kukui_pmos.Cam.State.{
  ipi_send, frame, cmd_deinit, cmd_stream, Cam, Req, Event, Held, ◌>>=◌, same_node, state_error,
  kfree,
}
use mt8183_kukui_pmos.Cam.Jobs.{
  isp_tx_frame_worker, dec32, free_all, free_synthetic, mtk_cam_dev_req_cleanup,
}
use mt8183_kukui_pmos.Cam.Buffers.{mtk_cam_vb2_return_all_buffers}
use mt8183_kukui_pmos.Cam.Composer.{drain, isp_composer_uninit, isp_composer_hw_deinit}
use mt8183_kukui_pmos.Cam.Stream.{
  Answers, mtk_isp_hw_release, mtk_cam_cio_stream_off, mtk_cam_sd_s_stream, stop_first,
  mtk_cam_vb2_stop_streaming, pipeline_held,
}

-- The events of freeing the requests that the driver made.
abbrev pub kfree_all : List Req → List Event → List Event
kfree_all [] log = log
kfree_all (r ∷ rs) log = kfree_all rs (if r.synthetic then kfree r.id ∷ log else log)

free_all-kfree_all :
    (rs : List Req) (c : Cam) → free_all rs c ≡ record c { log = kfree_all rs c.log }
unfolding free_all
free_all-kfree_all [] c = refl
free_all-kfree_all (r ∷ rs) c = ground (arith, free_all-kfree_all rs (free_synthetic r c))

-- Freeing the jobs empties both lists and frees each request that the driver made once.
cleanup-kfree_all :
    (c : Cam)
    → mtk_cam_dev_req_cleanup c ≡ record c {
      pending_job_list = [];
      running_job_list = [];
      log = kfree_all c.running_job_list (kfree_all c.pending_job_list c.log);
    }
unfolding mtk_cam_dev_req_cleanup
cleanup-kfree_all c =
    let d = record c { pending_job_list = []; running_job_list = [] } in
    cc (
      free_all-kfree_all c.pending_job_list d,
      free_all-kfree_all c.running_job_list (free_all c.pending_job_list d),
    )

-- What the kernel held for a stream that has ended.
abbrev pub released : Held → Held
released h = record {
  rproc = h.rproc - 1;
  pm = h.pm - 1;
  ipi_cmd = false;
  ipi_frame = false;
  composer_wq = false;
  pipeline = false;
  seninf_on = false;
  sensor_on = false;
}

-- What the last node to stop leaves.
pub record Stopped (node : NodeId) (c d : Cam) : Type 0 where
  pub not_streaming : d.streaming ≡ false
  pub no_dma : d.enabled_dmas ≡ 0
  pub no_pending : d.pending_job_list ≡ []
  pub no_running : d.running_job_list ≡ []
  pub no_work : d.works ≡ []
  pub no_buffer : d.buf_list node ≡ []
  pub no_node : d.stream_count ≡ 0
  pub held : d.held ≡ released c.held

-- The works of the composer are run, in order.
sent_frames : List Req → List Event → List Event
sent_frames [] log = log
sent_frames (r ∷ rs) log = sent_frames rs (ipi_send (frame r.frame_seq_no r.dma_bufs) ∷ log)

drain-sent_frames :
    (rs : List Req) (c : Cam)
    → c.works ≡ rs
    → drain rs c ≡ record c { works = []; log = sent_frames rs c.log }
unfolding drain isp_tx_frame_worker sent_frames
drain-sent_frames [] c e = rw (sym e) refl
drain-sent_frames (r ∷ rs) c e =
    let sent = record c { works = rs; log = ipi_send (frame r.frame_seq_no r.dma_bufs) ∷ c.log } in
    rw e (drain-sent_frames rs sent refl)

hw_release-drained :
    (c : Cam)
    → c.held.composer_wq ≡ true
    → mtk_isp_hw_release c
      ≡ some (record c {
        works = [];
        held = record (c.held) {
          rproc = c.held.rproc - 1;
          pm = c.held.pm - 1;
          ipi_cmd = false;
          ipi_frame = false;
          composer_wq = false;
        };
        log = sent_frames c.works (ipi_send cmd_deinit ∷ c.log);
      })
unfolding mtk_isp_hw_release isp_composer_hw_deinit isp_composer_uninit
hw_release-drained c wq =
    let told = record c { log = ipi_send cmd_deinit ∷ c.log } in
    rw (drain-sent_frames c.works told refl, wq) refl

stop_first-off :
    (a : Answers) (c : Cam)
    → c.stream_count ≡ 1
    → c.enabled_count ≡ 1
    → c.streaming ≡ true
    → c.held.composer_wq ≡ true
    → a.sensor_off ≡ none
    → a.seninf_off ≡ none
    → (log : List Event) × (stop_first a c
        ≡ some (record c {
          streaming = false;
          works = [];
          enabled_dmas = 0;
          held = record (released c.held) { pipeline = c.held.pipeline };
          log = log;
        }))
unfolding stop_first mtk_cam_sd_s_stream mtk_cam_cio_stream_off
stop_first-off a c h k on wq s t =
    let silent = record c {
      streaming = false;
      held = record (c.held) { seninf_on = false; sensor_on = false };
      log = ipi_send (cmd_stream false) ∷ c.log;
    } in
    let log = sent_frames c.works (ipi_send cmd_deinit ∷ ipi_send (cmd_stream false) ∷ c.log) in
    let d = record c {
      streaming = false;
      works = [];
      held = record (released c.held) { pipeline = c.held.pipeline };
      log = log;
    } in
    let off : mtk_cam_cio_stream_off a c ≡ some (d, none) =
      rw (s, t, hw_release-drained silent wq) refl in
    let sd : mtk_cam_sd_s_stream false a c ≡ some (d, none) =
      subst (λ b. (if not b then some (c, none) else mtk_cam_cio_stream_off a c) ≡ some (d, none))
        (sym on) off in
    let all : (c.stream_count == c.enabled_count) ≡ true = ground arith in (log, rw (all, sd) refl)

-- On a streaming device with one enabled node and the composer's work queue, when sensor and seninf
-- obey, `mtk_cam_vb2_stop_streaming` of that node does nothing undefined and ends the stream: no job, no
-- work of the composer and no buffer of the node is left, no DMA port is enabled, and the coprocessor, the power reference, the handlers, the work
-- queue, the pipeline and both subdevices are given up.
pub mtk_cam_vb2_stop_streaming-Stopped :
    (a : Answers) (node : NodeId) (c : Cam)
    → c.stream_count ≡ 1
    → c.enabled_count ≡ 1
    → c.streaming ≡ true
    → c.held.composer_wq ≡ true
    → a.sensor_off ≡ none
    → a.seninf_off ≡ none
    → (d : Cam) × (mtk_cam_vb2_stop_streaming a node c ≡ some d) × Stopped node c d
unfolding mtk_cam_vb2_stop_streaming mtk_cam_vb2_return_all_buffers
mtk_cam_vb2_stop_streaming-Stopped a node c h k on wq s t =
    let (log, first) = stop_first-off a c h k on wq s t in
    let c1 = record c {
      streaming = false;
      works = [];
      enabled_dmas = 0;
      held = record (released c.held) { pipeline = c.held.pipeline };
      log = log;
    } in
    let e = mtk_cam_vb2_return_all_buffers node state_error c1 in
    let f = record e { stream_count = dec32 e.stream_count } in
    let last : (f.stream_count == 0) ≡ true = ground arith in
    let clean = cleanup-kfree_all f in
    let empty : same_node node node ≡ true = ground arith in
    (
      pipeline_held false (mtk_cam_dev_req_cleanup f),
      rw (first, ◌>>=◌, last),
      rw clean (record {
        not_streaming = refl;
        no_dma = refl;
        no_pending = refl;
        no_running = refl;
        no_work = refl;
        no_buffer = rw empty;
        no_node = omega arith;
        held = refl;
      }),
    )
