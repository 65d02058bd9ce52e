-- ===== src/Cam/Runs.antt =====
-- Two sessions of camera/driver/cam on a concrete device, with a request between them.
use mt8183_kukui_pmos.Prelude.{
  ℕ, ◌^◌, ◌+◌, ◌<◌, ◌≡◌, refl, arith, true, false, List, [], ◌∷◌, some, none, length,
}
use mt8183_kukui_pmos.Format.Nodes.{main_stream_out}
use mt8183_kukui_pmos.Format.Codes.{
  get_sensor_fmt, get_sensor_pixel_id, get_img_fmt, one_of, get_pixel_bits,
}
use mt8183_kukui_pmos.Format.Config.{config_img_fmt}
use mt8183_kukui_pmos.Cam.State.{Cam, Req}
use mt8183_kukui_pmos.Cam.Jobs.{
  isp_tx_frame_worker, mtk_cam_dev_req_try_queue, mtk_cam_dev_req_cleanup, add_pending,
}
use mt8183_kukui_pmos.Cam.Buffers.{
  meta0, meta1, synthetic_req, mtk_cam_vb2_return_all_buffers, buf_queue_request,
}
use mt8183_kukui_pmos.Cam.Irq.{
  Inputs, isp_irq_cam, isp_composer_handler, ack_len, isp_cmd_ack, isp_cmd_frame_ack,
}
use mt8183_kukui_pmos.Cam.Stream.{
  with_work_queue, mtk_cam_sd_s_stream, mtk_cam_cio_stream_off, mtk_isp_hw_release,
  mtk_cam_vb2_start_streaming, mtk_cam_vb2_stop_streaming,
}
use mt8183_kukui_pmos.Cam.Composer.{isp_composer_hw_deinit, isp_composer_uninit, drain}
use mt8183_kukui_pmos.Cam.Queueing.{Jobs}
use mt8183_kukui_pmos.Cam.Session.{
  Queued, objects_of, queue_buffers, mtk_cam_req_queue, hand_over, IsNew, send_frame,
  composer_answer, SessionReaches, here, after, History, none_yet, request, session,
}
use mt8183_kukui_pmos.Cam.Restarted.{Waiting}
use mt8183_kukui_pmos.Cam.Histories.{History-isp_irq_cam}
use mt8183_kukui_pmos.Cam.Tests.{buf}
use mt8183_kukui_pmos.Cam.Examples.{obedient, idle, done}

-- The main stream is enabled; nothing streams and no job is pending.
abbrev waiting : Cam
waiting = record idle {
  stream_count = 0;
  held = record (idle.held) { pipeline = false };
  pending_job_list = [];
  buf_list = λ n. [];
}

waiting-Waiting : Waiting waiting
waiting-Waiting = record {
  not_streaming = refl;
  no_pipeline = refl;
  no_running = refl;
  tracked = tt;
  no_meta = tt;
  room = omega arith;
}

-- A request of user space with a buffer of the main stream.
abbrev queued : ℕ → List Queued
queued n = record { node = main_stream_out; buf = buf n } ∷ []

abbrev asked : ℕ → Req
asked n = record (synthetic_req n main_stream_out (buf n)) {
  objects = objects_of (queued n);
  synthetic = false;
  sbuf = none;
}

asked-IsNew : IsNew (queued 9) (asked 9) waiting
asked-IsNew = record {
  own = refl;
  objects = refl;
  apart = (refl, tt);
  no_meta = (elim [ meta0 ↦ refl | meta1 ↦ refl ], tt);
  room = omega arith;
}

-- The device with the request, before the main stream starts.
abbrev first_asked : Cam
first_asked = mtk_cam_req_queue (λ n. false) (queued 9) (asked 9) waiting

begin : List Queued → Cam → Cam
begin held c = elim (mtk_cam_vb2_start_streaming obedient true main_stream_out (hand_over held c)) [
  | none ↦ c
  | some r ↦ r.0
]

stop : Cam → Cam
stop c = elim (mtk_cam_vb2_stop_streaming obedient main_stream_out c) [ none ↦ c | some d ↦ d ]

-- The first session sends one frame.
abbrev first : Cam
first = begin (queued 9) first_asked

abbrev sent : Cam
sent = isp_tx_frame_worker first

first_begins :
    (mtk_cam_vb2_start_streaming obedient true main_stream_out (hand_over (queued 9) first_asked)
      ≡ some (first, none))
    × (first.streaming ≡ true)
unfolding with_work_queue begin stop hand_over mtk_cam_vb2_start_streaming get_sensor_fmt
    get_sensor_pixel_id config_img_fmt get_img_fmt one_of get_pixel_bits mtk_cam_dev_req_try_queue
    mtk_cam_req_queue queue_buffers add_pending buf_queue_request
first_begins = (refl, refl)

one_node : (sent.stream_count ≡ 1) × ((sent.enabled_count ≡ 1) × (sent.held.composer_wq ≡ true))
unfolding with_work_queue begin stop hand_over mtk_cam_vb2_start_streaming get_sensor_fmt
    get_sensor_pixel_id config_img_fmt get_img_fmt one_of get_pixel_bits mtk_cam_dev_req_try_queue
    mtk_cam_req_queue queue_buffers add_pending buf_queue_request isp_tx_frame_worker
one_node = (refl, (refl, refl))

sent_stops : mtk_cam_vb2_stop_streaming obedient main_stream_out sent ≡ some (stop sent)
unfolding with_work_queue begin stop hand_over mtk_cam_vb2_start_streaming get_sensor_fmt
    get_sensor_pixel_id config_img_fmt get_img_fmt one_of get_pixel_bits mtk_cam_dev_req_try_queue
    mtk_cam_req_queue queue_buffers add_pending buf_queue_request isp_tx_frame_worker
    mtk_cam_vb2_stop_streaming mtk_cam_sd_s_stream mtk_cam_cio_stream_off mtk_isp_hw_release
    isp_composer_hw_deinit isp_composer_uninit drain mtk_cam_dev_req_cleanup
    mtk_cam_vb2_return_all_buffers
sent_stops = refl

stopped_numbers :
    (stop sent).p1.enqueued_frame_seq_no + (length (stop sent).pending_job_list + 1) < 2 ^ 32
unfolding with_work_queue begin stop hand_over mtk_cam_vb2_start_streaming get_sensor_fmt
    get_sensor_pixel_id config_img_fmt get_img_fmt one_of get_pixel_bits mtk_cam_dev_req_try_queue
    mtk_cam_req_queue queue_buffers add_pending buf_queue_request isp_tx_frame_worker
    mtk_cam_vb2_stop_streaming mtk_cam_sd_s_stream mtk_cam_cio_stream_off mtk_isp_hw_release
    isp_composer_hw_deinit isp_composer_uninit drain mtk_cam_dev_req_cleanup
    mtk_cam_vb2_return_all_buffers
stopped_numbers = let room : 2 < 2 ^ 32 = omega arith in room

again-IsNew : IsNew (queued 10) (asked 10) (stop sent)
unfolding with_work_queue begin stop hand_over mtk_cam_vb2_start_streaming get_sensor_fmt
    get_sensor_pixel_id config_img_fmt get_img_fmt one_of get_pixel_bits mtk_cam_dev_req_try_queue
    mtk_cam_req_queue queue_buffers add_pending buf_queue_request isp_tx_frame_worker
    mtk_cam_vb2_stop_streaming mtk_cam_sd_s_stream mtk_cam_cio_stream_off mtk_isp_hw_release
    isp_composer_hw_deinit isp_composer_uninit drain mtk_cam_dev_req_cleanup
    mtk_cam_vb2_return_all_buffers
again-IsNew = record {
  own = refl;
  objects = refl;
  apart = (refl, tt);
  no_meta = (elim [ meta0 ↦ refl | meta1 ↦ refl ], tt);
  room = stopped_numbers;
}

-- The device with another request, between the sessions.
abbrev between : Cam
between = mtk_cam_req_queue (λ n. false) (queued 10) (asked 10) (stop sent)

past : History main_stream_out waiting (queued 10) between
past =
    let held : History main_stream_out waiting (queued 9) first_asked =
      request main_stream_out [] (queued 9) (asked 9) waiting waiting
        (none_yet main_stream_out waiting) (refl, tt) asked-IsNew in
    let sends : SessionReaches main_stream_out first sent =
      after main_stream_out first first sent (here main_stream_out first)
        (send_frame main_stream_out first) in
    let stopped : History main_stream_out waiting [] (stop sent) =
      session main_stream_out obedient obedient (queued 9) waiting first_asked first sent
        (stop sent) held refl first_begins.0 first_begins.1 sends one_node.0 one_node.1.0
        one_node.1.1 refl refl sent_stops in
    request main_stream_out [] (queued 10) (asked 10) waiting (stop sent) stopped (refl, tt)
      again-IsNew

abbrev second : Cam
second = begin (queued 10) between

second_begins :
    (mtk_cam_vb2_start_streaming obedient true main_stream_out (hand_over (queued 10) between)
      ≡ some (second, none))
    × (second.streaming ≡ true)
unfolding with_work_queue begin stop hand_over mtk_cam_vb2_start_streaming get_sensor_fmt
    get_sensor_pixel_id config_img_fmt get_img_fmt one_of get_pixel_bits mtk_cam_dev_req_try_queue
    mtk_cam_req_queue queue_buffers add_pending buf_queue_request isp_tx_frame_worker
    mtk_cam_vb2_stop_streaming mtk_cam_sd_s_stream mtk_cam_cio_stream_off mtk_isp_hw_release
    isp_composer_hw_deinit isp_composer_uninit drain mtk_cam_dev_req_cleanup
    mtk_cam_vb2_return_all_buffers
second_begins = (refl, refl)

-- The composer's worker sends the request's frame, and the composer answers.
abbrev answered : Cam
answered = isp_composer_handler ack_len isp_cmd_ack isp_cmd_frame_ack 1 (isp_tx_frame_worker second)

answers : SessionReaches main_stream_out second answered
answers =
    let works = isp_tx_frame_worker second in
    after main_stream_out second works answered
      (after main_stream_out second second works (here main_stream_out second)
        (send_frame main_stream_out second))
      (composer_answer main_stream_out ack_len isp_cmd_ack isp_cmd_frame_ack 1 works)

-- The second session's frame 1 starts.
abbrev first_frame : Inputs
first_frame = record done { frame_seq_num = 1 }

History-isp_irq_cam_example :
    Jobs answered × ((f : Cam) × (isp_irq_cam first_frame answered ≡ some f) × Jobs f)
History-isp_irq_cam_example =
    History-isp_irq_cam obedient first_frame main_stream_out (queued 10) waiting between second
      answered waiting-Waiting past refl second_begins.0 second_begins.1 answers
