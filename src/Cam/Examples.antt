-- ===== src/Cam/Examples.antt =====
-- Interrupts, starts and stops of camera/driver/cam on a concrete device.
use mt8183_kukui_pmos.Prelude.{
  ℕ, ◌+◌, ◌^◌, ◌≤◌, ◌≡◌, ◌≢◌, ◌↔◌, ◌⊎◌, refl, arith, true, false, [], ◌∷◌, some, none, Option,
  if◌then◌else◌,
}
use mt8183_kukui_pmos.Uapi.{Errno, video_capture_mplane, pix_mp, ok, sbggr10_1x10}
use mt8183_kukui_pmos.Format.Nodes.{
  main_stream_out, packed_bin_out, meta_in_0, meta_out_0, meta_out_1,
}
use mt8183_kukui_pmos.Format.Tests.{full_hd, full_hd-IsFit, packed_hd, packed_hd-IsFit}
use mt8183_kukui_pmos.Cam.State.{Cam, Buf, same_node, set_at}
use mt8183_kukui_pmos.Cam.Irq.{Inputs, isp_irq_cam, cq_address, cq_address_offset}
use mt8183_kukui_pmos.Cam.Buffers.{meta0, meta1, mtk_isp_enqueue, mtk_cam_dev_dequeue_frame}
use mt8183_kukui_pmos.Cam.Stream.{Answers, mtk_cam_cio_stream_on, mtk_cam_vb2_stop_streaming}
use mt8183_kukui_pmos.Cam.Returned.{waiting, passed, meta_events, mtk_cam_dev_dequeue_frame-passed}
use mt8183_kukui_pmos.Cam.Capturing.{Capturing}
use mt8183_kukui_pmos.Cam.Interrupt.{isp_irq_cam-Capturing}
use mt8183_kukui_pmos.Cam.Addresses.{
  composer_mem_size, cq_address-composer_mem_size, mtk_isp_enqueue_out_of_bounds,
}
use mt8183_kukui_pmos.Cam.Starting.{StreamedOn, mtk_cam_cio_stream_on-StreamedOn}
use mt8183_kukui_pmos.Cam.Stopping.{Stopped, mtk_cam_vb2_stop_streaming-Stopped}
use mt8183_kukui_pmos.Cam.Tests.{buf, capturing, capturing_jobs}

capturing-Capturing : Capturing capturing
capturing-Capturing = record {
  jobs = capturing_jobs;
  streaming = refl;
  tracked = (refl, refl, (refl, refl, (refl, refl, tt)));
  no_meta = (
    elim [ meta0 ↦ refl | meta1 ↦ refl ],
    (elim [ meta0 ↦ refl | meta1 ↦ refl ], (elim [ meta0 ↦ refl | meta1 ↦ refl ], tt)),
  );
  room = omega arith;
}

-- Frame 5 is done and frame 6 starts, with new statistics.
abbrev pub done : Inputs
done = record {
  int_stat = 2 ^ 30 + 2 ^ 12 + 2 ^ 11;
  int2_stat = 2 ^ 7;
  frame_seq_num = 6;
  meta0_seq_num = 1;
  meta1_seq_num = 0;
  aao_fbc_hw = 1;
  afo_fbc = 0;
  aao_fbc_sw = 1;
  int_en = 0;
  now = 1000;
  ts_eof = λ n. 2000;
}

isp_irq_cam-Capturing_example : (d : Cam) × (isp_irq_cam done capturing ≡ some d) × Capturing d
isp_irq_cam-Capturing_example = isp_irq_cam-Capturing done capturing capturing-Capturing

-- Two meta buffers wait, of which the hardware has reported the first.
abbrev meta_buf : ℕ → Buf
meta_buf n = record (buf n) { seq_no = n }

abbrev measuring : Cam
measuring = record capturing {
  enabled = λ n. true;
  buf_list = set_at meta_out_0 (meta_buf 1 ∷ meta_buf 2 ∷ []) capturing.buf_list;
}

mtk_cam_dev_dequeue_frame-passed_example :
    mtk_cam_dev_dequeue_frame meta0 1 1000 5 1 measuring ≡ record measuring {
      buf_list = set_at meta_out_0 (waiting 1 (measuring.buf_list meta_out_0)) measuring.buf_list;
      log = meta_events 5 1000 meta_out_0 (passed 1 (measuring.buf_list meta_out_0)) [];
    }
mtk_cam_dev_dequeue_frame-passed_example =
    mtk_cam_dev_dequeue_frame-passed meta0 1 1000 5 1 measuring refl refl

cq_address-composer_mem_size_example :
    (0x1000000 ≤ cq_address 0x1000000 4)
    × (cq_address 0x1000000 4 + cq_address_offset ≤ 0x1000000 + composer_mem_size)
    × ((cq_address 0x1000000 4 + cq_address_offset ≤ cq_address 0x1000000 6)
        ⊎ (cq_address 0x1000000 6 + cq_address_offset ≤ cq_address 0x1000000 4))
cq_address-composer_mem_size_example =
    cq_address-composer_mem_size 0x1000000 4 6 (omega arith) (omega arith) (omega arith)
      (omega arith)

mtk_isp_enqueue_out_of_bounds_example :
    (mtk_isp_enqueue meta_in_0 0 (buf 1) capturing ≡ none)
    ↔ ((meta_in_0 ≢ meta_out_0) × (meta_in_0 ≢ meta_out_1))
mtk_isp_enqueue_out_of_bounds_example =
    mtk_isp_enqueue_out_of_bounds meta_in_0 0 (buf 1) capturing (omega arith)

-- Everything answers as it should; the sensor is an 8 megapixel one.
abbrev pub obedient : Answers
obedient = record {
  seninf_bound = true;
  active_sensor = true;
  seninf_on = none;
  sensor_on = none;
  sensor_fmt = ok (record { width = 3264; height = 2448; code = sbggr10_1x10 });
  sensor_off = none;
  seninf_off = none;
  pipeline_start = none;
  rproc_boot = none;
  register_cmd = none;
  register_frame = none;
  workqueue = true;
  kzalloc = λ i. some i;
}

-- A device whose two image nodes have formats, before it streams.
abbrev pub idle : Cam
idle = record capturing {
  streaming = false;
  vdev_fmt = λ n. record {
    buf_type = video_capture_mplane;
    fmt = pix_mp (if same_node n packed_bin_out then packed_hd else full_hd);
  };
  running_job_count = 0;
  running_job_list = [];
  held = record (capturing.held) { seninf_on = false; sensor_on = false };
}

mtk_cam_cio_stream_on-StreamedOn_example :
    (d : Cam) × (ret : Option Errno) × (mtk_cam_cio_stream_on obedient idle ≡ some (d, ret))
    × StreamedOn obedient idle d ret
mtk_cam_cio_stream_on-StreamedOn_example =
    mtk_cam_cio_stream_on-StreamedOn obedient idle
      (record { image = full_hd; set = refl; fits = full_hd-IsFit })
      (record { image = packed_hd; set = refl; fits = packed_hd-IsFit }) refl refl refl

mtk_cam_vb2_stop_streaming-Stopped_example :
    (d : Cam) × (mtk_cam_vb2_stop_streaming obedient main_stream_out capturing ≡ some d)
    × Stopped main_stream_out capturing d
mtk_cam_vb2_stop_streaming-Stopped_example =
    mtk_cam_vb2_stop_streaming-Stopped obedient main_stream_out capturing refl refl refl refl refl
      refl
