-- ===== src/Cam/Tests.antt =====
-- A device that captures the main stream, and what the operations of
-- camera/driver/cam/mtk_cam.c do to it.
use mt8183_kukui_pmos.Prelude.{
  ℕ, ◌-◌, ◌*◌, if◌then◌else◌, ◌≡◌, refl, ◌⊎◌, arith, true, false, List, [], ◌∷◌, some, length,
}
use mt8183_kukui_pmos.Uapi.{sbggr8, video_capture_mplane, pix_mp}
use mt8183_kukui_pmos.Format.Nodes.{main_stream_out}
use mt8183_kukui_pmos.Format.Negotiate.{cleared}
use mt8183_kukui_pmos.Cam.State.{Cam, Req, Buf, state_done, same_node, NodeMap, set_at}
use mt8183_kukui_pmos.Cam.Jobs.{
  max_running_jobs, del, mtk_cam_dev_job_done, mtk_cam_dev_dequeue_req_frame,
  mtk_cam_dev_req_try_queue,
}
use mt8183_kukui_pmos.Cam.Buffers.{synthetic_req}
use mt8183_kukui_pmos.Cam.Queueing.{
  Jobs, started, mtk_cam_dev_req_try_queue-started, mtk_cam_dev_req_try_queue-Jobs,
}
use mt8183_kukui_pmos.Cam.Completion.{
  Tracked, without, job_refs, job_events, mtk_cam_dev_job_done-without,
}
use mt8183_kukui_pmos.Cam.Dequeue.{jobs_refs, Retires, mtk_cam_dev_dequeue_req_frame-Retires}

abbrev pub buf : ℕ → Buf
buf i = record { id = i; daddr = 4096 * i; scp_addr = 0; seq_no = 0 }

-- The request that the driver makes for a buffer, with its frame's number.
abbrev job : ℕ → ℕ → Req
job n i = record (synthetic_req i main_stream_out (buf i)) { frame_seq_no = n }

abbrev main_bufs : NodeMap (List Buf)
main_bufs node = if same_node node main_stream_out then buf 1 ∷ buf 2 ∷ buf 3 ∷ [] else []

-- Frames 4 and 5 are running, and a third job is pending.
abbrev pub capturing : Cam
capturing = record {
  streaming = true;
  enabled = same_node main_stream_out;
  vdev_fmt =
      λ n. record { buf_type = video_capture_mplane; fmt = pix_mp (cleared sbggr8 1920 1080) };
  buf_list = main_bufs;
  enabled_dmas = 1;
  enabled_count = 1;
  stream_count = 1;
  running_job_count = 2;
  pending_job_list = job 0 3 ∷ [];
  running_job_list = job 4 1 ∷ job 5 2 ∷ [];
  p1 = record {
    enqueued_frame_seq_no = 5;
    dequeued_frame_seq_no = 5;
    composed_frame_seq_no = 5;
    enqueued_meta0 = 0;
    enqueued_meta1 = 0;
    dequeued_meta0 = 0;
    dequeued_meta1 = 0;
    sof_count = 5;
    composer_iova = 0x1000000;
    composer_scp_addr = 0x2000000;
  };
  held = record {
    rproc = 1;
    pm = 1;
    ipi_cmd = true;
    ipi_frame = true;
    composer_wq = true;
    pipeline = true;
    seninf_on = true;
    sensor_on = true;
  };
  works = [];
  log = [];
}

abbrev pub capturing_jobs : Jobs capturing
capturing_jobs = record {
  first = 3;
  counted = refl;
  bounded = omega arith;
  numbered = (refl, (refl, tt));
  last = refl;
}

capturing-Tracked : Tracked capturing.buf_list (jobs_refs capturing.running_job_list)
capturing-Tracked = (refl, refl, (refl, refl, tt))

mtk_cam_dev_req_try_queue-started_example :
    mtk_cam_dev_req_try_queue capturing
    ≡ started
        (max_running_jobs - length capturing.running_job_list)
        capturing.pending_job_list
        capturing
mtk_cam_dev_req_try_queue-started_example =
    mtk_cam_dev_req_try_queue-started capturing capturing_jobs refl (omega arith)

mtk_cam_dev_req_try_queue-Jobs_example :
    Jobs (mtk_cam_dev_req_try_queue capturing)
    × ((capturing.streaming ≡ false)
        ⊎ ((length (mtk_cam_dev_req_try_queue capturing).running_job_list ≡ max_running_jobs)
            ⊎ ((mtk_cam_dev_req_try_queue capturing).pending_job_list ≡ [])))
mtk_cam_dev_req_try_queue-Jobs_example =
    mtk_cam_dev_req_try_queue-Jobs capturing capturing_jobs (omega arith)

mtk_cam_dev_dequeue_req_frame-Retires_example :
    Retires 5
      (λ n. 100 * n)
      2
      capturing.running_job_list
      capturing
      (mtk_cam_dev_dequeue_req_frame 5 (λ n. 100 * n) capturing)
mtk_cam_dev_dequeue_req_frame-Retires_example =
    mtk_cam_dev_dequeue_req_frame-Retires capturing 5 (λ n. 100 * n) capturing_jobs refl
      capturing-Tracked

-- The lists when the first job has given its buffer back.
abbrev bufs_left : NodeMap (List Buf)
bufs_left = set_at main_stream_out (buf 2 ∷ buf 3 ∷ []) main_bufs

without-bufs_left : without capturing.buf_list (job_refs (job 4 1)) ≡ some bufs_left
unfolding del
without-bufs_left = refl

mtk_cam_dev_job_done-without_example :
    mtk_cam_dev_job_done (job 4 1) state_done 100 capturing
    ≡ some (record capturing { buf_list = bufs_left; log = job_events (job 4 1) state_done 100 [] })
mtk_cam_dev_job_done-without_example =
    mtk_cam_dev_job_done-without (job 4 1) state_done 100 capturing bufs_left refl without-bufs_left
