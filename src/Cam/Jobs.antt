-- ===== src/Cam/Jobs.antt =====
-- camera/driver/cam/mtk_cam.c: the lists of jobs, from a request that is queued to the frame that
-- completes it, and mtk_cam-hw.c as far as it numbers the frames.
use mt8183_kukui_pmos.Prelude.{
  ℕ, ◌+◌, ◌-◌, ◌^◌, ◌==◌, ltb, leb, if◌then◌else◌, not, List, [], ◌∷◌, ◌++◌, Option, none, some,
  u32,
}
use mt8183_kukui_pmos.Uapi.{type_is_output}
use mt8183_kukui_pmos.Format.Nodes.{node_desc}
use mt8183_kukui_pmos.Cam.State.{
  Cam, Req, Buf, BufRef, ReqObject, buffer, other_object, BufState, state_done, state_error,
  buffer_done, ipi_send, kfree, frame, Run, ◌>>=◌, emit, set_at,
}

abbrev pub max_running_jobs : ℕ
max_running_jobs = 3

-- `--` on an `unsigned int`
abbrev pub dec32 : ℕ → ℕ
dec32 n = u32 (n + (2 ^ 32 - 1))

-- `list_del` of the buffer with the name; `none` if it is not on the list.
unfoldable pub del : ℕ → List Buf → Option (List Buf)
del i [] = none
del i (b ∷ bs) = if b.id == i then some bs else (del i bs >>= λ r. some (b ∷ r))

-- Takes a buffer off its node's list and gives it back with a sequence number and a time stamp.
unfoldable pub complete : BufRef → BufState → ℕ → ℕ → Cam → Run
unfolding del
complete ref state sequence timestamp c = do
  rest ← del ref.buf (c.buf_list ref.node)
  some (record c {
    buf_list = set_at ref.node rest c.buf_list;
    log = buffer_done ref state (some (sequence, timestamp)) ∷ c.log;
  })

-- The loop over the objects of a media request; a buffer that user space filled has the time of
-- the end of the frame.
unfoldable pub complete_objects : Req → BufState → ℕ → List ReqObject → Cam → Run
unfolding complete
complete_objects req state ts_eof [] c = some c
complete_objects req state ts_eof (other_object ∷ os) c = complete_objects req state ts_eof os c
complete_objects req state ts_eof (buffer ref ∷ os) c =
    (complete ref state req.frame_seq_no
      (if type_is_output (node_desc ref.node).buf_type then ts_eof else req.timestamp) c)
    >>= complete_objects req state ts_eof os

-- `mtk_cam_dev_job_done`; `ts_eof` is what `ktime_get_ns` answers.
unfoldable pub mtk_cam_dev_job_done : Req → BufState → ℕ → Cam → Run
unfolding complete_objects
mtk_cam_dev_job_done req state ts_eof c =
    if not c.streaming
    then some c
    else if req.synthetic
    then (elim req.sbuf [
      | none ↦ some c
      | some ref ↦ complete ref state req.frame_seq_no req.timestamp c
    ])
    else complete_objects req state ts_eof req.objects c

-- `kfree` of a request that the driver made itself.
abbrev pub free_synthetic : Req → Cam → Cam
free_synthetic req c = if req.synthetic then emit (kfree req.id) c else c

-- One round of the loop below: the count falls, the buffers go back, the job leaves the list, on
-- which `rest` stays.
unfoldable pub retire : Req → List Req → BufState → ℕ → Cam → Run
unfolding mtk_cam_dev_job_done
retire req rest state ts_eof c =
    (mtk_cam_dev_job_done req state ts_eof
      (record c { running_job_count = dec32 c.running_job_count }))
    >>= λ d. some (free_synthetic req (record d { running_job_list = rest }))

-- The loop of `mtk_cam_dev_dequeue_req_frame` over what is left of the running jobs. `ts_eof` is
-- the time of each round.
unfoldable pub dequeue_loop : ℕ → (ℕ → ℕ) → List Req → Cam → Run
unfolding retire
dequeue_loop frame_seq_no ts_eof [] c = some c
dequeue_loop frame_seq_no ts_eof (req ∷ rest) c =
    let dropped =
      retire req rest state_error (ts_eof req.frame_seq_no) c
      >>= dequeue_loop frame_seq_no ts_eof rest in
    if req.frame_seq_no == frame_seq_no
    then retire req rest state_done (ts_eof req.frame_seq_no) c
    else if ltb req.frame_seq_no frame_seq_no
    then dropped
    else some c

unfoldable pub mtk_cam_dev_dequeue_req_frame : ℕ → (ℕ → ℕ) → Cam → Run
unfolding dequeue_loop
mtk_cam_dev_dequeue_req_frame frame_seq_no ts_eof c =
    dequeue_loop frame_seq_no ts_eof c.running_job_list c

-- `mtk_cam_dev_get_req`, as the position of the job: its pointer is written through by the caller.
unfoldable pub mtk_cam_dev_get_req : ℕ → List Req → Option Req
mtk_cam_dev_get_req frame_seq_no [] = none
mtk_cam_dev_get_req frame_seq_no (req ∷ rest) =
    if req.frame_seq_no == frame_seq_no then some req else mtk_cam_dev_get_req frame_seq_no rest

-- `req->timestamp = …` through the pointer that `mtk_cam_dev_get_req` finds.
unfoldable pub stamp_req : ℕ → ℕ → List Req → List Req
stamp_req frame_seq_no now [] = []
stamp_req frame_seq_no now (req ∷ rest) =
    if req.frame_seq_no == frame_seq_no
    then record req { timestamp = now } ∷ rest
    else req ∷ stamp_req frame_seq_no now rest

unfoldable pub free_all : List Req → Cam → Cam
free_all [] c = c
free_all (req ∷ rest) c = free_all rest (free_synthetic req c)

-- `mtk_cam_dev_req_cleanup`; it leaves `running_job_count` alone.
unfoldable pub mtk_cam_dev_req_cleanup : Cam → Cam
unfolding free_all
mtk_cam_dev_req_cleanup c =
    free_all c.running_job_list
      (free_all c.pending_job_list (record c { pending_job_list = []; running_job_list = [] }))

-- `mtk_isp_req_enqueue`: the next frame number, and a work for the composer. The job is the last of
-- the running ones, where the number is written. `queue_work` takes `composer_wq`, which has to be
-- there: Cam.Stream looks whether it is when the stream starts.
unfoldable pub mtk_isp_req_enqueue : Req → Cam → Req × Cam
mtk_isp_req_enqueue req c =
    let n = u32 (c.p1.enqueued_frame_seq_no + 1) in
    let numbered = record req { frame_seq_no = n } in
    (
      numbered,
      record c {
        p1 = record (c.p1) { enqueued_frame_seq_no = n };
        works = c.works ++ numbered ∷ [];
      },
    )

-- One round of the loop below: the job moves from the pending to the running list.
unfoldable pub start_job : Req → List Req → Cam → Cam
unfolding mtk_isp_req_enqueue
start_job req rest c =
    let (numbered, d) = mtk_isp_req_enqueue req c in
    record d {
      running_job_count = u32 (c.running_job_count + 1);
      pending_job_list = rest;
      running_job_list = c.running_job_list ++ numbered ∷ [];
    }

unfoldable pub queue_loop : List Req → Cam → Cam
unfolding start_job
queue_loop [] c = c
queue_loop (req ∷ rest) c =
    let next = queue_loop rest (start_job req rest c) in
    if leb max_running_jobs c.running_job_count then c else next

unfoldable pub mtk_cam_dev_req_try_queue : Cam → Cam
unfolding queue_loop
mtk_cam_dev_req_try_queue c = if not c.streaming then c else queue_loop c.pending_job_list c

-- `isp_tx_frame_worker`, run on the oldest work of the composer's queue.
unfoldable pub isp_tx_frame_worker : Cam → Cam
isp_tx_frame_worker c = run c.works
  where
    run : List Req → Cam
    run [] = c
    run (req ∷ rest) =
        emit (ipi_send (frame req.frame_seq_no req.dma_bufs)) (record c { works = rest })

-- The driver's part of `mtk_cam_req_queue`, behind `vb2_request_queue`: the request goes to the end
-- of the pending jobs.
unfoldable pub add_pending : Req → Cam → Cam
add_pending req c = record c { pending_job_list = c.pending_job_list ++ req ∷ [] }
