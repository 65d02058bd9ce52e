-- ===== src/Cam/Interrupt.antt =====
-- What one interrupt, `isp_irq_cam`, keeps: the invariant of the jobs, and each buffer of a running
-- job on its node's list.
use mathlib.Core.Path.{subst}
use mathlib.Core.List.{append_assoc}
use mt8183_kukui_pmos.Prelude.{
  leb, ℕ, ◌-◌, ◌≡◌, refl, sym, arith, Bool, true, false, ◌&&◌, List, ◌∷◌, ◌++◌, if◌then◌else◌, some,
  length, length-take-drop, take, drop, Bool-cases, inl, inr,
}
use mt8183_kukui_pmos.Cam.State.{emit, frame_sync, write_reg, Run, Cam, NodeMap, Buf, Req, Event}
use mt8183_kukui_pmos.Cam.Jobs.{
  max_running_jobs, stamp_req, mtk_cam_dev_dequeue_req_frame, mtk_cam_dev_req_try_queue,
}
use mt8183_kukui_pmos.Cam.Buffers.{MetaNode, meta0, meta1, mtk_cam_dev_dequeue_frame}
use mt8183_kukui_pmos.Cam.Irq.{
  cq_address, reg_cq_thr0_baseaddr, saved_frame, reg_ctl_raw_int_en, clear_bit, dma_err_int_en,
  sof_int_st, dma_err_st, sw_pass1_don_st, Inputs, bit, fbc_cnt, sw_pass1_done, meta_done,
  isp_irq_handle_event, isp_irq_handle_sof, isp_irq_handle_dma_err, isp_irq_cam, hw_pass1_don_st,
  aao_done_st, afo_done_st,
}
use mt8183_kukui_pmos.Cam.Queueing.{
  started-Jobs, number, started, mtk_cam_dev_req_try_queue-started,
}
use mt8183_kukui_pmos.Cam.Completion.{without, without_total}
use mt8183_kukui_pmos.Cam.Capturing.{
  NotMeta, Capturing, dequeue_frame-MetaOnly, Capturing-MetaOnly, jobs_refs-append,
  take-append-drop, All-append-right, jobs_refs-number-split, Tracked-append-left, length-stamp_req,
  Numbered-stamp_req, jobs_refs-stamp_req,
}
use mt8183_kukui_pmos.Cam.Dequeue.{
  jobs_refs, retired, mtk_cam_dev_dequeue_req_frame-Retires, retired-Jobs,
}

Capturing-if : (b : Bool) (c d : Cam) → Capturing c → Capturing d → Capturing (if b then d else c)
Capturing-if true c d k l = l
Capturing-if false c d k l = k

-- The meta buffers that an event gives back change nothing that the invariants speak of.
after_meta :
    (m : MetaNode) (fbc now frame seq_no : ℕ) (c : Cam)
    → Capturing c
    → Capturing (mtk_cam_dev_dequeue_frame m fbc now frame seq_no c)
after_meta m fbc now frame seq_no c k =
    Capturing-MetaOnly c (mtk_cam_dev_dequeue_frame m fbc now frame seq_no c) k
      (dequeue_frame-MetaOnly m fbc now frame seq_no c)

meta_done-Capturing : (i : Inputs) (c : Cam) → Capturing c → Capturing (meta_done i c)
unfolding meta_done
meta_done-Capturing i c k =
    let first =
      mtk_cam_dev_dequeue_frame meta0 (fbc_cnt i.aao_fbc_hw) i.now c.p1.dequeued_frame_seq_no
        c.p1.dequeued_meta0 c in
    let b = bit hw_pass1_don_st i.int_stat && bit aao_done_st i.int2_stat in
    let d = if b then first else c in
    let dk = Capturing-if b c first k (
      after_meta meta0 (fbc_cnt i.aao_fbc_hw) i.now c.p1.dequeued_frame_seq_no c.p1.dequeued_meta0 c
        k) in
    Capturing-if (bit afo_done_st i.int2_stat) d
      (mtk_cam_dev_dequeue_frame meta1 (fbc_cnt i.afo_fbc) i.now d.p1.dequeued_frame_seq_no
        d.p1.dequeued_meta1 d)
      dk
      (after_meta meta1 (fbc_cnt i.afo_fbc) i.now d.p1.dequeued_frame_seq_no d.p1.dequeued_meta1 d
        dk)

-- The jobs of a state, and those that stay when the first `k` running ones go.
jobs_refs-split :
    (k : ℕ) (running pending : List Req)
    → jobs_refs (running ++ pending)
      ≡ jobs_refs (take k running) ++ jobs_refs (drop k running ++ pending)
jobs_refs-split k running pending =
    let e = take-append-drop k running in
    let a = append_assoc (take k running) (drop k running) pending in
    cc (e, a, jobs_refs-append (take k running) (drop k running ++ pending))

retired-Capturing :
    (c : Cam) (n k : ℕ) (ts_eof : ℕ → ℕ) (lists : NodeMap (List Buf))
    → Capturing c
    → without c.buf_list (jobs_refs (take k c.running_job_list)) ≡ some lists
    → Capturing (retired n ts_eof (take k c.running_job_list) (drop k c.running_job_list) lists c)
retired-Capturing c n k ts_eof lists h gone =
    let e = jobs_refs-split k c.running_job_list c.pending_job_list in
    let rest = jobs_refs (drop k c.running_job_list ++ c.pending_job_list) in
    let (left, out, kept) =
      without_total c.buf_list (jobs_refs (take k c.running_job_list)) rest (rw e at h.tracked) in
    let same : left ≡ lists = ground (arith, out, gone) in
    record {
      jobs = retired-Jobs c n k ts_eof lists h.jobs;
      streaming = h.streaming;
      tracked = rw same at kept;
      no_meta =
          All-append-right NotMeta (jobs_refs (take k c.running_job_list)) rest (rw e at h.no_meta);
      room = h.room;
    }

started-Capturing :
    (c : Cam)
    → Capturing c
    → Capturing (started (max_running_jobs - length c.running_job_list) c.pending_job_list c)
started-Capturing c h =
    let free = max_running_jobs - length c.running_job_list in
    let ps = c.pending_job_list in
    let n = c.p1.enqueued_frame_seq_no in
    let e : jobs_refs ((c.running_job_list ++ number n (take free ps)) ++ drop free ps)
        ≡ jobs_refs (c.running_job_list ++ ps) =
      jobs_refs-number-split c.running_job_list ps free n in
    record {
      jobs = started-Jobs c h.jobs;
      streaming = h.streaming;
      tracked = rw e h.tracked;
      no_meta = rw e h.no_meta;
      room = omega (arith, h.room, length-take-drop {0} free ps);
    }

pub try_queue-Capturing : (c : Cam) → Capturing c → Capturing (mtk_cam_dev_req_try_queue c)
try_queue-Capturing c h =
    subst Capturing (sym (mtk_cam_dev_req_try_queue-started c h.jobs h.streaming h.room))
      (started-Capturing c h)

-- A run that is defined, and whose result captures.
abbrev Captures : Run → Type 0
Captures out = (d : Cam) × (out ≡ some d) × Capturing d

dequeue-Captures :
    (c : Cam) (n : ℕ) (ts_eof : ℕ → ℕ)
    → Capturing c
    → Captures (mtk_cam_dev_dequeue_req_frame n ts_eof c)
dequeue-Captures c n ts_eof h =
    let tracked =
      Tracked-append-left c.buf_list (jobs_refs c.running_job_list) (jobs_refs c.pending_job_list)
        (rw (jobs_refs-append c.running_job_list c.pending_job_list) at h.tracked) in
    let (lists, out, gone, _) =
      mtk_cam_dev_dequeue_req_frame-Retires c n ts_eof h.jobs h.streaming tracked in
    let k = n - h.jobs.first in
    (
      retired n ts_eof (take k c.running_job_list) (drop k c.running_job_list) lists c,
      out,
      retired-Capturing c n k ts_eof lists h gone,
    )

handle_event-Captures : (i : Inputs) (c : Cam) → Capturing c → Captures (isp_irq_handle_event i c)
unfolding isp_irq_handle_event sw_pass1_done
handle_event-Captures i c h =
    let d = meta_done i c in
    let dk = meta_done-Capturing i c h in
    let f =
      mtk_cam_dev_dequeue_frame meta0 (fbc_cnt i.aao_fbc_sw) i.now d.p1.dequeued_frame_seq_no
        d.p1.dequeued_meta0 d in
    let fk =
      after_meta meta0 (fbc_cnt i.aao_fbc_sw) i.now d.p1.dequeued_frame_seq_no d.p1.dequeued_meta0 d
        dk in
    let (g, out, gk) = dequeue-Captures f d.p1.dequeued_frame_seq_no i.ts_eof fk in
    elim (Bool-cases (bit sw_pass1_don_st i.int_stat)) [
      | inl e ↦ (mtk_cam_dev_req_try_queue g, rw (e, out), try_queue-Capturing g gk)
      | inr e ↦ (d, rw e, dk)
    ]

-- An event in the log changes nothing that the invariants speak of.
emit-Capturing : (e : Event) (c : Cam) → Capturing c → Capturing (emit e c)
emit-Capturing e c h =
    Capturing-MetaOnly c (emit e c) h (c.buf_list, e ∷ c.log, refl, λ n far. refl)

-- The state when the frame is saved and its job has its time.
abbrev stamped : Inputs → Cam → Cam
stamped i c = record c {
  p1 = saved_frame i c.p1;
  running_job_list = stamp_req i.frame_seq_num i.now c.running_job_list;
  log = frame_sync i.frame_seq_num ∷ c.log;
}

stamped-Capturing : (i : Inputs) (c : Cam) → Capturing c → Capturing (stamped i c)
stamped-Capturing i c h =
    let rs = stamp_req i.frame_seq_num i.now c.running_job_list in
    let same = length-stamp_req i.frame_seq_num i.now c.running_job_list in
    let e : jobs_refs (rs ++ c.pending_job_list)
        ≡ jobs_refs (c.running_job_list ++ c.pending_job_list) =
      cc (
        jobs_refs-append rs c.pending_job_list,
        jobs_refs-append c.running_job_list c.pending_job_list,
        jobs_refs-stamp_req i.frame_seq_num i.now c.running_job_list,
      ) in
    record {
      jobs = record {
        first = h.jobs.first;
        counted = omega (arith, same, h.jobs.counted);
        bounded = omega (arith, same, h.jobs.bounded);
        numbered =
            Numbered-stamp_req h.jobs.first i.frame_seq_num i.now c.running_job_list
              h.jobs.numbered;
        last = omega (arith, same, h.jobs.last);
      };
      streaming = h.streaming;
      tracked = rw e h.tracked;
      no_meta = rw e h.no_meta;
      room = h.room;
    }

sof-Capturing : (i : Inputs) (c : Cam) → Capturing c → Capturing (isp_irq_handle_sof i c)
unfolding isp_irq_handle_sof
sof-Capturing i c h = elim (Bool-cases (leb c.p1.composed_frame_seq_no i.frame_seq_num)) [
  | inl late ↦ rw late (stamped-Capturing i c h)
  | inr early ↦ rw early (
      emit-Capturing
        (write_reg reg_cq_thr0_baseaddr (cq_address c.p1.composer_iova i.frame_seq_num))
        (stamped i c) (stamped-Capturing i c h))
]

dma_err-Capturing : (i : Inputs) (c : Cam) → Capturing c → Capturing (isp_irq_handle_dma_err i c)
unfolding isp_irq_handle_dma_err
dma_err-Capturing i c h =
    emit-Capturing (write_reg reg_ctl_raw_int_en (clear_bit dma_err_int_en i.int_en)) c h

-- An interrupt with any registers, on a streaming device that satisfies the invariant of the jobs,
-- whose jobs hold buffers on their nodes' lists, each once and of no meta node, and whose pending
-- jobs can be numbered without overflow: `isp_irq_cam` does nothing undefined, so every `list_del`
-- is of an entry on its list, and all of this holds of the state that it leaves.
pub isp_irq_cam-Capturing :
    (i : Inputs) (c : Cam) → Capturing c → (d : Cam) × (isp_irq_cam i c ≡ some d) × Capturing d
unfolding isp_irq_cam
isp_irq_cam-Capturing i c h =
    let (d, out, dk) = handle_event-Captures i c h in
    let b = bit sof_int_st i.int_stat in
    let e = if b then isp_irq_handle_sof i d else d in
    let ek = Capturing-if b d (isp_irq_handle_sof i d) dk (sof-Capturing i d dk) in
    (
      if bit dma_err_st i.int_stat then isp_irq_handle_dma_err i e else e,
      rw out,
      Capturing-if (bit dma_err_st i.int_stat) e (isp_irq_handle_dma_err i e) ek
          (dma_err-Capturing i e ek),
    )
