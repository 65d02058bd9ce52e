-- ===== src/Cam/Sessions.antt =====
-- The invariant of the interrupt over a session of camera/driver/cam: requests, works, answers and interrupts in any
-- order.
use mathlib.Core.List.{append_assoc, append-nil}
use mt8183_kukui_pmos.Prelude.{
  ℕ, ◌^◌, ◌+◌, ◌<◌, ◌≡◌, refl, sym, ap, subst, ◌∙◌, arith, false, ◌==◌, ◌&&◌, leb, ◌⊎◌, Bool-cases,
  inl, inr, List, [], ◌∷◌, ◌++◌, length, length-append, All,
}
use mt8183_kukui_pmos.Format.Nodes.{NodeId}
use mt8183_kukui_pmos.Cam.State.{Cam, same_node, Req, Event, ipi_send, frame}
use mt8183_kukui_pmos.Cam.Jobs.{add_pending, isp_tx_frame_worker}
use mt8183_kukui_pmos.Cam.Irq.{ack_len, isp_cmd_ack, isp_cmd_frame_ack, isp_composer_handler}
use mt8183_kukui_pmos.Cam.Completion.{Tracked}
use mt8183_kukui_pmos.Cam.Dequeue.{jobs_refs}
use mt8183_kukui_pmos.Cam.Capturing.{NotMeta, Capturing, jobs_refs-append}
use mt8183_kukui_pmos.Cam.Interrupt.{try_queue-Capturing, isp_irq_cam-Capturing}
use mt8183_kukui_pmos.Cam.Listed.{
  Tracked-IsListed, IsListed-Tracked, with_buffers, with_buffers-IsListed, queue_buffers_lem,
  object_refs-objects_of, All-append,
}
use mt8183_kukui_pmos.Cam.Session.{
  Queued, refs, objects_of, mtk_cam_req_queue, Apart, IsNew, IsOf, Step, queue_request, send_frame,
  composer_answer, interrupt, SessionReaches, here, after,
}

pub job_refs-objects_of :
    (qs : List Queued) (req : Req)
    → req.synthetic ≡ false
    → req.objects ≡ objects_of qs
    → jobs_refs (req ∷ []) ≡ refs qs
job_refs-objects_of qs req own objects =
    rw (own, objects, object_refs-objects_of qs) (append-nil (refs qs))

-- The state before the pending jobs are looked at.
unfoldable pub with_request : List Queued → Req → Cam → Cam
with_request qs req c = record c {
  buf_list = with_buffers qs c.buf_list;
  pending_job_list = c.pending_job_list ++ req ∷ [];
}

with_request-Capturing :
    (qs : List Queued) (req : Req) (c : Cam)
    → Capturing c
    → req.synthetic ≡ false
    → req.objects ≡ objects_of qs
    → Apart (jobs_refs (c.running_job_list ++ c.pending_job_list) ++ refs qs)
    → All NotMeta (refs qs)
    → c.p1.enqueued_frame_seq_no + (length c.pending_job_list + 1) < 2 ^ 32
    → Capturing (with_request qs req c)
unfolding with_request
with_request-Capturing qs req c h own objects apart no_meta room =
    let old = c.running_job_list ++ c.pending_job_list in
    let split : jobs_refs (c.running_job_list ++ (c.pending_job_list ++ req ∷ []))
        ≡ jobs_refs old ++ refs qs =
      ap jobs_refs (sym (append_assoc c.running_job_list c.pending_job_list (req ∷ [])))
      ∙ (jobs_refs-append old (req ∷ [])
          ∙ ap (λ rs. jobs_refs old ++ rs) (job_refs-objects_of qs req own objects)) in
    let lists = with_buffers qs c.buf_list in
    let listed =
      with_buffers-IsListed qs c.buf_list (jobs_refs old)
        (Tracked-IsListed c.buf_list (jobs_refs old) h.tracked) in
    record {
      jobs = record {
        first = h.jobs.first;
        counted = h.jobs.counted;
        bounded = h.jobs.bounded;
        numbered = h.jobs.numbered;
        last = h.jobs.last;
      };
      streaming = h.streaming;
      tracked =
          subst (Tracked lists) (sym split)
            (IsListed-Tracked lists (jobs_refs old ++ refs qs) listed apart);
      no_meta =
          subst (All NotMeta) (sym split)
            (All-append NotMeta (jobs_refs old) (refs qs) h.no_meta no_meta);
      room = omega (arith, room, length-append {0} c.pending_job_list (req ∷ []));
    }

mtk_cam_req_queue-Capturing :
    (node : NodeId) (qs : List Queued) (req : Req) (c : Cam)
    → All (IsOf node) qs
    → IsNew qs req c
    → Capturing c
    → Capturing (mtk_cam_req_queue (same_node node) qs req c)
unfolding mtk_cam_req_queue with_request add_pending
mtk_cam_req_queue-Capturing node qs req c own new h =
    let (dma, e) = queue_buffers_lem (same_node node) qs req c own in
    let filled : Req = record req { dma_bufs = dma } in
    let ready =
      with_request-Capturing qs filled c h new.own new.objects new.apart new.no_meta new.room in
    rw e (try_queue-Capturing (with_request qs filled c) ready)

-- A state that differs in the composer's works, its last answer and the log only.
Capturing-composer :
    (c : Cam) (n : ℕ) (works : List Req) (log : List Event)
    → Capturing c
    → Capturing
        (record c { works = works; log = log; p1 = record (c.p1) { composed_frame_seq_no = n } })
Capturing-composer c n works log h = record {
  jobs = record {
    first = h.jobs.first;
    counted = h.jobs.counted;
    bounded = h.jobs.bounded;
    numbered = h.jobs.numbered;
    last = h.jobs.last;
  };
  streaming = h.streaming;
  tracked = h.tracked;
  no_meta = h.no_meta;
  room = h.room;
}

worked-Capturing : (c : Cam) → Capturing c → Capturing (isp_tx_frame_worker c)
unfolding isp_tx_frame_worker
worked-Capturing c h = elim (works-cases c.works) [
  | inl e ↦ rw e (Capturing-composer c c.p1.composed_frame_seq_no [] c.log h)
  | inr (r, rest, e) ↦ rw e (
      Capturing-composer c c.p1.composed_frame_seq_no rest
        (ipi_send (frame r.frame_seq_no r.dma_bufs) ∷ c.log) h)
]
  where
    works-cases : (rs : List Req) → (rs ≡ []) ⊎ ((r : Req) × (rest : List Req) × (rs ≡ r ∷ rest))
    works-cases [] = inl refl
    works-cases (r ∷ rest) = inr (r, rest, refl)

answered-Capturing :
    (len cmd_id ack_cmd_id n : ℕ) (c : Cam)
    → Capturing c
    → Capturing (isp_composer_handler len cmd_id ack_cmd_id n c)
unfolding isp_composer_handler
answered-Capturing len cmd_id ack_cmd_id n c h =
    elim (Bool-cases
      (leb ack_len len && (cmd_id == isp_cmd_ack && ack_cmd_id == isp_cmd_frame_ack))) [
        | inl e ↦ rw e (Capturing-composer c n c.works c.log h)
        | inr e ↦ rw e h
      ]

Step-Capturing : (node : NodeId) (c d : Cam) → Step node c d → Capturing c → Capturing d
Step-Capturing node c d (queue_request _ qs req _ own new) h =
    mtk_cam_req_queue-Capturing node qs req c own new h
Step-Capturing node c d (send_frame _ _) h = worked-Capturing c h
Step-Capturing node c d (composer_answer _ len cmd_id ack_cmd_id n _) h =
    answered-Capturing len cmd_id ack_cmd_id n c h
Step-Capturing node c d (interrupt _ i _ _ out) h =
    let (e, defined, captures) = isp_irq_cam-Capturing i c h in
    let same : e ≡ d = cc in subst Capturing same captures

pub SessionReaches-Capturing :
    (node : NodeId) (c d : Cam) → SessionReaches node c d → Capturing c → Capturing d
SessionReaches-Capturing node c d (here _ _) h = h
SessionReaches-Capturing node c e (after _ _ d _ reached step) h =
    Step-Capturing node d e step (SessionReaches-Capturing node c d reached h)
