-- ===== src/Cam/Histories.antt =====
-- Requests, starts, sessions and stops of camera/driver/cam, one after the other.
use mathlib.Core.Path.{subst}
use mt8183_kukui_pmos.Prelude.{
  false, ◌≡◌, refl, sym, ap, ◌∙◌, arith, true, not, if◌then◌else◌, List, [], ◌∷◌, ◌++◌, some, none,
  length-append, All,
}
use mt8183_kukui_pmos.Format.Nodes.{NodeId}
use mt8183_kukui_pmos.Cam.State.{Cam, Req}
use mt8183_kukui_pmos.Cam.Jobs.{add_pending, queue_loop, mtk_cam_dev_req_try_queue}
use mt8183_kukui_pmos.Cam.Irq.{Inputs, isp_irq_cam}
use mt8183_kukui_pmos.Cam.Stream.{Answers, mtk_cam_vb2_start_streaming}
use mt8183_kukui_pmos.Cam.Completion.{Tracked}
use mt8183_kukui_pmos.Cam.Dequeue.{jobs_refs}
use mt8183_kukui_pmos.Cam.Capturing.{NotMeta, jobs_refs-append}
use mt8183_kukui_pmos.Cam.Interrupt.{isp_irq_cam-Capturing}
use mt8183_kukui_pmos.Cam.Queueing.{Jobs}
use mt8183_kukui_pmos.Cam.Stopping.{Stopped, mtk_cam_vb2_stop_streaming-Stopped}
use mt8183_kukui_pmos.Cam.Listed.{
  Tracked-IsListed, IsListed-Tracked, with_buffers, with_buffers-IsListed, queue_buffers_kept,
  hand_over_lem, with_buffers-append, All-append,
}
use mt8183_kukui_pmos.Cam.Session.{
  Queued, refs, mtk_cam_req_queue, hand_over, IsNew, SessionReaches, History, none_yet, request,
  session,
}
use mt8183_kukui_pmos.Cam.Sessions.{job_refs-objects_of, with_request, SessionReaches-Capturing}
use mt8183_kukui_pmos.Cam.Restarted.{Waiting, mtk_cam_vb2_start_streaming-Capturing}

with_request-Waiting :
    (qs : List Queued) (req asked : Req) (c : Cam)
    → Waiting c
    → jobs_refs (req ∷ []) ≡ refs qs
    → IsNew qs asked c
    → Waiting (with_request qs req c)
unfolding with_request
with_request-Waiting qs req asked c w own new =
    let old = jobs_refs c.pending_job_list in
    let split : jobs_refs (c.pending_job_list ++ req ∷ []) ≡ old ++ refs qs =
      jobs_refs-append c.pending_job_list (req ∷ []) ∙ ap (λ rs. old ++ rs) own in
    let lists = with_buffers qs c.buf_list in
    let listed =
      with_buffers-IsListed qs c.buf_list old (Tracked-IsListed c.buf_list old w.tracked) in
    record {
      not_streaming = w.not_streaming;
      no_pipeline = w.no_pipeline;
      no_running = w.no_running;
      tracked =
          subst (Tracked lists) (sym split)
            (IsListed-Tracked lists (old ++ refs qs) listed (rw (w.no_running) at new.apart));
      no_meta =
          subst (All NotMeta) (sym split) (All-append NotMeta old (refs qs) w.no_meta new.no_meta);
      room = omega (arith, new.room, length-append {0} c.pending_job_list (req ∷ []));
    }

-- A device that waits, but for the buffers that the node's queue keeps back.
abbrev pub KeptBack : List Queued → Cam → Type 0
KeptBack held c = Waiting (record c { buf_list = with_buffers held c.buf_list })

mtk_cam_req_queue-KeptBack :
    (held qs : List Queued) (req : Req) (c : Cam)
    → IsNew qs req c
    → KeptBack held c
    → KeptBack (held ++ qs) (mtk_cam_req_queue (λ n. false) qs req c)
unfolding mtk_cam_req_queue mtk_cam_dev_req_try_queue with_request add_pending
mtk_cam_req_queue-KeptBack held qs req c new w =
    let own = job_refs-objects_of qs req new.own new.objects in
    let listed = record c { buf_list = with_buffers held c.buf_list } in
    let ready = with_request-Waiting qs req req listed w own (record {
      own = new.own;
      objects = new.objects;
      apart = new.apart;
      no_meta = new.no_meta;
      room = new.room;
    }) in
    let waits = record c { pending_job_list = c.pending_job_list ++ req ∷ [] } in
    rw (queue_buffers_kept qs req c) (
      subst
        (λ b.
          KeptBack (held ++ qs) (if not b then waits else queue_loop waits.pending_job_list waits))
        (sym w.not_streaming) (rw (with_buffers-append held qs c.buf_list) ready))

-- The queue hands its buffers over.
hand_over-Waiting : (held : List Queued) (c : Cam) → KeptBack held c → Waiting (hand_over held c)
hand_over-Waiting held c w =
    let (ps, e, same, size) = hand_over_lem held c in
    rw e (record {
      not_streaming = w.not_streaming;
      no_pipeline = w.no_pipeline;
      no_running = w.no_running;
      tracked = rw same (w.tracked);
      no_meta = rw same (w.no_meta);
      room = rw size (w.room);
    })

Stopped-Waiting : (node : NodeId) (c d : Cam) → Stopped node c d → Waiting d
Stopped-Waiting node c d s = record {
  not_streaming = s.not_streaming;
  no_pipeline = rw (s.held) refl;
  no_running = s.no_running;
  tracked = rw (s.no_pending) tt;
  no_meta = rw (s.no_pending) tt;
  room = rw (s.no_pending) (omega arith);
}

History-KeptBack :
    (node : NodeId) (c : Cam) (held : List Queued) (d : Cam)
    → History node c held d
    → Waiting c
    → KeptBack held d
History-KeptBack node c held d (none_yet _ _) w = w
History-KeptBack node c held d (request _ before qs req _ e past own new) w =
    mtk_cam_req_queue-KeptBack before qs req e new (History-KeptBack node c before e past w)
History-KeptBack node c held g
      (session _ a b before _ d e f _ past wq on streams reached one single wq1 s t off) w =
    let ready = hand_over-Waiting before d (History-KeptBack node c before d past w) in
    let captures =
      SessionReaches-Capturing node e f reached
        (mtk_cam_vb2_start_streaming-Capturing a node (hand_over before d) e ready on streams) in
    let (h, out, stopped) =
      mtk_cam_vb2_stop_streaming-Stopped b node f one single captures.streaming wq1 s t in
    let same : h ≡ g = cc in subst Waiting same (Stopped-Waiting node f h stopped)

-- The life of a device of which one node is used, from a state in which it does not stream and each
-- buffer of a pending job is on its node's list, held once and of no meta node: requests of the node's
-- buffers are queued, which the node's queue keeps back, and whole sessions run; then the queue hands
-- its buffers over and `mtk_cam_vb2_start_streaming`, with a work queue, returns 0 with the device
-- streaming, and requests of the node's buffers, the composer's work, its answers and interrupts come in
-- any order. Each request's buffers are new to the driver and of no meta node, its frame number does not
-- wrap, and sensor and seninf obey the stop of each session before. Then the next interrupt, with any
-- registers, does nothing undefined: each buffer it gives back is on its list; and in the state before
-- it and after it at most three jobs run, which the counter counts and whose frame numbers are
-- consecutive, up to the last number given out.
pub History-isp_irq_cam :
    (a : Answers) (i : Inputs) (node : NodeId) (held : List Queued) (start c d e : Cam)
    → Waiting start
    → History node start held c
    → a.workqueue ≡ true
    → mtk_cam_vb2_start_streaming a true node (hand_over held c) ≡ some (d, none)
    → d.streaming ≡ true
    → SessionReaches node d e
    → Jobs e × ((f : Cam) × (isp_irq_cam i e ≡ some f) × Jobs f)
History-isp_irq_cam a i node held start c d e w past wq on streams reached =
    let ready = hand_over-Waiting held c (History-KeptBack node start held c past w) in
    let captures =
      SessionReaches-Capturing node d e reached
        (mtk_cam_vb2_start_streaming-Capturing a node (hand_over held c) d ready on streams) in
    let (f, out, later) = isp_irq_cam-Capturing i e captures in
    (captures.jobs, (f, out, later.jobs))
