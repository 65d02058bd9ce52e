-- ===== src/Cam/Restarted.antt =====
-- Stops and starts of camera/driver/cam: what a stop leaves is what the next start needs.
use mt8183_kukui_pmos.Prelude.{
  ◌^◌, ◌+◌, ◌<◌, ◌≡◌, refl, ap, arith, Bool, true, false, ltb, u32, if◌then◌else◌, Option-cases,
  Bool-cases, ◌⊎◌, inl, inr, [], Option, some, none, length, All,
}
use mt8183_kukui_pmos.Uapi.{Errno}
use mt8183_kukui_pmos.Format.Nodes.{NodeId}
use mt8183_kukui_pmos.Cam.State.{Cam, Held, ◌>>=◌}
use mt8183_kukui_pmos.Cam.Jobs.{dec32}
use mt8183_kukui_pmos.Cam.Configure.{mtk_cam_dev_init_stream}
use mt8183_kukui_pmos.Cam.Stream.{
  Returned, Answers, mtk_cam_cio_stream_on, mtk_cam_sd_s_stream, mtk_isp_hw_init, isp_composer_init,
  hw_ready, pipeline_held, start_failed, start_node, start_queued, mtk_cam_vb2_start_streaming,
}
use mt8183_kukui_pmos.Cam.Completion.{Tracked}
use mt8183_kukui_pmos.Cam.Dequeue.{jobs_refs}
use mt8183_kukui_pmos.Cam.Capturing.{NotMeta, Capturing}
use mt8183_kukui_pmos.Cam.Fresh.{Fresh, mtk_cam_cio_stream_on-Capturing}

-- A device that does not stream, with requests that wait for a start.
pub record Waiting (c : Cam) : Type 0 where
  pub not_streaming : c.streaming ≡ false
  pub no_pipeline : c.held.pipeline ≡ false
  pub no_running : c.running_job_list ≡ []
  pub tracked : Tracked c.buf_list (jobs_refs c.pending_job_list)
  pub no_meta : All NotMeta (jobs_refs c.pending_job_list)
  pub room : length c.pending_job_list < 2 ^ 32

-- `mtk_isp_hw_init` fails, or gives what it holds and new counters.
hw_init-cases :
    (a : Answers) (c : Cam)
    → ((d : Cam) × (e : Errno) × (mtk_isp_hw_init a c ≡ (d, some e)))
      ⊎ ((h : Held) × (mtk_isp_hw_init a c ≡ (hw_ready (record c { held = h }), none))
          × (h.pipeline ≡ c.held.pipeline))
unfolding mtk_isp_hw_init isp_composer_init
hw_init-cases a c =
    let booted = record (c.held) { rproc = c.held.rproc + 1 } in
    elim (Option-cases a.rproc_boot) [
      | inr (e, boot) ↦ rw boot (inl (c, e, refl))
      | inl boot ↦ elim (Option-cases a.register_cmd) [
        | inr (e, cmd) ↦ rw (boot, cmd) (inl (record c { held = booted }, e, refl))
        | inl cmd ↦ elim (Option-cases a.register_frame) [
          | inr (e, frame) ↦
              rw (boot, cmd, frame)
                (inl (record c { held = record booted { ipi_cmd = false } }, e, refl))
          | inl frame ↦ elim (Bool-cases a.workqueue) [
            | inl wq ↦
                rw (boot, cmd, frame, wq)
                  (inr (
                    record booted { ipi_cmd = true; ipi_frame = true; composer_wq = true },
                    refl,
                    refl,
                  ))
            | inr wq ↦
                rw (boot, cmd, frame, wq)
                  (inr (
                    record booted { ipi_cmd = false; ipi_frame = false; composer_wq = false },
                    refl,
                    refl,
                  ))
          ]
        ]
      ]
    ]

-- The end of a start: the subdevice streams already, or is started.
finish :
    (node : NodeId) (streaming : Bool) (c : Cam) (out : Returned) (d : Cam)
    → streaming ≡ false
    → ((e : Cam) → out ≡ some (e, none) → Capturing e)
    → ◌>>=◌ {B = Cam × Option Errno} (if streaming then some (c, none) else out) (λ (f, ret).
      elim ret [
        | none ↦ some (f, none)
        | some e ↦ some (start_failed node e (record f { stream_count = dec32 f.stream_count }))
      ])
      ≡ some (d, none)
    → Capturing d
unfolding start_failed
finish node true c out d off k h = absurd (ground arith)
finish node false c none d off k h = absurd (ground arith)
finish node false c (some (f, some e)) d off k h = absurd (ground arith)
finish node false c (some (f, none)) d off k h = k d h

start_node-Capturing :
    (a : Answers) (node : NodeId) (c d : Cam)
    → Fresh c
    → c.streaming ≡ false
    → start_node a node c ≡ some (d, none)
    → d.streaming ≡ true
    → Capturing d
unfolding start_node mtk_cam_sd_s_stream
start_node-Capturing a node c d fresh off h on =
    let e = record c { stream_count = u32 (c.stream_count + 1) } in
    elim (Bool-cases (ltb e.stream_count e.enabled_count)) [
      | inl early ↦
          let same : e ≡ d = cc (rw early at h) in
          absurd (ground (arith, ap (λ (x : Cam). x.streaming) same, off, on))
      | inr last ↦
          finish node c.streaming e (mtk_cam_cio_stream_on a e) d off
            (λ f out.
              mtk_cam_cio_stream_on-Capturing a e f
                (record {
                  no_running = fresh.no_running;
                  no_count = fresh.no_count;
                  no_frame = fresh.no_frame;
                  tracked = fresh.tracked;
                  no_meta = fresh.no_meta;
                  room = fresh.room;
                })
                out)
            (rw last at h)
    ]

-- A device that is ready for its first frame.
abbrev Ready : Cam → Type 0
Ready c = Fresh c × (c.streaming ≡ false)

abbrev new_counters : Cam → Cam
new_counters c = record c { p1 = record (c.p1) { enqueued_frame_seq_no = 0 } }

hw_init-Ready :
    (a : Answers) (c : Cam)
    → Ready (new_counters c)
    → (mtk_isp_hw_init a c).1 ≡ none
    → Ready (mtk_isp_hw_init a c).0
unfolding hw_ready
hw_init-Ready a c (f, off) done = elim (hw_init-cases a c) [
  | inl (_, _, e) ↦ absurd (let bad = rw e at done in ground arith)
  | inr (held, e, _) ↦ rw e (
    record {
      no_running = f.no_running;
      no_count = f.no_count;
      no_frame = refl;
      tracked = f.tracked;
      no_meta = f.no_meta;
      room = f.room;
    },
    off,
  )
]

after_init :
    (a : Answers) (node : NodeId) (r : Cam × Option Errno) (d : Cam)
    → (r.1 ≡ none → Ready r.0)
    → d.streaming ≡ true
    → elim r.1 [ some e ↦ some (start_failed node e r.0) | none ↦ start_queued a true node r.0 ]
      ≡ some (d, none)
    → Capturing d
unfolding start_failed start_queued
after_init a node (c, some e) d ready on h = absurd (ground arith)
after_init a node (c, none) d ready on h =
    let (fresh, off) = ready refl in start_node-Capturing a node c d fresh off h on

-- A start of a node that returns 0 with the device streaming.
pub mtk_cam_vb2_start_streaming-Capturing :
    (a : Answers) (node : NodeId) (c d : Cam)
    → Waiting c
    → mtk_cam_vb2_start_streaming a true node c ≡ some (d, none)
    → d.streaming ≡ true
    → Capturing d
unfolding mtk_cam_vb2_start_streaming mtk_cam_dev_init_stream
mtk_cam_vb2_start_streaming-Capturing a node c d w h on =
    let i = mtk_cam_dev_init_stream (pipeline_held true c) in
    let ready : Ready (new_counters i) = (
      record {
        no_running = w.no_running;
        no_count = refl;
        no_frame = refl;
        tracked = w.tracked;
        no_meta = w.no_meta;
        room = w.room;
      },
      w.not_streaming,
    ) in
    elim (Bool-cases (c.enabled node)) [
      | inr e ↦ absurd (let bad = rw e at h in ground arith)
      | inl e ↦ elim (Option-cases a.pipeline_start) [
        | inr (x, p) ↦ absurd (let bad = rw (e, w.no_pipeline, p) at h in ground arith)
        | inl p ↦
            after_init a node (mtk_isp_hw_init a i) d (hw_init-Ready a i ready) on
              (rw (e, w.no_pipeline, p) at h)
      ]
    ]
