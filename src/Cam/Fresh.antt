-- ===== src/Cam/Fresh.antt =====
-- The first frame: a stream that `mtk_cam_cio_stream_on` of camera/driver/cam/mtk_cam.c starts has
-- the invariant that the interrupt keeps.
use mathlib.Core.Path.{subst}
use mt8183_kukui_pmos.Prelude.{
  ◌^◌, ◌<◌, ◌≡◌, refl, arith, Bool, true, false, not, ◌&&◌, ltb, if◌then◌else◌, [], ◌∷◌, Option,
  some, none, length, All,
}
use mt8183_kukui_pmos.Uapi.{Errno, Result, ok, err, enodev}
use mt8183_kukui_pmos.Cam.State.{Cam, ConfigParam, ipi_send, cmd_stream, cmd_config, ◌>>=◌}
use mt8183_kukui_pmos.Cam.Jobs.{mtk_cam_dev_req_try_queue}
use mt8183_kukui_pmos.Cam.Configure.{isp_config_param}
use mt8183_kukui_pmos.Cam.Stream.{
  Returned, Answers, with_work_queue, stream_configured, mtk_cam_cio_stream_on, fail_seninf_off,
  seninf_held, sensor_held,
}
use mt8183_kukui_pmos.Cam.Completion.{Tracked}
use mt8183_kukui_pmos.Cam.Dequeue.{jobs_refs}
use mt8183_kukui_pmos.Cam.Capturing.{NotMeta, Capturing}
use mt8183_kukui_pmos.Cam.Interrupt.{try_queue-Capturing}

-- A device whose counters are new, with jobs that wait for the stream to start.
pub record Fresh (c : Cam) : Type 0 where
  pub no_running : c.running_job_list ≡ []
  pub no_count : c.running_job_count ≡ 0
  pub no_frame : c.p1.enqueued_frame_seq_no ≡ 0
  pub tracked : Tracked c.buf_list (jobs_refs c.pending_job_list)
  pub no_meta : All NotMeta (jobs_refs c.pending_job_list)
  pub room : length c.pending_job_list < 2 ^ 32

-- The state with its jobs not yet looked at.
streaming_on : ConfigParam → Cam → Cam
streaming_on param c =
    let d = sensor_held true (seninf_held true c) in
    record d {
      streaming = true;
      log = ipi_send (cmd_stream true) ∷ ipi_send (cmd_config param) ∷ d.log;
    }

streaming_on-Capturing :
    (c : Cam) (param : ConfigParam)
    → Fresh c
    → Capturing (mtk_cam_dev_req_try_queue (streaming_on param c))
unfolding streaming_on
streaming_on-Capturing c param f = try_queue-Capturing (streaming_on param c) (record {
  jobs = record {
    first = 0;
    counted = rw (f.no_running, f.no_count);
    bounded = rw (f.no_running) (omega arith);
    numbered = rw (f.no_running) tt;
    last = rw (f.no_running, f.no_frame);
  };
  streaming = refl;
  tracked = rw (f.no_running) f.tracked;
  no_meta = rw (f.no_running) f.no_meta;
  room = rw (f.no_frame) (omega (arith, f.room));
})

-- A start that returns has started the jobs.
with_work_queue-after :
    (b : Bool) (after d : Cam)
    → ◌>>=◌ {B = Cam × Option Errno} (if b then none else some after) (λ f. some (f, none))
      ≡ some (d, none)
    → after ≡ d
with_work_queue-after true after d h = absurd (ground arith)
with_work_queue-after false after d h = cc

-- A run that returns 0 ends in a state that captures.
abbrev Captured : Returned → Type 0
Captured out = (d : Cam) → out ≡ some (d, none) → Capturing d

Captured-if :
    (c : Cam) (b : Bool) (e : Errno) (y : Returned)
    → Captured y
    → Captured (if b then some (c, some e) else y)
Captured-if c true e y q d h = absurd (ground arith)
Captured-if c false e y q d h = q d h

subdevices-Captured :
    (a : Answers) (c : Cam) (seninf sensor : Option Errno) (p : Option (Result ConfigParam))
    → Fresh c
    → let d = sensor_held true (seninf_held true c) in
      Captured (elim seninf [
        | some e ↦ some (c, some e)
        | none ↦ elim sensor [
          | some e ↦ some (fail_seninf_off a (seninf_held true c), some e)
          | none ↦ p >>= λ r. stream_configured a r d
        ]
      ])
unfolding stream_configured with_work_queue streaming_on
subdevices-Captured a c (some e) sensor p f d h = absurd (ground arith)
subdevices-Captured a c none (some e) p f d h = absurd (ground arith)
subdevices-Captured a c none none none f d h = absurd (ground arith)
subdevices-Captured a c none none (some (err e)) f d h = absurd (ground arith)
subdevices-Captured a c none none (some (ok param)) f d h =
    let on = streaming_on param c in
    let after = mtk_cam_dev_req_try_queue on in
    let b = not on.held.composer_wq && ltb (length on.works) (length after.works) in
    subst Capturing (with_work_queue-after b after d h) (streaming_on-Capturing c param f)

-- With new counters, and each buffer of a pending job on its node's list, held once and of no meta
-- node: a `mtk_cam_cio_stream_on` that returns 0 leaves a state that satisfies what
-- `isp_irq_cam` needs and keeps.
pub mtk_cam_cio_stream_on-Capturing :
    (a : Answers) (c d : Cam) → Fresh c → mtk_cam_cio_stream_on a c ≡ some (d, none) → Capturing d
unfolding mtk_cam_cio_stream_on
mtk_cam_cio_stream_on-Capturing a c d f h =
    let on = sensor_held true (seninf_held true c) in
    let p = isp_config_param a.sensor_fmt on in
    let out : Returned = elim a.seninf_on [
      | some e ↦ some (c, some e)
      | none ↦ elim a.sensor_on [
        | some e ↦ some (fail_seninf_off a (seninf_held true c), some e)
        | none ↦ p >>= λ r. stream_configured a r on
      ]
    ] in
    let active =
      Captured-if c (not a.active_sensor) enodev out
        (subdevices-Captured a c a.seninf_on a.sensor_on p f) in
    Captured-if c (not a.seninf_bound) enodev
      (if not a.active_sensor then some (c, some enodev) else out) active d h
