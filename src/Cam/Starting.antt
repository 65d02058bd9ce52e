-- ===== src/Cam/Starting.antt =====
-- Starting the subdevice: `mtk_cam_cio_stream_on` streams, or leaves everything as it was.
use mt8183_kukui_pmos.Prelude.{
  ◌≡◌, refl, arith, Bool, true, false, Option, ◌==◌, ◌||◌, not, ◌&&◌, Bool-cases, Option-cases,
  if◌then◌else◌, some, none, inl, inr, List, [], ◌∷◌,
}
use mt8183_kukui_pmos.Uapi.{Errno, PixMp, pix_mp, Result, ok, err, einval, enodev}
use mt8183_kukui_pmos.Format.Nodes.{NodeId, node_desc, main_stream_out, packed_bin_out}
use mt8183_kukui_pmos.Format.Codes.{
  get_sensor_fmt, get_sensor_pixel_id, img_fmt_unknown, raw_pxl_id_unknown,
}
use mt8183_kukui_pmos.Format.Config.{ImgOutput, img_output}
use mt8183_kukui_pmos.Format.Negotiated.{IsFit}
use mt8183_kukui_pmos.Format.Resize.{config_img_fmt-Resizes}
use mt8183_kukui_pmos.Cam.State.{ipi_send, cmd_stream, cmd_config, Cam, Req, ConfigParam, ◌>>=◌}
use mt8183_kukui_pmos.Cam.Irq.{bit}
use mt8183_kukui_pmos.Cam.Jobs.{mtk_cam_dev_req_try_queue, queue_loop, start_job}
use mt8183_kukui_pmos.Cam.Configure.{
  SensorFmt, config_node, config_message, config_resize, isp_config_param,
}
use mt8183_kukui_pmos.Cam.Stream.{
  Returned, Answers, with_work_queue, fail_sensor_off, stream_configured, mtk_cam_cio_stream_on,
  stays_on, fail_seninf_off, seninf_held, sensor_held,
}

-- The node has an image format that it was given.
pub record HasFit (c : Cam) (node : NodeId) : Type 0 where
  pub image : PixMp
  pub set : (c.vdev_fmt node).fmt ≡ pix_mp image
  pub fits : IsFit (node_desc node) image

config_node_total :
    (c : Cam) (node : NodeId) (sd : SensorFmt)
    → HasFit c node
    → (r : Result ImgOutput) × (config_node node sd c ≡ some r)
unfolding config_node
config_node_total c node sd f =
    elim (config_img_fmt-Resizes (node_desc node) f.image f.fits sd.width sd.height) [
      | inl yes' ↦ (ok (img_output f.image sd.width sd.height), rw (f.set, ◌>>=◌) yes'.0)
      | inr no' ↦ (err einval, rw (f.set, ◌>>=◌) no'.0)
    ]

if_total :
    {A : Type 0} (b : Bool) (x y : Option A)
    → ((r : A) × (x ≡ some r))
    → ((r : A) × (y ≡ some r))
    → (r : A) × ((if b then x else y) ≡ some r)
if_total true x y p q = p
if_total false x y p q = q

config_resize_total :
    (c : Cam) (sd : SensorFmt) (out : ImgOutput)
    → HasFit c packed_bin_out
    → (r : Result ConfigParam) × (config_resize sd out c ≡ some r)
unfolding config_resize
config_resize_total c sd out packed =
    let (s, f) = config_node_total c packed_bin_out sd packed in
    if_total (bit 1 c.enabled_dmas)
      (config_node packed_bin_out sd c >>= λ r.
        some (elim r [ err e ↦ err e | ok o ↦ ok (config_message sd out (some o) c) ]))
      (some (ok (config_message sd out none c)))
      (elim s [ err e ↦ err e | ok o ↦ ok (config_message sd out (some o) c) ], rw (f, ◌>>=◌))
      (ok (config_message sd out none c), refl)

main_total :
    (c : Cam) (sd : SensorFmt) (r : Result ImgOutput)
    → HasFit c packed_bin_out
    → (q : Result ConfigParam) × (elim r [
      | err e ↦ some (err e)
      | ok main ↦ config_resize sd main c
    ]
        ≡ some q)
main_total c sd (err e) packed = (err e, refl)
main_total c sd (ok out) packed = config_resize_total c sd out packed

isp_config_param_total :
    (c : Cam) (sensor : Result SensorFmt)
    → HasFit c main_stream_out
    → HasFit c packed_bin_out
    → (r : Result ConfigParam) × (isp_config_param sensor c ≡ some r)
unfolding isp_config_param
isp_config_param_total c (err e) main packed = (err e, refl)
isp_config_param_total c (ok sd) main packed =
    let (r, e) = config_node_total c main_stream_out sd main in
    let (q, f) = main_total c sd r packed in
    if_total
      (get_sensor_fmt sd.code == img_fmt_unknown
        || get_sensor_pixel_id sd.code == raw_pxl_id_unknown)
      (some (err einval))
      (config_node main_stream_out sd c >>= λ r. elim r [
        | err e ↦ some (err e)
        | ok out ↦ config_resize sd out c
      ])
      (err einval, refl) (q, rw (e, ◌>>=◌) f)

-- Queueing jobs leaves the subdevices and the streaming flag alone.
queue_loop-held :
    (ps : List Req) (c : Cam)
    → ((queue_loop ps c).held ≡ c.held) × ((queue_loop ps c).streaming ≡ c.streaming)
unfolding queue_loop start_job
queue_loop-held [] c = (refl, refl)
queue_loop-held (p ∷ ps) c = ground (arith, queue_loop-held ps (start_job p ps c))

try_queue-held :
    (c : Cam)
    → ((mtk_cam_dev_req_try_queue c).held ≡ c.held)
      × ((mtk_cam_dev_req_try_queue c).streaming ≡ c.streaming)
unfolding mtk_cam_dev_req_try_queue
try_queue-held c = either c.streaming
  where
    either :
        (b : Bool)
        → (let d = if not b then c else queue_loop c.pending_job_list c in
            (d.held ≡ c.held) × (d.streaming ≡ c.streaming))
    either true = queue_loop-held c.pending_job_list c
    either false = (refl, refl)

-- Whether the start turns the seninf on, and the sensor behind it.
abbrev pub turns_seninf_on : Answers → Bool
turns_seninf_on a = a.seninf_bound && (a.active_sensor && not (stays_on a.seninf_on))

abbrev pub turns_sensor_on : Answers → Bool
turns_sensor_on a = turns_seninf_on a && not (stays_on a.sensor_on)

-- The state behind a start that fails: a subdevice is on if it was turned on and its call to turn it off
-- fails.
abbrev pub not_started : Answers → Cam → Cam
not_started a c =
    sensor_held (turns_sensor_on a && stays_on a.sensor_off)
      (seninf_held (turns_seninf_on a && stays_on a.seninf_off) c)

-- What `mtk_cam_cio_stream_on` makes of a state: it streams with the subdevices on, or it is the state
-- before but for the subdevices that do not turn off.
abbrev pub StreamedOn : Answers → Cam → Cam → Option Errno → Type 0
StreamedOn a c d none =
    (d.streaming ≡ true) × (d.held ≡ record (c.held) { seninf_on = true; sensor_on = true })
StreamedOn a c d (some e) = d ≡ not_started a c

abbrev Starts : Answers → Cam → Returned → Type 0
Starts a c out = (d : Cam) × (ret : Option Errno) × (out ≡ some (d, ret)) × StreamedOn a c d ret

-- The jobs are started, with the work queue there.
on_streams :
    (a : Answers) (c : Cam) (param : ConfigParam)
    → c.held.composer_wq ≡ true
    → Starts a c (stream_configured a (ok param) (sensor_held true (seninf_held true c)))
unfolding stream_configured with_work_queue
on_streams a c param wq =
    let d = sensor_held true (seninf_held true c) in
    let f = record d {
      streaming = true;
      log = ipi_send (cmd_stream true) ∷ ipi_send (cmd_config param) ∷ d.log;
    } in
    let (same, on) = try_queue-held f in (mtk_cam_dev_req_try_queue f, none, rw wq refl, (on, same))

-- With both subdevices off, a start that turns none on leaves the state.
unchanged :
    (c : Cam)
    → c.held.seninf_on ≡ false
    → c.held.sensor_on ≡ false
    → c ≡ sensor_held false (seninf_held false c)
unchanged c h k = ground arith

configured-Starts :
    (a : Answers) (c : Cam) (r : Result ConfigParam)
    → a.seninf_bound ≡ true
    → a.active_sensor ≡ true
    → a.seninf_on ≡ none
    → a.sensor_on ≡ none
    → c.held.composer_wq ≡ true
    → Starts a c (stream_configured a r (sensor_held true (seninf_held true c)))
unfolding stream_configured
configured-Starts a c (ok param) bound active seninf sensor wq = on_streams a c param wq
configured-Starts a c (err e) bound active seninf sensor wq = (
  fail_sensor_off a (sensor_held true (seninf_held true c)),
  some e,
  refl,
  rw (bound, active, seninf, sensor) refl,
)

-- With fitting image formats on both image nodes, both subdevices off and the composer's work queue,
-- whatever the sensor, the seninf and the kernel answer, `mtk_cam_cio_stream_on` divides by no zero and
-- returns. If it returns 0, the device streams with seninf and sensor on, and holds nothing else it did
-- not hold; if it returns an error, the state is as it was, but that a subdevice which it has turned on
-- stays on where the call that turns it off fails.
pub mtk_cam_cio_stream_on-StreamedOn :
    (a : Answers) (c : Cam)
    → HasFit c main_stream_out
    → HasFit c packed_bin_out
    → c.held.seninf_on ≡ false
    → c.held.sensor_on ≡ false
    → c.held.composer_wq ≡ true
    → (d : Cam) × (ret : Option Errno) × (mtk_cam_cio_stream_on a c ≡ some (d, ret))
      × StreamedOn a c d ret
unfolding mtk_cam_cio_stream_on
mtk_cam_cio_stream_on-StreamedOn a c main packed h k wq =
    let d = sensor_held true (seninf_held true c) in
    let to_d : (node : NodeId) → HasFit c node → HasFit d node =
      λ node f. record { image = f.image; set = f.set; fits = f.fits } in
    let (r, e) =
      isp_config_param_total d a.sensor_fmt (to_d main_stream_out main)
        (to_d packed_bin_out packed) in
    let same = unchanged c h k in
    elim (Bool-cases a.seninf_bound) [
      | inr unbound ↦ rw unbound (c, some enodev, refl, same)
      | inl bound ↦ elim (Bool-cases a.active_sensor) [
        | inr no_sensor ↦ rw (bound, no_sensor) (c, some enodev, refl, same)
        | inl active ↦ elim (Option-cases a.seninf_on) [
          | inr (x, refused) ↦ rw (bound, active, refused) (c, some x, refl, same)
          | inl seninf ↦ elim (Option-cases a.sensor_on) [
            | inr (x, refused) ↦
                rw (bound, active, seninf, refused)
                  (fail_seninf_off a (seninf_held true c), some x, refl, ground arith)
            | inl sensor ↦
                let (f, ret, out, on) = configured-Starts a c r bound active seninf sensor wq in
                (f, ret, rw (bound, active, seninf, sensor, e, ◌>>=◌) out, on)
          ]
        ]
      ]
    ]
