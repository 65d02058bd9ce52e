-- ===== src/Graph/Chain.antt =====
-- A format from the sensor interface to the video nodes.
use mt8183_kukui_pmos.Prelude.{
  ℕ, ◌<◌, ◌≤◌, ◌≡◌, refl, ap, arith, ◌==◌, leb, ltb, ◌&&◌, if◌then◌else◌, true,
}
use mt8183_kukui_pmos.Uapi.{field_none, ok}
use mt8183_kukui_pmos.Seninf.State.{FrameFmt, num_pads, num_sensors}
use mt8183_kukui_pmos.Seninf.Formats.{seninf_set_fmt, seninf_get_fmt}
use mt8183_kukui_pmos.Graph.Pads.{cio_pad_sink, mtk_cam_sd_set_fmt}

-- The pad of the sensor interface that `mtk_cam_dev_notifier_complete` links to the subdevice.
abbrev pub cio_pad_src : ℕ
cio_pad_src = 4

source_lem :
    (pad : ℕ) (request : FrameFmt) (fmts : ℕ → FrameFmt)
    → pad < num_sensors
    → (let (f, after) = seninf_set_fmt pad request fmts in seninf_get_fmt cio_pad_src after ≡ f)
unfolding seninf_set_fmt seninf_get_fmt
source_lem pad request fmts h =
    let is_sink : ltb pad num_sensors ≡ true = ground arith in rw is_sink refl

-- A format along the chain: it is set on a sensor's pad of the sensor interface, read on the pad that
-- is linked to the camera, and set on the camera's sink of twelve pads. That succeeds, and the two
-- pads of the image nodes and the sink then have the format that the sensor interface answered with,
-- progressive.
pub seninf_set_fmt-mtk_cam_sd_set_fmt :
    (pad i : ℕ) (request : FrameFmt) (fmts state : ℕ → FrameFmt)
    → pad < num_sensors
    → 1 ≤ i
    → i ≤ 2
    → (let (f, after) = seninf_set_fmt pad request fmts in
        let arrived = record f { field = field_none } in
        let read = seninf_get_fmt cio_pad_src after in
        (formats : ℕ → FrameFmt) × (mtk_cam_sd_set_fmt num_pads cio_pad_sink read state
          ≡ ok (arrived, formats))
        × (formats i ≡ arrived)
        × (formats cio_pad_sink ≡ arrived))
unfolding mtk_cam_sd_set_fmt
seninf_set_fmt-mtk_cam_sd_set_fmt pad i request fmts state h l m =
    let f = (seninf_set_fmt pad request fmts).0 in
    let arrived = record f { field = field_none } in
    let image : (leb 1 i && leb i 2) ≡ true = ground arith in
    let formats : ℕ → FrameFmt =
      λ k. if leb 1 k && leb k 2 then arrived else if k == cio_pad_sink then arrived else state k in
    (
      formats,
      ap (λ g. mtk_cam_sd_set_fmt num_pads cio_pad_sink g state) (source_lem pad request fmts h),
      rw image refl,
      refl,
    )
