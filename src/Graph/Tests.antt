-- ===== src/Graph/Tests.antt =====
-- A concrete registration of camera/driver/cam/mtk_cam.c.
use mt8183_kukui_pmos.Prelude.{ℕ, ◌==◌, ◌≡◌, arith, if◌then◌else◌, true, false, some, none}
use mt8183_kukui_pmos.Uapi.{ebusy, field_none, ok}
use mt8183_kukui_pmos.Seninf.State.{FrameFmt}
use mt8183_kukui_pmos.Seninf.Formats.{
  default_fmt, seninf_init_state, seninf_set_fmt, seninf_get_fmt,
}
use mt8183_kukui_pmos.Graph.Pads.{mtk_cam_sd_set_fmt}
use mt8183_kukui_pmos.Graph.Chain.{cio_pad_src, seninf_set_fmt-mtk_cam_sd_set_fmt}
use mt8183_kukui_pmos.Graph.Register.{GraphAnswers, mtk_cam_v4l2_register, mtk_cam_v4l2_unregister}
use mt8183_kukui_pmos.Graph.Registered.{IsHeld, IsIdle, nothing_held, mtk_cam_v4l2_register-IsHeld}

-- The device of the fourth node is refused.
abbrev refused : GraphAnswers
refused = record {
  media_register = none;
  kcalloc = true;
  pads_init = none;
  v4l2_register = none;
  init_finalize = none;
  register_subdev = none;
  nodes = λ i. record {
    pads_init = none;
    queue_init = none;
    register_device = if i == 3 then some ebusy else none;
    create_link = none;
  };
}

mtk_cam_v4l2_register-IsHeld_example :
    (let (after, answer) = mtk_cam_v4l2_register refused nothing_held in
      let gone = mtk_cam_v4l2_unregister after in
      IsHeld none 2 answer after
      × ((gone.media ≡ false)
          × ((gone.entity ≡ false)
              × ((gone.v4l2 ≡ false) × ((gone.subdev ≡ false) × IsIdle (gone.node 2))))))
mtk_cam_v4l2_register-IsHeld_example = mtk_cam_v4l2_register-IsHeld refused 2 (omega arith)

abbrev small_fmt : FrameFmt
small_fmt = record default_fmt { width = 640; height = 480 }

seninf_set_fmt-mtk_cam_sd_set_fmt_example :
    (let (f, after) = seninf_set_fmt 1 small_fmt seninf_init_state in
      let arrived = record f { field = field_none } in
      let read = seninf_get_fmt cio_pad_src after in
      (formats : ℕ → FrameFmt) × (mtk_cam_sd_set_fmt 12 11 read seninf_init_state
        ≡ ok (arrived, formats))
      × (formats 2 ≡ arrived)
      × (formats 11 ≡ arrived))
seninf_set_fmt-mtk_cam_sd_set_fmt_example =
    seninf_set_fmt-mtk_cam_sd_set_fmt 1 2 small_fmt seninf_init_state seninf_init_state
      (omega arith) (omega arith) (omega arith)
