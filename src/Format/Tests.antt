-- ===== src/Format/Tests.antt =====
-- Runs of the format ioctls of camera/driver/cam/mtk_cam.c on concrete requests.
use mt8183_kukui_pmos.Prelude.{
  ◌≡◌, refl, ◌≢◌, ◌*◌, ◌≤◌, ◌+◌, ◌-◌, ◌⊎◌, ℕ, filter, arith, some, true,
}
use mt8183_kukui_pmos.Uapi.{
  Fourcc, sbggr8, mtisp, mtisp_f, video_capture_mplane, PixMp, pix_mp, srggb10_1x10, other, ok, err,
  einval, ebusy,
}
use mt8183_kukui_pmos.Format.Codes.{
  one_of, get_pixel_bits, get_sensor_fmt, get_img_fmt, img_fmt_unknown, get_sensor_pixel_id,
  mtk_cam_fmt_to_mbus,
}
use mt8183_kukui_pmos.Format.Nodes.{ImageFmt, NodeDesc, node_desc, main_stream_out, packed_bin_out}
use mt8183_kukui_pmos.Format.Negotiate.{
  bytes_per_line, cleared, mtk_cam_dev_find_fmt, mtk_cam_vidioc_try_fmt, mtk_cam_vidioc_s_fmt,
  mtk_cam_vidioc_enum_fmt, constant_fields, fits_bus, listed,
}
use mt8183_kukui_pmos.Format.Config.{config_img_fmt, img_output}
use mt8183_kukui_pmos.Format.Agree.{get_sensor_fmt-mtk_cam_fmt_to_mbus}
use mt8183_kukui_pmos.Format.Enumerate.{code_at, mtk_cam_vidioc_enum_fmt-filter}
use mt8183_kukui_pmos.Format.Negotiated.{HasDefault, IsFit, mtk_cam_vidioc_try_fmt-IsFit}
use mt8183_kukui_pmos.Format.Resize.{Resizes, config_img_fmt-Resizes}

abbrev main : NodeDesc
main = node_desc main_stream_out

abbrev main_default : ImageFmt
main_default = record { width = 5376; height = 4032; pixelformat = sbggr8 }

main-HasDefault : HasDefault main main_default
unfolding mtk_cam_dev_find_fmt
main-HasDefault = record { default = refl; found = refl }

abbrev sbggr10 : Fourcc
sbggr10 = mtisp b'B' b'A'

-- A request for an odd size, and the answer.
abbrev asked : PixMp
asked = cleared sbggr10 1918 1080

abbrev pub full_hd : PixMp
full_hd =
    constant_fields
      (record (cleared sbggr10 1920 1080) { bytesperline = 2400; sizeimage = 2592000 })

try_asked :
    mtk_cam_vidioc_try_fmt main video_capture_mplane asked
    ≡ some (record { buf_type = video_capture_mplane; fmt = pix_mp full_hd })
unfolding mtk_cam_vidioc_try_fmt bytes_per_line get_pixel_bits one_of
try_asked = refl

busy_queue : mtk_cam_vidioc_s_fmt true main video_capture_mplane asked ≡ some (err ebusy)
unfolding mtk_cam_vidioc_s_fmt
busy_queue = refl

pub full_hd-IsFit : IsFit main full_hd
unfolding mtk_cam_dev_find_fmt get_pixel_bits one_of
full_hd-IsFit = record {
  entry = record { width = 5376; height = 4032; pixelformat = sbggr10 };
  listed_code = refl;
  width_min = omega arith;
  width_max = omega arith;
  width_aligned = refl;
  height_min = omega arith;
  height_max = omega arith;
  line_aligned = refl;
  line_holds = omega arith;
  line_tight = omega arith;
  image_size = refl;
  one_plane = refl;
}

abbrev pub packed_hd : PixMp
packed_hd =
    constant_fields
      (record (cleared (mtisp_f b'B' b'A') 1920 1080) { bytesperline = 3600; sizeimage = 3888000 })

pub packed_hd-IsFit : IsFit (node_desc packed_bin_out) packed_hd
unfolding mtk_cam_dev_find_fmt get_pixel_bits one_of
packed_hd-IsFit = record {
  entry = record { width = 5376; height = 4032; pixelformat = mtisp_f b'B' b'A' };
  listed_code = refl;
  width_min = omega arith;
  width_max = omega arith;
  width_aligned = refl;
  height_min = omega arith;
  height_max = omega arith;
  line_aligned = refl;
  line_holds = omega arith;
  line_tight = omega arith;
  image_size = refl;
  one_plane = refl;
}

depth_of_sbggr10 : get_pixel_bits sbggr10 ≢ 0
unfolding get_pixel_bits one_of
depth_of_sbggr10 = omega arith

get_sensor_fmt-mtk_cam_fmt_to_mbus_example :
    (get_pixel_bits sbggr10 ≡ 8 + 2 * (get_sensor_fmt (mtk_cam_fmt_to_mbus sbggr10) - 0x2200))
    × (0x2200 ≤ get_sensor_fmt (mtk_cam_fmt_to_mbus sbggr10))
    × (get_sensor_pixel_id (mtk_cam_fmt_to_mbus sbggr10) ≤ 3)
get_sensor_fmt-mtk_cam_fmt_to_mbus_example =
    get_sensor_fmt-mtk_cam_fmt_to_mbus sbggr10 depth_of_sbggr10

srggb10_not_zero : srggb10_1x10 ≢ other 0
srggb10_not_zero = λ e. absurd (cc e)

mtk_cam_vidioc_enum_fmt-filter_example :
    mtk_cam_vidioc_enum_fmt main srggb10_1x10 2
    ≡ some (code_at (filter (fits_bus srggb10_1x10) (listed main)) 2)
mtk_cam_vidioc_enum_fmt-filter_example =
    mtk_cam_vidioc_enum_fmt-filter main srggb10_1x10 2 srggb10_not_zero

abbrev depth12 : ℕ
depth12 = 12

mtk_cam_vidioc_try_fmt-IsFit_example :
    (r : PixMp) × (mtk_cam_vidioc_try_fmt main video_capture_mplane asked
      ≡ some (record { buf_type = video_capture_mplane; fmt = pix_mp r }))
    × IsFit main r
mtk_cam_vidioc_try_fmt-IsFit_example =
    mtk_cam_vidioc_try_fmt-IsFit main main_default main-HasDefault video_capture_mplane asked

config_img_fmt-Resizes_example :
    ((config_img_fmt full_hd 3264 2448 ≡ some (ok (img_output full_hd 3264 2448)))
      × Resizes full_hd 3264 2448
      × (get_img_fmt full_hd.pixelformat ≢ img_fmt_unknown))
    ⊎ ((config_img_fmt full_hd 3264 2448 ≡ some (err einval))
        × ¬ (Resizes full_hd 3264 2448 × (get_img_fmt full_hd.pixelformat ≢ img_fmt_unknown)))
config_img_fmt-Resizes_example = config_img_fmt-Resizes main full_hd full_hd-IsFit 3264 2448
