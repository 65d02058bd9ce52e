-- ===== src/Format/Resize.antt =====
-- When `config_img_fmt` accepts the format of an output node.
use native.Mathlib.Nat.{div-lt_iff_lt-mul}
use mt8183_kukui_pmos.Prelude.{ℕ, ◌*◌, ◌%◌, ◌^◌, ◌≤◌, ◌<◌, ◌≡◌, ◌≢◌, ◌⊎◌, arith, ltb, some}
use mt8183_kukui_pmos.Uapi.{PixMp, ok, err, einval}
use mt8183_kukui_pmos.Format.Codes.{get_img_fmt, img_fmt_unknown}
use mt8183_kukui_pmos.Format.Nodes.{NodeDesc}
use mt8183_kukui_pmos.Format.Config.{config_img_fmt, img_output, ratio, min_resize_ratio}
use mt8183_kukui_pmos.Format.Agree.{get_pixel_bits-get_img_fmt}
use mt8183_kukui_pmos.Format.Negotiated.{IsFit}

-- The output fits into the sensor's image, and keeps 6% of each side at least.
pub record Resizes (mp : PixMp) (sd_width sd_height : ℕ) : Type 0 where
  pub narrow : mp.width ≤ sd_width
  pub low : mp.height ≤ sd_height
  pub wide_enough : min_resize_ratio * sd_width ≤ mp.width * 100
  pub high_enough : min_resize_ratio * sd_height ≤ mp.height * 100

-- The quotient is below the minimum exactly when the product is.
ratio_small :
    (out sensor : ℕ)
    → 0 < sensor
    → out ≤ 5376
    → ltb (ratio out sensor) min_resize_ratio ≡ ltb (out * 100) (min_resize_ratio * sensor)
ratio_small out sensor h k =
    let e : out * 100 % 2 ^ 32 ≡ out * 100 = omega arith in
    rw e (
      ground (
        arith,
        (div-lt_iff_lt-mul {k = sensor} {x = out * 100} {y = min_resize_ratio} h).0,
        (div-lt_iff_lt-mul {k = sensor} {x = out * 100} {y = min_resize_ratio} h).1,
      ))

module _ (desc : NodeDesc) (mp : PixMp) (fits : IsFit desc mp) (sd_width sd_height : ℕ) where
  -- For a format that a node was given, and a sensor of any size, `config_img_fmt` divides by no
  -- zero: it accepts the format with its output parameters, or answers -EINVAL. It accepts it
  -- exactly when the output is no larger than the sensor's image, is 6% of it at least on each
  -- side, and has a pixel format that the ISP knows.
  pub config_img_fmt-Resizes :
      ((config_img_fmt mp sd_width sd_height ≡ some (ok (img_output mp sd_width sd_height)))
        × Resizes mp sd_width sd_height
        × (get_img_fmt mp.pixelformat ≢ img_fmt_unknown))
      ⊎ ((config_img_fmt mp sd_width sd_height ≡ some (err einval))
          × ¬ (Resizes mp sd_width sd_height × (get_img_fmt mp.pixelformat ≢ img_fmt_unknown)))
  unfolding config_img_fmt
  config_img_fmt-Resizes = ground (
    arith,
    get_pixel_bits-get_img_fmt mp.pixelformat,
    ratio_small mp.width sd_width,
    ratio_small mp.height sd_height,
    fits.width_min,
    fits.width_max,
    fits.height_min,
    fits.height_max,
  )
