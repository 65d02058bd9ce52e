-- ===== src/Format/Config.antt =====
-- camera/driver/cam/mtk_cam.c: `config_img_fmt`, the ISP's view of an output node.
use mt8183_kukui_pmos.Prelude.{ℕ, ◌*◌, ◌/◌, ◌==◌, ltb, if◌then◌else◌, ◌||◌, Option, none, some, u32}
use mt8183_kukui_pmos.Uapi.{PixMp, Result, ok, err, einval}
use mt8183_kukui_pmos.Format.Codes.{get_img_fmt, get_pixel_bits, img_fmt_unknown}

-- `struct img_size` and `struct p1_img_crop` of mtk_cam-ipi.h.
pub record ImgSize : Type 0 where
  pub w : ℕ
  pub h : ℕ
  pub xsize : ℕ
  pub stride : ℕ

pub record ImgCrop : Type 0 where
  pub left : ℕ
  pub top : ℕ
  pub width : ℕ
  pub height : ℕ

-- `struct p1_img_output`, less its DMA buffer, which stays cleared.
pub record ImgOutput : Type 0 where
  pub size : ImgSize
  pub crop : ImgCrop
  pub pixel_bits : ℕ
  pub img_fmt : ℕ

abbrev pub min_resize_ratio : ℕ
min_resize_ratio = 6

-- The percentage of the sensor's size that the output keeps.
abbrev pub ratio : ℕ → ℕ → ℕ
ratio out sensor = u32 (out * 100) / sensor

abbrev pub img_output : PixMp → ℕ → ℕ → ImgOutput
img_output mp sd_width sd_height = record {
  size = record { w = mp.width; h = mp.height; xsize = mp.bytesperline; stride = mp.bytesperline };
  crop = record { left = 0; top = 0; width = sd_width; height = sd_height };
  pixel_bits = get_pixel_bits mp.pixelformat;
  img_fmt = get_img_fmt mp.pixelformat;
}

-- `config_img_fmt` with the node's format and the sensor's size; `none` is a division by zero. C's
-- `||` divides by the height only where the ratio of the widths is large enough.
unfoldable pub config_img_fmt : PixMp → ℕ → ℕ → Option (Result ImgOutput)
config_img_fmt mp sd_width sd_height =
    if ltb sd_width mp.width || ltb sd_height mp.height
    then some (err einval)
    else if sd_width == 0
    then none
    else if ltb (ratio mp.width sd_width) min_resize_ratio
    then some (err einval)
    else if sd_height == 0
    then none
    else if ltb (ratio mp.height sd_height) min_resize_ratio
    then some (err einval)
    else if get_img_fmt mp.pixelformat == img_fmt_unknown || get_pixel_bits mp.pixelformat == 0
    then some (err einval)
    else some (ok (img_output mp sd_width sd_height))
