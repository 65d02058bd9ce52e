-- ===== src/Format/Negotiate.antt =====
-- camera/driver/cam/mtk_cam.c: the size of an image, and the ioctls that negotiate a format.
use mt8183_kukui_pmos.Prelude.{
  ℕ, zero, ◌+◌, ◌-◌, ◌*◌, ◌/◌, ◌==◌, ltb, leb, if◌then◌else◌, Bool, true, false, List, [], ◌∷◌,
  Option, none, some, u32, get_elem?, take,
}
use mt8183_kukui_pmos.Uapi.{
  Fourcc, same_fourcc, MbusCode, other, BufType, PixMp, pix_mp, meta, V4l2Format, Result, ok, err,
  einval, ebusy, colorspace_default, colorspace_srgb, field_any, field_none, ycbcr_enc_default,
  quantization_default, xfer_func_default, xfer_func_srgb,
}
use mt8183_kukui_pmos.Format.Codes.{get_pixel_bits, mtk_cam_fmt_to_mbus, mtk_cam_bayer_order}
use mt8183_kukui_pmos.Format.Nodes.{
  NodeId, main_stream_out, packed_bin_out, ImageFmt, FmtTable, images, metas, NodeDesc, Stepwise,
  img_min_width, img_max_width, img_min_height, img_max_height,
}

-- `ALIGN(x, a)` at a power of two, and `DIV_ROUND_UP(n, d)`, on `unsigned int`.
unfoldable pub align : ℕ → ℕ → ℕ
align x a = u32 (x + (a - 1)) / a * a

unfoldable pub div_round_up : ℕ → ℕ → ℕ
div_round_up n d = u32 (n + d - 1) / d

-- `clamp_val`
unfoldable pub clamp : ℕ → ℕ → ℕ → ℕ
clamp v lo hi = if ltb v lo then lo else if ltb hi v then hi else v

-- `bytesperline`, from the depth and the width.
unfoldable pub bytes_per_line : NodeId → ℕ → ℕ → ℕ
unfolding align div_round_up
bytes_per_line main_stream_out pixel_bits width =
    align (align (div_round_up (u32 (width * pixel_bits)) 8) 2) 4
bytes_per_line packed_bin_out pixel_bits width =
    let ppl = div_round_up (u32 (width * 6)) 4 in
    let bpl = div_round_up (u32 (ppl * pixel_bits)) 8 in
    align (if pixel_bits == 10 then align bpl 4 else align bpl 8) 4
bytes_per_line _ pixel_bits width = align 0 4

unfoldable pub cal_image_pix_mp : NodeId → PixMp → PixMp
cal_image_pix_mp node mp =
    let bpl = bytes_per_line node (get_pixel_bits mp.pixelformat) mp.width in
    record mp { bytesperline = bpl; sizeimage = u32 (bpl * mp.height) }

-- The image entries of a table; a meta node has none.
abbrev pub image_entries : FmtTable → List ImageFmt
image_entries (images es) = es
image_entries (metas es) = []

-- The entries that a loop up to `num_fmts` reads.
abbrev pub listed : NodeDesc → List ImageFmt
listed desc = take desc.num_fmts (image_entries desc.fmts)

unfoldable pub find_in : List ImageFmt → Fourcc → Option ImageFmt
find_in [] format = none
find_in (e ∷ es) format = if same_fourcc e.pixelformat format then some e else find_in es format

unfoldable pub mtk_cam_dev_find_fmt : NodeDesc → Fourcc → Option ImageFmt
unfolding find_in
mtk_cam_dev_find_fmt desc format = find_in (listed desc) format

-- `fmts[default_fmt_idx]` of an image node; `none` if there is no such entry.
abbrev pub default_entry : NodeDesc → Option ImageFmt
default_entry desc = get_elem? (image_entries desc.fmts) desc.default_fmt_idx

-- A cleared `struct v4l2_pix_format_mplane` with a code and a size.
abbrev pub cleared : Fourcc → ℕ → ℕ → PixMp
cleared f w h = record {
  width = w;
  height = h;
  pixelformat = f;
  bytesperline = 0;
  sizeimage = 0;
  num_planes = 0;
  colorspace = colorspace_default;
  field = field_any;
  ycbcr_enc = ycbcr_enc_default;
  quantization = quantization_default;
  xfer_func = xfer_func_default;
}

-- The fields that are the same in every image format of the driver.
abbrev pub constant_fields : PixMp → PixMp
constant_fields mp = record mp {
  num_planes = 1;
  colorspace = colorspace_srgb;
  field = field_none;
  ycbcr_enc = ycbcr_enc_default;
  quantization = quantization_default;
  xfer_func = xfer_func_srgb;
}

-- `mtk_cam_dev_load_default_fmt` into a cleared format; `none` where it would read past a table.
unfoldable pub mtk_cam_dev_load_default_fmt : NodeDesc → Option V4l2Format
mtk_cam_dev_load_default_fmt desc = load desc.fmts
  where
    load : FmtTable → Option V4l2Format
    load (metas es) = elim (get_elem? es desc.default_fmt_idx) [
      | none ↦ none
      | some m ↦ some (record { buf_type = desc.buf_type; fmt = meta m })
    ]
    load (images es) = elim (get_elem? es desc.default_fmt_idx) [
      | none ↦ none
      | some e ↦ some (record {
        buf_type = desc.buf_type;
        fmt =
            pix_mp
              (constant_fields (cal_image_pix_mp desc.id (cleared e.pixelformat e.width e.height)));
      })
    ]

-- The entry that a requested code selects: its own, else the default one.
unfoldable pub choose_fmt : NodeDesc → Fourcc → Option ImageFmt
unfolding mtk_cam_dev_find_fmt
choose_fmt desc format = elim (mtk_cam_dev_find_fmt desc format) [
  | some e ↦ some e
  | none ↦ default_entry desc
]

-- The format that `mtk_cam_vidioc_try_fmt` builds from the selected entry.
unfoldable pub fit : NodeId → Fourcc → ℕ → ℕ → PixMp
unfolding cal_image_pix_mp clamp align
fit node f width height =
    let w = align (clamp width img_min_width img_max_width) 4 in
    let h = clamp height img_min_height img_max_height in
    constant_fields (cal_image_pix_mp node (cleared f w h))

-- `mtk_cam_vidioc_try_fmt` on an image node, with `f->type`; it always returns 0. `none` where the
-- default entry does not exist.
unfoldable pub mtk_cam_vidioc_try_fmt : NodeDesc → BufType → PixMp → Option V4l2Format
unfolding choose_fmt fit
mtk_cam_vidioc_try_fmt desc type mp = elim (choose_fmt desc mp.pixelformat) [
  | none ↦ none
  | some e ↦
      some (record { buf_type = type; fmt = pix_mp (fit desc.id e.pixelformat mp.width mp.height) })
]

-- `mtk_cam_vidioc_s_fmt`: `busy` is the answer of `vb2_is_busy`. The result is the new `vdev_fmt`.
unfoldable pub mtk_cam_vidioc_s_fmt : Bool → NodeDesc → BufType → PixMp → Option (Result V4l2Format)
unfolding mtk_cam_vidioc_try_fmt
mtk_cam_vidioc_s_fmt busy desc type mp =
    if busy
    then some (err ebusy)
    else elim (mtk_cam_vidioc_try_fmt desc type mp) [ none ↦ none | some f ↦ some (ok f) ]

-- Two results of `mtk_cam_bayer_order` are equal; both may be -1.
abbrev pub same_order : Option ℕ → Option ℕ → Bool
same_order none none = true
same_order (some a) (some b) = a == b
same_order _ _ = false

-- An entry whose Bayer order is that of the media bus code.
abbrev pub fits_bus : MbusCode → ImageFmt → Bool
fits_bus bus e =
    same_order (mtk_cam_bayer_order (mtk_cam_fmt_to_mbus e.pixelformat)) (mtk_cam_bayer_order bus)

-- The loop of `mtk_cam_vidioc_enum_fmt`; `n` counts the entries that fit.
unfoldable pub enum_loop : MbusCode → ℕ → ℕ → List ImageFmt → Result Fourcc
enum_loop bus index n [] = err einval
enum_loop bus index n (e ∷ es) = elim (fits_bus bus e) [
  | false ↦ enum_loop bus index n es
  | true ↦ elim (n == index) [ true ↦ ok e.pixelformat | false ↦ enum_loop bus index (n + 1) es ]
]

-- With no media bus code: the entry at the index.
unfoldable pub enum_all : NodeDesc → ℕ → Option (Result Fourcc)
enum_all desc index =
    if leb desc.num_fmts index
    then some (err einval)
    else elim (get_elem? (image_entries desc.fmts) index) [
      | none ↦ none
      | some e ↦ some (ok e.pixelformat)
    ]

-- `mtk_cam_vidioc_enum_fmt`, with `f->mbus_code` and `f->index`.
unfoldable pub mtk_cam_vidioc_enum_fmt : NodeDesc → MbusCode → ℕ → Option (Result Fourcc)
unfolding enum_loop enum_all
mtk_cam_vidioc_enum_fmt desc (other zero) index = enum_all desc index
mtk_cam_vidioc_enum_fmt desc bus index = some (enum_loop bus index 0 (listed desc))

-- `mtk_cam_vidioc_enum_framesizes`; `none` where `frmsizes` is a null pointer.
unfoldable pub mtk_cam_vidioc_enum_framesizes : NodeDesc → Fourcc → ℕ → Option (Result Stepwise)
unfolding mtk_cam_dev_find_fmt
mtk_cam_vidioc_enum_framesizes desc format index = elim (mtk_cam_dev_find_fmt desc format) [
  | none ↦ some (err einval)
  | some e ↦
      if index == 0
      then (elim desc.frmsizes [ none ↦ none | some s ↦ some (ok s) ])
      else some (err einval)
]
