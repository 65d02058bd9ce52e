-- ===== src/Uapi.antt =====
-- The kernel's names that the drivers use. `MEDIA_BUS_FMT_*` and the four standard Bayer fourcc
-- codes are defined in the kernel's headers, so they are constructors here: only their being
-- different counts, which C demands of the labels of one `switch`. The MTISP codes are those of
-- camera/driver/cam/mtk-uapi-compat.h.
use mt8183_kukui_pmos.Prelude.{ℕ, ◌+◌, ◌*◌, ◌^◌, Bool, true, false, ◌==◌, List, [], ◌∷◌}

-- `v4l2_fourcc(a, b, c, d)`: `a` is the lowest byte.
abbrev pub v4l2_fourcc : ℕ → ℕ → ℕ → ℕ → ℕ
v4l2_fourcc a b c d = a + b * 2 ^ 8 + c * 2 ^ 16 + d * 2 ^ 24

-- A 32-bit pixel format: a standard Bayer code, or any other by its number.
pub data Fourcc : Type 0 where
  sbggr8 sgbrg8 sgrbg8 srggb8 : Fourcc
  code : ℕ → Fourcc

abbrev pub same_fourcc : Fourcc → Fourcc → Bool
same_fourcc sbggr8 sbggr8 = true
same_fourcc sgbrg8 sgbrg8 = true
same_fourcc sgrbg8 sgrbg8 = true
same_fourcc srggb8 srggb8 = true
same_fourcc (code m) (code n) = m == n
same_fourcc _ _ = false

-- The packed codes ('M', 'B', order, depth) and the full-G codes ('M', 'F', order, depth).
abbrev pub mtisp : ℕ → ℕ → Fourcc
mtisp order depth = code (v4l2_fourcc b'M' b'B' order depth)

abbrev pub mtisp_f : ℕ → ℕ → Fourcc
mtisp_f order depth = code (v4l2_fourcc b'M' b'F' order depth)

-- `V4L2_PIX_FMT_MTISP_SBGGR8`, `SGBRG8`, `SGRBG8`, `SRGGB8` and so on, at one depth.
abbrev pub packed : ℕ → List Fourcc
packed depth = mtisp b'B' depth ∷ mtisp b'G' depth ∷ mtisp b'g' depth ∷ mtisp b'R' depth ∷ []

abbrev pub full_g : ℕ → List Fourcc
full_g depth =
    mtisp_f b'B' depth ∷ mtisp_f b'G' depth ∷ mtisp_f b'g' depth ∷ mtisp_f b'R' depth ∷ []

abbrev pub standard8 : List Fourcc
standard8 = sbggr8 ∷ sgbrg8 ∷ sgrbg8 ∷ srggb8 ∷ []

-- `V4L2_META_FMT_MTISP_*`
abbrev pub mtisp_3a : Fourcc
mtisp_3a = code (v4l2_fourcc b'M' b'T' b'f' b'a')

abbrev pub mtisp_af : Fourcc
mtisp_af = code (v4l2_fourcc b'M' b'T' b'f' b'f')

abbrev pub mtisp_lcs : Fourcc
mtisp_lcs = code (v4l2_fourcc b'M' b'T' b'f' b'c')

abbrev pub mtisp_lmv : Fourcc
mtisp_lmv = code (v4l2_fourcc b'M' b'T' b'f' b'm')

abbrev pub mtisp_params : Fourcc
mtisp_params = code (v4l2_fourcc b'M' b'T' b'f' b'p')

-- `MEDIA_BUS_FMT_*`; `other` is any code that no `switch` of the drivers names, by its number.
pub data MbusCode : Type 0 where
  sbggr8_1x8 sgbrg8_1x8 sgrbg8_1x8 srggb8_1x8 : MbusCode
  sbggr10_1x10 sgbrg10_1x10 sgrbg10_1x10 srggb10_1x10 : MbusCode
  sbggr12_1x12 sgbrg12_1x12 sgrbg12_1x12 srggb12_1x12 : MbusCode
  sbggr14_1x14 sgbrg14_1x14 sgrbg14_1x14 srggb14_1x14 : MbusCode
  sbggr10_dpcm8_1x8 sgbrg10_dpcm8_1x8 sgrbg10_dpcm8_1x8 srggb10_dpcm8_1x8 : MbusCode
  uyvy8_1x16 vyuy8_1x16 yuyv8_1x16 yvyu8_1x16 : MbusCode
  jpeg_1x8 s5c_uyvy_jpeg_1x8 : MbusCode
  other : ℕ → MbusCode

-- `enum v4l2_buf_type`, as far as the driver tells its members apart.
pub data BufType : Type 0 where
  meta_output meta_capture video_capture_mplane : BufType

-- `V4L2_TYPE_IS_OUTPUT`
abbrev pub type_is_output : BufType → Bool
type_is_output meta_output = true
type_is_output _ = false

-- The negative error numbers that the drivers return.
pub data Errno : Type 0 where
  einval ebusy enodev enolink enomem eperm efault : Errno
  errno : ℕ → Errno

pub data Result {ℓ} (A : Type ℓ) : Type ℓ where
  ok : A → Result A
  err : Errno → Result A

-- The colour fields of a format; 0, the value of a cleared field, is the `default` or `any` one.
pub data Colorspace : Type 0 where
  colorspace_default colorspace_srgb colorspace_raw : Colorspace
  colorspace : ℕ → Colorspace

pub data Field : Type 0 where
  field_any field_none : Field
  field : ℕ → Field

pub data YcbcrEnc : Type 0 where
  ycbcr_enc_default : YcbcrEnc
  ycbcr_enc : ℕ → YcbcrEnc

pub data Quantization : Type 0 where
  quantization_default : Quantization
  quantization : ℕ → Quantization

pub data XferFunc : Type 0 where
  xfer_func_default xfer_func_srgb : XferFunc
  xfer_func : ℕ → XferFunc

-- `struct v4l2_pix_format_mplane`, with the fields of its plane 0.
pub record PixMp : Type 0 where
  pub width : ℕ
  pub height : ℕ
  pub pixelformat : Fourcc
  pub bytesperline : ℕ
  pub sizeimage : ℕ
  pub num_planes : ℕ
  pub colorspace : Colorspace
  pub field : Field
  pub ycbcr_enc : YcbcrEnc
  pub quantization : Quantization
  pub xfer_func : XferFunc

-- `struct v4l2_meta_format`
pub record MetaFmt : Type 0 where
  pub dataformat : Fourcc
  pub buffersize : ℕ

-- `struct v4l2_format`: its union by its members.
pub data Fmt : Type 0 where
  pix_mp : PixMp → Fmt
  meta : MetaFmt → Fmt

pub record V4l2Format : Type 0 where
  pub buf_type : BufType
  pub fmt : Fmt
