-- ===== src/Seninf/Formats.antt =====
-- camera/driver/seninf/mtk_seninf.c: the formats of the pads, and the links that select a sensor and
-- a camera.
use mt8183_kukui_pmos.Prelude.{
  ℕ, ◌-◌, ◌%◌, ◌^◌, ◌==◌, ltb, leb, if◌then◌else◌, Bool, ◌&&◌, not, Option, some, none, u32, ◌+◌,
}
use mt8183_kukui_pmos.Uapi.{
  MbusCode, other, sbggr10_1x10, field_none, colorspace_srgb, xfer_func_default, ycbcr_enc_default,
  quantization_default, Errno, einval, Result, ok, err, sgbrg10_1x10, sgrbg10_1x10, srggb10_1x10,
  sbggr12_1x12, sgbrg12_1x12, sgrbg12_1x12, srggb12_1x12, sbggr10_dpcm8_1x8, sgbrg10_dpcm8_1x8,
  sgrbg10_dpcm8_1x8, srggb10_dpcm8_1x8, uyvy8_1x16, vyuy8_1x16, yuyv8_1x16, yvyu8_1x16, jpeg_1x8,
  s5c_uyvy_jpeg_1x8,
}
use mt8183_kukui_pmos.Seninf.State.{Seninf, FrameFmt, num_pads, num_sensors, cam_mux_idx_min}

abbrev pub default_fmt : FrameFmt
default_fmt = record {
  code = sbggr10_1x10;
  width = 1600;
  height = 1200;
  field = field_none;
  colorspace = colorspace_srgb;
  xfer_func = xfer_func_default;
  ycbcr_enc = ycbcr_enc_default;
  quantization = quantization_default;
}

-- `init_fmt`; pads past the array have the default too.
abbrev pub init_fmt : Seninf → Seninf
init_fmt s = record s { fmt = λ i. default_fmt }

-- `seninf_init_state`: the formats of a state.
abbrev pub seninf_init_state : ℕ → FrameFmt
seninf_init_state i = default_fmt

-- A missing code is replaced.
unfoldable pub known_code : MbusCode → MbusCode
known_code (other n) =
    if n == 2 ^ 32 - 1 then sbggr10_1x10 else if n == 0 then sbggr10_1x10 else other n
known_code code = code

abbrev pub with_code : FrameFmt → FrameFmt
with_code f = record f { code = known_code f.code }

abbrev pub set_pad : ℕ → FrameFmt → (ℕ → FrameFmt) → ℕ → FrameFmt
set_pad pad f fmts i = if i == pad then f else fmts i

-- The loop over the source pads.
abbrev pub set_sources : FrameFmt → (ℕ → FrameFmt) → ℕ → FrameFmt
set_sources f fmts i = if leb cam_mux_idx_min i && ltb i num_pads then f else fmts i

-- What the active format of the pad takes over of a request: code, width and height.
abbrev pub take_over : FrameFmt → FrameFmt → FrameFmt
take_over f old = record old { code = f.code; width = f.width; height = f.height }

-- `seninf_set_fmt` on the active formats: the result is `fmt->format` and the formats.
unfoldable pub seninf_set_fmt : ℕ → FrameFmt → (ℕ → FrameFmt) → FrameFmt × (ℕ → FrameFmt)
seninf_set_fmt pad request fmts =
    let f = with_code request in
    let own = set_pad pad (take_over f (fmts pad)) fmts in
    (f, if ltb pad num_sensors then set_sources f own else own)

-- `seninf_set_fmt` with `V4L2_SUBDEV_FORMAT_TRY`, on the formats of a state.
unfoldable pub seninf_set_try_fmt : ℕ → FrameFmt → (ℕ → FrameFmt) → FrameFmt × (ℕ → FrameFmt)
seninf_set_try_fmt pad request fmts =
    let f = with_code request in
    let own = set_pad pad f fmts in (f, if ltb pad num_sensors then set_sources f own else own)

-- `seninf_get_fmt`; all fields of the format are copied, in both cases.
unfoldable pub seninf_get_fmt : ℕ → (ℕ → FrameFmt) → FrameFmt
seninf_get_fmt pad fmts = fmts pad

unfoldable pub seninf_enum_mbus_code : ℕ → (ℕ → FrameFmt) → Result MbusCode
seninf_enum_mbus_code index fmts = if leb num_pads index then err einval else ok ((fmts index).code)

-- The flag of a pad, sink or source.
pub data PadFlag : Type 0 where
  sink source : PadFlag

-- `seninf_link_setup` of a link at the local pad; the index is a `u16`, and `mux_sel` an `unsigned`.
unfoldable pub seninf_link_setup : PadFlag → ℕ → Bool → Seninf → Seninf × Option Errno
seninf_link_setup source index enabled s =
    if enabled
    then (record s { mux_sel = u32 (index + (2 ^ 32 - cam_mux_idx_min)) }, none)
    else (s, none)
seninf_link_setup sink index enabled s =
    if not enabled
    then (s, none)
    else if leb num_sensors index
    then (record s { port = index }, some einval)
    else (record s { port = index }, none)

unfoldable pub mtk_seninf_get_dpcm : Seninf → ℕ
mtk_seninf_get_dpcm s = dpcm (s.fmt s.port).code
  where
    dpcm : MbusCode → ℕ
    dpcm sgrbg10_dpcm8_1x8 = 0x2a
    dpcm srggb10_dpcm8_1x8 = 0x2a
    dpcm sbggr10_dpcm8_1x8 = 0x2a
    dpcm sgbrg10_dpcm8_1x8 = 0x2a
    dpcm _ = 0

-- The format of the interface, by a media bus code: `RAW_8BIT_FMT`, `RAW_10BIT_FMT` and so on.
unfoldable pub code_fmt : MbusCode → ℕ
code_fmt sgrbg10_1x10 = 1
code_fmt srggb10_1x10 = 1
code_fmt sbggr10_1x10 = 1
code_fmt sgbrg10_1x10 = 1
code_fmt sbggr12_1x12 = 2
code_fmt sgbrg12_1x12 = 2
code_fmt sgrbg12_1x12 = 2
code_fmt srggb12_1x12 = 2
code_fmt uyvy8_1x16 = 3
code_fmt vyuy8_1x16 = 3
code_fmt yuyv8_1x16 = 3
code_fmt yvyu8_1x16 = 3
code_fmt jpeg_1x8 = 7
code_fmt s5c_uyvy_jpeg_1x8 = 7
code_fmt _ = 0

abbrev pub jpeg_fmt : ℕ
jpeg_fmt = 7

unfoldable pub mtk_seninf_map_fmt : Seninf → ℕ
unfolding code_fmt
mtk_seninf_map_fmt s = code_fmt (s.fmt s.port).code

-- `mtk_seninf_notifier_bound` of a sensor at a port with its lanes; `link` is the answer of
-- `media_create_pad_link`. `num_data_lanes` is an `unsigned short`.
unfoldable pub mtk_seninf_notifier_bound : ℕ → ℕ → Option Errno → Seninf → Seninf × Option Errno
mtk_seninf_notifier_bound port lanes link s = (
  record s { num_data_lanes = λ i. if i == port then lanes % 2 ^ 16 else s.num_data_lanes i },
  link,
)
