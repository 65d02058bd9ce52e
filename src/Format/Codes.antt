-- ===== src/Format/Codes.antt =====
-- camera/driver/cam/mtk_cam.c, the `switch` tables from a pixel format or a media bus code to the
-- ISP's numbers.
use mt8183_kukui_pmos.Prelude.{
  ℕ, ◌/◌, ◌%◌, ◌^◌, Bool, List, ◌++◌, Option, none, some, ◌==◌, if◌then◌else◌, any,
}
use mt8183_kukui_pmos.Uapi.{
  Fourcc, sbggr8, sgbrg8, sgrbg8, srggb8, code, same_fourcc, packed, full_g, standard8, MbusCode,
  sbggr8_1x8, sgbrg8_1x8, sgrbg8_1x8, srggb8_1x8, sbggr10_1x10, sgbrg10_1x10, sgrbg10_1x10,
  srggb10_1x10, sbggr12_1x12, sgbrg12_1x12, sgrbg12_1x12, srggb12_1x12, sbggr14_1x14, sgbrg14_1x14,
  sgrbg14_1x14, srggb14_1x14, other,
}

-- Whether a `switch` on `f` has one of the labels.
unfoldable pub one_of : Fourcc → List Fourcc → Bool
one_of f labels = any (same_fourcc f) labels

unfoldable pub get_pixel_bits : Fourcc → ℕ
get_pixel_bits f =
    if one_of f (packed b'8' ++ full_g b'8' ++ standard8)
    then 8
    else if one_of f (packed b'A' ++ full_g b'A')
    then 10
    else if one_of f (packed b'C' ++ full_g b'C')
    then 12
    else if one_of f (packed b'E' ++ full_g b'E')
    then 14
    else 0

-- `MTK_CAM_IMG_FMT_*`
abbrev pub img_fmt_unknown : ℕ
img_fmt_unknown = 0x0000

abbrev pub img_fmt_bayer8 : ℕ
img_fmt_bayer8 = 0x2200

abbrev pub img_fmt_bayer10 : ℕ
img_fmt_bayer10 = 0x2201

abbrev pub img_fmt_bayer12 : ℕ
img_fmt_bayer12 = 0x2202

abbrev pub img_fmt_bayer14 : ℕ
img_fmt_bayer14 = 0x2203

abbrev pub img_fmt_fg_bayer8 : ℕ
img_fmt_fg_bayer8 = 0x2204

abbrev pub img_fmt_fg_bayer10 : ℕ
img_fmt_fg_bayer10 = 0x2205

abbrev pub img_fmt_fg_bayer12 : ℕ
img_fmt_fg_bayer12 = 0x2206

abbrev pub img_fmt_fg_bayer14 : ℕ
img_fmt_fg_bayer14 = 0x2207

unfoldable pub get_img_fmt : Fourcc → ℕ
get_img_fmt f =
    if one_of f (packed b'8' ++ standard8)
    then img_fmt_bayer8
    else if one_of f (full_g b'8')
    then img_fmt_fg_bayer8
    else if one_of f (packed b'A')
    then img_fmt_bayer10
    else if one_of f (full_g b'A')
    then img_fmt_fg_bayer10
    else if one_of f (packed b'C')
    then img_fmt_bayer12
    else if one_of f (full_g b'C')
    then img_fmt_fg_bayer12
    else if one_of f (packed b'E')
    then img_fmt_bayer14
    else if one_of f (full_g b'E')
    then img_fmt_fg_bayer14
    else img_fmt_unknown

-- `MTK_CAM_RAW_PXL_ID_*`
abbrev pub raw_pxl_id_b : ℕ
raw_pxl_id_b = 0

abbrev pub raw_pxl_id_gb : ℕ
raw_pxl_id_gb = 1

abbrev pub raw_pxl_id_gr : ℕ
raw_pxl_id_gr = 2

abbrev pub raw_pxl_id_r : ℕ
raw_pxl_id_r = 3

abbrev pub raw_pxl_id_unknown : ℕ
raw_pxl_id_unknown = 4

unfoldable pub get_sensor_pixel_id : MbusCode → ℕ
get_sensor_pixel_id sbggr8_1x8 = raw_pxl_id_b
get_sensor_pixel_id sbggr10_1x10 = raw_pxl_id_b
get_sensor_pixel_id sbggr12_1x12 = raw_pxl_id_b
get_sensor_pixel_id sbggr14_1x14 = raw_pxl_id_b
get_sensor_pixel_id sgbrg8_1x8 = raw_pxl_id_gb
get_sensor_pixel_id sgbrg10_1x10 = raw_pxl_id_gb
get_sensor_pixel_id sgbrg12_1x12 = raw_pxl_id_gb
get_sensor_pixel_id sgbrg14_1x14 = raw_pxl_id_gb
get_sensor_pixel_id sgrbg8_1x8 = raw_pxl_id_gr
get_sensor_pixel_id sgrbg10_1x10 = raw_pxl_id_gr
get_sensor_pixel_id sgrbg12_1x12 = raw_pxl_id_gr
get_sensor_pixel_id sgrbg14_1x14 = raw_pxl_id_gr
get_sensor_pixel_id srggb8_1x8 = raw_pxl_id_r
get_sensor_pixel_id srggb10_1x10 = raw_pxl_id_r
get_sensor_pixel_id srggb12_1x12 = raw_pxl_id_r
get_sensor_pixel_id srggb14_1x14 = raw_pxl_id_r
get_sensor_pixel_id _ = raw_pxl_id_unknown

unfoldable pub get_sensor_fmt : MbusCode → ℕ
get_sensor_fmt sbggr8_1x8 = img_fmt_bayer8
get_sensor_fmt sgbrg8_1x8 = img_fmt_bayer8
get_sensor_fmt sgrbg8_1x8 = img_fmt_bayer8
get_sensor_fmt srggb8_1x8 = img_fmt_bayer8
get_sensor_fmt sbggr10_1x10 = img_fmt_bayer10
get_sensor_fmt sgbrg10_1x10 = img_fmt_bayer10
get_sensor_fmt sgrbg10_1x10 = img_fmt_bayer10
get_sensor_fmt srggb10_1x10 = img_fmt_bayer10
get_sensor_fmt sbggr12_1x12 = img_fmt_bayer12
get_sensor_fmt sgbrg12_1x12 = img_fmt_bayer12
get_sensor_fmt sgrbg12_1x12 = img_fmt_bayer12
get_sensor_fmt srggb12_1x12 = img_fmt_bayer12
get_sensor_fmt sbggr14_1x14 = img_fmt_bayer14
get_sensor_fmt sgbrg14_1x14 = img_fmt_bayer14
get_sensor_fmt sgrbg14_1x14 = img_fmt_bayer14
get_sensor_fmt srggb14_1x14 = img_fmt_bayer14
get_sensor_fmt _ = img_fmt_unknown

-- The third and fourth byte of a code, which say the Bayer order and the depth.
order_index : ℕ → Option ℕ
order_index n =
    if n / 2 ^ 16 % 2 ^ 8 == b'B'
    then some 0
    else if n / 2 ^ 16 % 2 ^ 8 == b'G'
    then some 1
    else if n / 2 ^ 16 % 2 ^ 8 == b'g'
    then some 2
    else if n / 2 ^ 16 % 2 ^ 8 == b'R'
    then some 3
    else none

depth_index : ℕ → Option ℕ
depth_index n =
    if n / 2 ^ 24 % 2 ^ 8 == b'8'
    then some 0
    else if n / 2 ^ 24 % 2 ^ 8 == b'A'
    then some 1
    else if n / 2 ^ 24 % 2 ^ 8 == b'C'
    then some 2
    else if n / 2 ^ 24 % 2 ^ 8 == b'E'
    then some 3
    else none

-- `codes[order][depth]`; an index is 3 at most.
mbus_codes : ℕ → ℕ → MbusCode
mbus_codes order depth =
    if order == 0
    then row sbggr8_1x8 sbggr10_1x10 sbggr12_1x12 sbggr14_1x14
    else if order == 1
    then row sgbrg8_1x8 sgbrg10_1x10 sgbrg12_1x12 sgbrg14_1x14
    else if order == 2
    then row sgrbg8_1x8 sgrbg10_1x10 sgrbg12_1x12 sgrbg14_1x14
    else row srggb8_1x8 srggb10_1x10 srggb12_1x12 srggb14_1x14
  where
    row : MbusCode → MbusCode → MbusCode → MbusCode → MbusCode
    row a b c d = if depth == 0 then a else if depth == 1 then b else if depth == 2 then c else d

code_to_mbus : Option ℕ → Option ℕ → MbusCode
unfolding mbus_codes
code_to_mbus none depth = other 0
code_to_mbus (some order) none = other 0
code_to_mbus (some order) (some depth) = mbus_codes order depth

unfoldable pub mtk_cam_fmt_to_mbus : Fourcc → MbusCode
unfolding order_index depth_index code_to_mbus
mtk_cam_fmt_to_mbus sbggr8 = sbggr8_1x8
mtk_cam_fmt_to_mbus sgbrg8 = sgbrg8_1x8
mtk_cam_fmt_to_mbus sgrbg8 = sgrbg8_1x8
mtk_cam_fmt_to_mbus srggb8 = srggb8_1x8
mtk_cam_fmt_to_mbus (code n) = code_to_mbus (order_index n) (depth_index n)

-- `none` is the result -1.
unfoldable pub mtk_cam_bayer_order : MbusCode → Option ℕ
mtk_cam_bayer_order sbggr8_1x8 = some 0
mtk_cam_bayer_order sbggr10_1x10 = some 0
mtk_cam_bayer_order sbggr12_1x12 = some 0
mtk_cam_bayer_order sbggr14_1x14 = some 0
mtk_cam_bayer_order sgbrg8_1x8 = some 1
mtk_cam_bayer_order sgbrg10_1x10 = some 1
mtk_cam_bayer_order sgbrg12_1x12 = some 1
mtk_cam_bayer_order sgbrg14_1x14 = some 1
mtk_cam_bayer_order sgrbg8_1x8 = some 2
mtk_cam_bayer_order sgrbg10_1x10 = some 2
mtk_cam_bayer_order sgrbg12_1x12 = some 2
mtk_cam_bayer_order sgrbg14_1x14 = some 2
mtk_cam_bayer_order srggb8_1x8 = some 3
mtk_cam_bayer_order srggb10_1x10 = some 3
mtk_cam_bayer_order srggb12_1x12 = some 3
mtk_cam_bayer_order srggb14_1x14 = some 3
mtk_cam_bayer_order _ = none
