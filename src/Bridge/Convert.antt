-- ===== src/Bridge/Convert.antt =====
-- tools/bridge.c: the colours of a pixel as YUYV, and the loops over a frame.
use mt8183_kukui_pmos.Prelude.{
  ℕ, zero, suc, ◌+◌, ◌-◌, ◌*◌, ◌/◌, ◌%◌, ◌^◌, ◌==◌, ltb, if◌then◌else◌, u32,
}
use mt8183_kukui_pmos.Bridge.Pixels.{Bytes, unpack, BayerOrder, bayer_offset, Rgb, half_block}

-- `int`, as far as the conversion uses it: its results stay far inside 32 bits.
pub data ℤ : Type 0 where
  pos : ℕ → ℤ
  negsuc : ℕ → ℤ

-- The difference of two natural numbers.
unfoldable pub sub_nat_nat : ℕ → ℕ → ℤ
sub_nat_nat a b = if ltb a b then negsuc (b - a - 1) else pos (a - b)

-- `x >> 8`, which rounds down.
unfoldable pub shift_right : ℤ → ℤ
shift_right (pos n) = pos (n / 2 ^ 8)
shift_right (negsuc n) = negsuc (n / 2 ^ 8)

-- `x + n` of a constant
unfoldable pub add_nat : ℤ → ℕ → ℤ
add_nat (pos n) m = pos (n + m)
add_nat (negsuc n) m = if ltb n m then pos (m - 1 - n) else negsuc (n - m)

-- `if (x < 0) x = 0; if (x > 255) x = 255;`
unfoldable pub clamp : ℤ → ℕ
clamp (pos n) = if ltb 255 n then 255 else n
clamp (negsuc n) = 0

-- `Y`, `U` and `V` before they are clamped, of three bytes.
unfoldable pub luma : ℕ → ℕ → ℕ → ℤ
luma r g b = shift_right (pos (77 * r + 150 * g + 29 * b))

unfoldable pub chroma_u : ℕ → ℕ → ℕ → ℤ
unfolding sub_nat_nat add_nat
chroma_u r g b = add_nat (shift_right (sub_nat_nat (128 * b) (43 * r + 85 * g))) 128

unfoldable pub chroma_v : ℕ → ℕ → ℕ → ℤ
unfolding sub_nat_nat add_nat
chroma_v r g b = add_nat (shift_right (sub_nat_nat (128 * r) (107 * g + 21 * b))) 128

-- The floating-point state of a frame: `(unsigned)(x * wb[c])` of each colour, and `lut`.
pub record Tone : Type 0 where
  pub balance_red : ℕ → ℕ
  pub balance_green : ℕ → ℕ
  pub balance_blue : ℕ → ℕ
  pub lut : ℕ → ℕ

abbrev pub at_most : ℕ → ℕ → ℕ
at_most limit n = if ltb limit n then limit else n

-- `lut[Ri]`, `lut[Gi]`, `lut[Bi]`
abbrev pub toned : Tone → Rgb → Rgb
toned t c = record {
  red = t.lut (at_most 1023 (t.balance_red c.red));
  green = t.lut (at_most 1023 (t.balance_green c.green));
  blue = t.lut (at_most 1023 (t.balance_blue c.blue));
}

abbrev pub put : ℕ → ℕ → Bytes → Bytes
put to value memory i = if i == to then value else memory i

-- The two bytes that pixel `xx` writes, by their colours.
abbrev pub luma_byte : Tone → Rgb → ℕ
luma_byte t c = let v = toned t c in clamp (luma v.red v.green v.blue)

abbrev pub chroma_byte : Tone → ℕ → Rgb → ℕ
chroma_byte t xx c =
    let v = toned t c in
    if xx % 2 == 0
    then clamp (chroma_u v.red v.green v.blue)
    else clamp (chroma_v v.red v.green v.blue)

abbrev pub put_pixel : Tone → ℕ → ℕ → Rgb → Bytes → Bytes
put_pixel t o xx c memory =
    put (o + 2 * xx + 1) (chroma_byte t xx c) (put (o + 2 * xx) (luma_byte t c) memory)

-- The rounds of the loop over `x` below twice their number; `x` is even and `colours x half` is the
-- block at `x + half`.
unfoldable pub x_loop : Tone → (ℕ → ℕ → Rgb) → ℕ → ℕ → ℕ → Bytes → Bytes
x_loop t colours width o zero memory = memory
x_loop t colours width o (suc rounds) memory =
    let x = 2 * rounds in
    let before = x_loop t colours width o rounds memory in
    let first = if ltb x width then put_pixel t o x (colours x 0) before else before in
    if ltb (x + 1) width then put_pixel t o (x + 1) (colours x 1) first else first

-- The blocks at `x`, of two rows of the frame.
abbrev pub row_colours : BayerOrder → Bytes → ℕ → ℕ → ℕ → ℕ → Rgb
row_colours order frame stride y x half =
    let (rx, ry) = bayer_offset order in
    let r0 = (2 * y + ry) * stride in
    let r1 = (2 * y + 1 - ry) * stride in
    let g = x / 2 ^ 1 * 5 in
    half_block rx (unpack (λ i. frame (r0 + i)) g) (unpack (λ i. frame (r1 + i)) g) half

-- The rounds of the loop over `y` below a number; `width` is `OW`.
unfoldable pub y_loop : Tone → BayerOrder → Bytes → ℕ → ℕ → ℕ → Bytes → Bytes
unfolding x_loop half_block unpack
y_loop t order frame stride width zero yuyv = yuyv
y_loop t order frame stride width (suc y) yuyv =
    x_loop t (row_colours order frame stride y) width (y * width * 2) ((width + 1) / 2)
      (y_loop t order frame stride width y yuyv)

-- `stride`, in 32 bits.
unfoldable pub frame_stride : ℕ → ℕ
frame_stride w = u32 (w * 10) / 8

-- A frame of `w` by `h` pixels into the buffer of the output.
unfoldable pub convert : Tone → BayerOrder → ℕ → ℕ → Bytes → Bytes → Bytes
unfolding y_loop
convert t order w h frame yuyv = y_loop t order frame (frame_stride w) (w / 2) (h / 2) yuyv
