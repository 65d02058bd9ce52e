-- ===== src/Bridge/Pixels.antt =====
-- tools/bridge.c: the pixels of a packed frame, and the colours of a block of two by two.
use mt8183_kukui_pmos.Prelude.{ℕ, ◌+◌, ◌-◌, ◌*◌, ◌/◌, ◌^◌, ◌==◌, if◌then◌else◌, bit_and, bit_or}

-- Memory, by the byte.
abbrev pub Bytes : Type 0
Bytes = ℕ → ℕ

-- `get10`: pixel `i` of a row.
unfoldable pub get10 : Bytes → ℕ → ℕ
get10 row i =
    let bit = i * 10 in
    let at = bit / 2 ^ 3 in
    let sh = bit_and bit 7 in
    let v = bit_or (bit_or (row at) (row (at + 1) * 2 ^ 8)) (row (at + 2) * 2 ^ 16) in
    bit_and (v / 2 ^ sh) 0x3ff

-- The four pixels of five bytes: `a0` to `a3`, and `b0` to `b3` of the other row.
pub record Quad : Type 0 where
  pub p0 : ℕ
  pub p1 : ℕ
  pub p2 : ℕ
  pub p3 : ℕ

unfoldable pub unpack : Bytes → ℕ → Quad
unpack row g = record {
  p0 = bit_or (row g) (bit_and (row (g + 1)) 0x03 * 2 ^ 8);
  p1 = bit_or (row (g + 1) / 2 ^ 2) (bit_and (row (g + 2)) 0x0f * 2 ^ 6);
  p2 = bit_or (row (g + 2) / 2 ^ 4) (bit_and (row (g + 3)) 0x3f * 2 ^ 4);
  p3 = bit_or (row (g + 3) / 2 ^ 6) (row (g + 4) * 2 ^ 2);
}

-- The argument `bp`: one of the four orders that are compared, or any other text.
pub data BayerOrder : Type 0 where
  rggb grbg bggr gbrg another : BayerOrder

-- `rx` and `ry`
unfoldable pub bayer_offset : BayerOrder → ℕ × ℕ
bayer_offset grbg = (1, 0)
bayer_offset bggr = (1, 1)
bayer_offset gbrg = (0, 1)
bayer_offset rggb = (0, 0)
bayer_offset another = (0, 0)

-- An array of four.
abbrev pub array : ℕ → ℕ → ℕ → ℕ → ℕ → ℕ
array a b c d i = if i == 0 then a else if i == 1 then b else if i == 2 then c else d

pub record Rgb : Type 0 where
  pub red : ℕ
  pub green : ℕ
  pub blue : ℕ

-- The colours of a block `q`: the row of red first.
abbrev pub block : ℕ → (ℕ → ℕ) → Rgb
block rx q = record {
  red = q rx;
  green = (q (1 - rx) + q (2 + rx)) / 2 ^ 1;
  blue = q (2 + (1 - rx));
}

-- The two blocks that five bytes of both rows hold, by `half`.
unfoldable pub half_block : ℕ → Quad → Quad → ℕ → Rgb
half_block rx a b half =
    if half == 0 then block rx (array a.p0 a.p1 b.p0 b.p1) else block rx (array a.p2 a.p3 b.p2 b.p3)
