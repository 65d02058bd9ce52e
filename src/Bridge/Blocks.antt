-- ===== src/Bridge/Blocks.antt =====
-- The colours of the blocks of two by two in tools/bridge.c, against the bit stream.
use mt8183_kukui_pmos.Prelude.{ℕ, zero, suc, ◌+◌, ◌-◌, ◌*◌, ◌/◌, ◌%◌, ◌^◌, ◌<◌, ◌≡◌, ap, ◌∙◌, arith}
use mt8183_kukui_pmos.Bridge.Pixels.{
  Bytes, get10, unpack, BayerOrder, rggb, grbg, bggr, gbrg, another, bayer_offset, Rgb, half_block,
}
use mt8183_kukui_pmos.Bridge.Convert.{row_colours}
use mt8183_kukui_pmos.Bridge.Unpacked.{unpack-get10}

-- The pixel at a row and a column of the frame.
abbrev pub raw : Bytes → ℕ → ℕ → ℕ → ℕ
raw frame stride row = get10 (λ i. frame (row * stride + i))

-- The colours at column `xx` and row `y` of the output: red and blue at their places in the block of
-- two by two, green as the mean of its two.
abbrev pub colours_at : BayerOrder → Bytes → ℕ → ℕ → ℕ → Rgb
colours_at order frame stride y xx =
    let (rx, ry) = bayer_offset order in
    record {
      red = raw frame stride (2 * y + ry) (2 * xx + rx);
      green =
          (raw frame stride (2 * y + ry) (2 * xx + (1 - rx))
            + raw frame stride (2 * y + (1 - ry)) (2 * xx + rx))
          / 2;
      blue = raw frame stride (2 * y + (1 - ry)) (2 * xx + (1 - rx));
    }

-- The block of a column: at an even `x`, and `half`.
abbrev pub column : (ℕ → ℕ → Rgb) → ℕ → Rgb
column colours xx = colours (2 * (xx / 2)) (xx % 2)

pub bayer_offset_lt :
    (order : BayerOrder) → ((bayer_offset order).0 < 2) × ((bayer_offset order).1 < 2)
unfolding bayer_offset
bayer_offset_lt rggb = (omega arith, omega arith)
bayer_offset_lt grbg = (omega arith, omega arith)
bayer_offset_lt bggr = (omega arith, omega arith)
bayer_offset_lt gbrg = (omega arith, omega arith)
bayer_offset_lt another = (omega arith, omega arith)

-- The colours that start at the column `at` of two rows.
abbrev block_at : Bytes → Bytes → ℕ → ℕ → Rgb
block_at row0 row1 at rx = record {
  red = get10 row0 (at + rx);
  green = (get10 row0 (at + (1 - rx)) + get10 row1 (at + rx)) / 2;
  blue = get10 row1 (at + (1 - rx));
}

-- The same by the columns of red and of blue.
abbrev block_of : Bytes → Bytes → ℕ → ℕ → Rgb
block_of row0 row1 a b = record {
  red = get10 row0 a;
  green = (get10 row0 b + get10 row1 a) / 2;
  blue = get10 row1 b;
}

block_path :
    (row0 row1 : Bytes) (a b c d : ℕ)
    → a ≡ c
    → b ≡ d
    → block_of row0 row1 a b ≡ block_of row0 row1 c d
block_path row0 row1 a b c d e f = ap (λ x. block_of row0 row1 x b) e ∙ ap (block_of row0 row1 c) f

half_block-get10 :
    (row0 row1 : Bytes) (g rx half : ℕ)
    → ((i : ℕ) → row0 i < 256)
    → ((i : ℕ) → row1 i < 256)
    → rx < 2
    → half < 2
    → half_block rx (unpack row0 (g * 5)) (unpack row1 (g * 5)) half
      ≡ block_at row0 row1 (4 * g + 2 * half) rx
unfolding half_block
half_block-get10 row0 row1 g zero zero h0 h1 sx sh =
    let (a0, a1, a2, a3) = unpack-get10 row0 g h0 in
    let (b0, b1, b2, b3) = unpack-get10 row1 g h1 in
    rw (a0, a1, b0, b1)
      (block_path row0 row1 (4 * g) (4 * g + 1) (4 * g + 2 * 0 + 0) (4 * g + 2 * 0 + (1 - 0))
        (omega arith) (omega arith))
half_block-get10 row0 row1 g (suc zero) zero h0 h1 sx sh =
    let (a0, a1, a2, a3) = unpack-get10 row0 g h0 in
    let (b0, b1, b2, b3) = unpack-get10 row1 g h1 in
    rw (a0, a1, b0, b1)
      (block_path row0 row1 (4 * g + 1) (4 * g) (4 * g + 2 * 0 + 1) (4 * g + 2 * 0 + (1 - 1))
        (omega arith) (omega arith))
half_block-get10 row0 row1 g zero (suc zero) h0 h1 sx sh =
    let (a0, a1, a2, a3) = unpack-get10 row0 g h0 in
    let (b0, b1, b2, b3) = unpack-get10 row1 g h1 in
    rw (a2, a3, b2, b3)
      (block_path row0 row1 (4 * g + 2) (4 * g + 3) (4 * g + 2 * 1 + 0) (4 * g + 2 * 1 + (1 - 0))
        (omega arith) (omega arith))
half_block-get10 row0 row1 g (suc zero) (suc zero) h0 h1 sx sh =
    let (a0, a1, a2, a3) = unpack-get10 row0 g h0 in
    let (b0, b1, b2, b3) = unpack-get10 row1 g h1 in
    rw (a2, a3, b2, b3)
      (block_path row0 row1 (4 * g + 3) (4 * g + 2) (4 * g + 2 * 1 + 1) (4 * g + 2 * 1 + (1 - 1))
        (omega arith) (omega arith))
half_block-get10 row0 row1 g (suc (suc rx)) half h0 h1 sx sh = absurd (omega arith)
half_block-get10 row0 row1 g rx (suc (suc half)) h0 h1 sx sh = absurd (omega arith)

-- The two rows of a block have the reference's colours.
pub row_colours-colours_at :
    (order : BayerOrder) (frame : Bytes) (stride y xx : ℕ)
    → ((i : ℕ) → frame i < 256)
    → column (row_colours order frame stride y) xx ≡ colours_at order frame stride y xx
row_colours-colours_at order frame stride y xx bytes =
    let (rx, ry) = bayer_offset order in
    let (small_x, small_y) = bayer_offset_lt order in
    let half = xx % 2 in
    let g = xx / 2 in
    let at : 2 * (xx / 2) / 2 ^ 1 ≡ xx / 2 = omega arith in
    let other : 2 * y + 1 - ry ≡ 2 * y + (1 - ry) = omega arith in
    rw (at, other)
      (half_block-get10 (λ i. frame ((2 * y + ry) * stride + i))
          (λ i. frame ((2 * y + (1 - ry)) * stride + i)) g rx half (λ i. bytes _) (λ i. bytes _)
          small_x (omega arith)
        ∙ ap
            (λ column.
              block_at (λ i. frame ((2 * y + ry) * stride + i))
                (λ i. frame ((2 * y + (1 - ry)) * stride + i)) column rx)
            (omega arith))
