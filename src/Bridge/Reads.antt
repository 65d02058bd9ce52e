-- ===== src/Bridge/Reads.antt =====
-- The bytes of the frame that tools/bridge.c reads.
use mt8183_kukui_pmos.Prelude.{
  ℕ, zero, suc, ◌+◌, ◌-◌, ◌*◌, ◌/◌, ◌%◌, ◌^◌, ◌<◌, ◌≤◌, ◌≡◌, refl, ap, ◌∙◌, arith, ltb, Bool-cases,
  false, inl, inr,
}
use mt8183_kukui_pmos.Bridge.Pixels.{Bytes, unpack, BayerOrder, bayer_offset, Rgb}
use mt8183_kukui_pmos.Bridge.Convert.{frame_stride, Tone, x_loop, row_colours, y_loop, convert}
use mt8183_kukui_pmos.Bridge.Blocks.{bayer_offset_lt}

unpack_agree :
    (row other : Bytes) (g : ℕ)
    → ((k : ℕ) → k < 5 → row (g + k) ≡ other (g + k))
    → unpack row g ≡ unpack other g
unfolding unpack
unpack_agree row other g h =
    let h0 : row g ≡ other g =
      ap row (omega arith) ∙ (h 0 (omega arith) ∙ ap other (omega arith)) in
    rw (h0, h 1 (omega arith), h 2 (omega arith), h 3 (omega arith), h 4 (omega arith))

x_loop_agree :
    (t : Tone) (colours others : ℕ → ℕ → Rgb) (width o rounds : ℕ) (memory : Bytes)
    → ((x half : ℕ) → 2 * x < width → colours (2 * x) half ≡ others (2 * x) half)
    → x_loop t colours width o rounds memory ≡ x_loop t others width o rounds memory
unfolding x_loop
x_loop_agree t colours others width o zero memory h = refl
x_loop_agree t colours others width o (suc k) memory h =
    let x = 2 * k in
    let rest = x_loop_agree t colours others width o k memory h in
    elim (Bool-cases (ltb x width)) [
      | inl one ↦ rw (rest, h k 0 (ground arith), h k 1 (ground arith)) refl
      | inr none' ↦ let last : ltb (x + 1) width ≡ false = ground arith in rw (none', last) rest
    ]

-- A byte of a row stays in the frame.
read_lt : (row h stride at : ℕ) → row < h → at < stride → row * stride + at < h * stride
read_lt row h stride at l k = grind arith

row_colours_agree :
    (order : BayerOrder) (frame other : Bytes) (w h y x half : ℕ)
    → w % 4 ≡ 0
    → w * 10 < 2 ^ 32
    → ((i : ℕ) → i < h * (frame_stride w) → frame i ≡ other i)
    → y < h / 2
    → 2 * x < w / 2
    → row_colours order frame (frame_stride w) y (2 * x) half
      ≡ row_colours order other (frame_stride w) y (2 * x) half
unfolding frame_stride
row_colours_agree order frame other w h y x half even small_w same in_frame in_row =
    let stride = frame_stride w in
    let (rx, ry) = bayer_offset order in
    let small = (bayer_offset_lt order).1 in
    let g = 2 * x / 2 ^ 1 * 5 in
    let first =
      unpack_agree (λ i. frame ((2 * y + ry) * stride + i)) (λ i. other ((2 * y + ry) * stride + i))
        g (λ k. λ l. same _ (read_lt (2 * y + ry) h stride (g + k) (omega arith) (omega arith))) in
    let next =
      unpack_agree (λ i. frame ((2 * y + 1 - ry) * stride + i))
        (λ i. other ((2 * y + 1 - ry) * stride + i)) g
        (λ k.
          λ l. same _ (read_lt (2 * y + 1 - ry) h stride (g + k) (omega arith) (omega arith))) in
    rw (first, next) refl

y_loop_agree :
    (t : Tone) (order : BayerOrder) (frame other : Bytes) (w h rounds : ℕ) (memory : Bytes)
    → w % 4 ≡ 0
    → w * 10 < 2 ^ 32
    → ((i : ℕ) → i < h * (frame_stride w) → frame i ≡ other i)
    → rounds ≤ h / 2
    → y_loop t order frame (frame_stride w) (w / 2) rounds memory
      ≡ y_loop t order other (frame_stride w) (w / 2) rounds memory
unfolding y_loop
y_loop_agree t order frame other w h zero memory even small_w same l = refl
y_loop_agree t order frame other w h (suc y) memory even small_w same l =
    let width = w / 2 in
    let stride = frame_stride w in
    let rest = y_loop_agree t order frame other w h y memory even small_w same (omega arith) in
    ap (x_loop t (row_colours order frame stride y) width (y * width * 2) ((width + 1) / 2)) rest
    ∙ x_loop_agree t (row_colours order frame stride y) (row_colours order other stride y) width
        (y * width * 2) ((width + 1) / 2) (y_loop t order other stride width y memory)
        (λ x. λ half. λ in_row.
          row_colours_agree order frame other w h y x half even small_w same (omega arith) in_row)

-- The output depends only on the frame's `h` lines: with a width that is a multiple of 4 and
-- whose tenfold is below 2 ^ 32, two frames
-- that agree in the bytes below `h * stride` are converted alike, so the groups of five bytes never
-- reach past the last line.
pub convert_agree :
    (t : Tone) (order : BayerOrder) (frame other yuyv : Bytes) (w h : ℕ)
    → w % 4 ≡ 0
    → w * 10 < 2 ^ 32
    → ((i : ℕ) → i < h * (frame_stride w) → frame i ≡ other i)
    → convert t order w h frame yuyv ≡ convert t order w h other yuyv
unfolding convert
convert_agree t order frame other yuyv w h even small_w same =
    y_loop_agree t order frame other w h (h / 2) yuyv even small_w same (omega arith)
