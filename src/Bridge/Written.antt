-- ===== src/Bridge/Written.antt =====
-- The frame that tools/bridge.c writes, against a description of each of its pixels.
use mt8183_kukui_pmos.Prelude.{
  ℕ, zero, suc, ◌+◌, ◌*◌, ◌/◌, ◌%◌, ◌<◌, ◌≤◌, ◌≡◌, ◌≢◌, ◌⊎◌, refl, sym, subst, ◌∙◌, arith, ◌==◌,
  ltb, Bool-cases, true, false, inl, inr,
}
use mt8183_kukui_pmos.Bridge.Pixels.{Bytes, BayerOrder, Rgb}
use mt8183_kukui_pmos.Bridge.Convert.{
  frame_stride, Tone, luma_byte, chroma_byte, put_pixel, x_loop, row_colours, y_loop, convert,
}
use mt8183_kukui_pmos.Bridge.Blocks.{colours_at, column, row_colours-colours_at}

-- What the two bytes of a pixel are.
abbrev pub IsPixel : Tone → ℕ → ℕ → Rgb → Bytes → Type 0
IsPixel t o xx c memory =
    (memory (o + 2 * xx) ≡ luma_byte t c) × (memory (o + 2 * xx + 1) ≡ chroma_byte t xx c)

put_pixel-IsPixel :
    (t : Tone) (o xx : ℕ) (c : Rgb) (memory : Bytes) → IsPixel t o xx c (put_pixel t o xx c memory)
put_pixel-IsPixel t o xx c memory =
    let first : (o + 2 * xx == o + 2 * xx + 1) ≡ false = ground arith in
    let own : (o + 2 * xx == o + 2 * xx) ≡ true = ground arith in
    let next : (o + 2 * xx + 1 == o + 2 * xx + 1) ≡ true = ground arith in
    (rw (first, own) refl, rw next refl)

-- A pixel's bytes stay when another is written.
put_pixel_other :
    (t : Tone) (o xx i : ℕ) (c : Rgb) (memory : Bytes)
    → (i < o + 2 * xx) ⊎ (o + 2 * xx + 1 < i)
    → put_pixel t o xx c memory i ≡ memory i
put_pixel_other t o xx i c memory h =
    let first : (i == o + 2 * xx) ≡ false = ground arith in
    let next : (i == o + 2 * xx + 1) ≡ false = ground arith in rw (first, next) refl

x_loop_outside :
    (t : Tone) (colours : ℕ → ℕ → Rgb) (width o rounds i : ℕ) (memory : Bytes)
    → (i < o) ⊎ (o + 2 * width ≤ i)
    → x_loop t colours width o rounds memory i ≡ memory i
unfolding x_loop
x_loop_outside t colours width o zero i memory h = refl
x_loop_outside t colours width o (suc k) i memory h =
    let x = 2 * k in
    let rest = x_loop_outside t colours width o k i memory h in
    let before = x_loop t colours width o k memory in
    elim (Bool-cases (ltb (x + 1) width)) [
      | inl both ↦
          let one : ltb x width ≡ true = ground arith in
          rw (both, one)
            (put_pixel_other t o (x + 1) i (colours x 1) (put_pixel t o x (colours x 0) before)
                (ground arith)
              ∙ (put_pixel_other t o x i (colours x 0) before (ground arith) ∙ rest))
      | inr last ↦ rw last (elim (Bool-cases (ltb x width)) [
        | inl one ↦ rw one (put_pixel_other t o x i (colours x 0) before (ground arith) ∙ rest)
        | inr no' ↦ rw no' rest
      ])
    ]

IsPixel-put_pixel :
    (t : Tone) (o xx other : ℕ) (c d : Rgb) (memory : Bytes)
    → xx ≢ other
    → IsPixel t o xx c memory
    → IsPixel t o xx c (put_pixel t o other d memory)
IsPixel-put_pixel t o xx other c d memory differ (first, next) = (
  put_pixel_other t o other (o + 2 * xx) d memory (ground arith) ∙ first,
  put_pixel_other t o other (o + 2 * xx + 1) d memory (ground arith) ∙ next,
)

column-IsPixel :
    (t : Tone) (colours : ℕ → ℕ → Rgb) (o k half xx x : ℕ) (memory : Bytes)
    → x ≡ 2 * k + half
    → half < 2
    → xx ≡ x
    → IsPixel t o x (colours (2 * k) half) memory
    → IsPixel t o xx (column colours xx) memory
column-IsPixel t colours o k half xx x memory place small e p =
    let low : 2 * (xx / 2) ≡ 2 * k = omega arith in
    let bit : xx % 2 ≡ half = omega arith in
    let colour : column colours xx ≡ colours (2 * k) half = rw (low, bit) refl in
    subst (λ c. IsPixel t o xx c memory) (sym colour)
      (subst (λ z. IsPixel t o z (colours (2 * k) half) memory) (sym e) p)

x_loop-IsPixel :
    (t : Tone) (colours : ℕ → ℕ → Rgb) (width o rounds xx : ℕ) (memory : Bytes)
    → xx < width
    → xx < 2 * rounds
    → IsPixel t o xx (column colours xx) (x_loop t colours width o rounds memory)
unfolding x_loop
x_loop-IsPixel t colours width o zero xx memory h l = absurd (omega arith)
x_loop-IsPixel t colours width o (suc k) xx memory h l =
    let x = 2 * k in
    let before = x_loop t colours width o k memory in
    let first = put_pixel t o x (colours x 0) before in
    let second = put_pixel t o (x + 1) (colours x 1) first in
    let in_first : (xx ≢ x + 1) → (ltb x width ≡ true) → IsPixel t o xx (column colours xx) first =
      λ differ. λ one. elim (Bool-cases (xx == x)) [
        | inl here ↦
            column-IsPixel t colours o k 0 xx x first (omega arith) (omega arith) (ground arith)
              (put_pixel-IsPixel t o x (colours x 0) before)
        | inr there ↦
            IsPixel-put_pixel t o xx x (column colours xx) (colours x 0) before (ground arith)
              (x_loop-IsPixel t colours width o k xx memory h (ground arith))
      ] in
    elim (Bool-cases (ltb (x + 1) width)) [
      | inl both ↦
          let one : ltb x width ≡ true = ground arith in
          rw (both, one)
            (elim (Bool-cases (xx == x + 1)) [
              | inl here ↦
                  column-IsPixel t colours o k 1 xx (x + 1) second refl (omega arith) (ground arith)
                    (put_pixel-IsPixel t o (x + 1) (colours x 1) first)
              | inr there ↦
                  IsPixel-put_pixel t o xx (x + 1) (column colours xx) (colours x 1) first
                    (ground arith) (in_first (ground arith) one)
            ])
      | inr last ↦ rw last (elim (Bool-cases (ltb x width)) [
        | inl one ↦ rw one (in_first (ground arith) one)
        | inr none' ↦ rw none' (x_loop-IsPixel t colours width o k xx memory h (ground arith))
      ])
    ]

y_loop_outside :
    (t : Tone) (order : BayerOrder) (frame : Bytes) (stride width rounds i : ℕ) (memory : Bytes)
    → rounds * width * 2 ≤ i
    → y_loop t order frame stride width rounds memory i ≡ memory i
unfolding y_loop
y_loop_outside t order frame stride width zero i memory h = refl
y_loop_outside t order frame stride width (suc y) i memory h =
    x_loop_outside t (row_colours order frame stride y) width (y * width * 2) ((width + 1) / 2) i
      (y_loop t order frame stride width y memory) (inr (grind arith))
    ∙ y_loop_outside t order frame stride width y i memory (grind arith)

row_below : (y k width xx : ℕ) → xx < width → y < k → y * width * 2 + 2 * xx + 1 < k * width * 2
row_below y k width xx h l = grind arith

y_loop-IsPixel :
    (t : Tone) (order : BayerOrder) (frame : Bytes) (stride width rounds xx y : ℕ) (memory : Bytes)
    → xx < width
    → y < rounds
    → IsPixel t
        (y * width * 2)
        xx
        (column (row_colours order frame stride y) xx)
        (y_loop t order frame stride width rounds memory)
unfolding y_loop
y_loop-IsPixel t order frame stride width zero xx y memory h l = absurd (omega arith)
y_loop-IsPixel t order frame stride width (suc k) xx y memory h l =
    let here_rounds : xx < 2 * ((width + 1) / 2) = omega arith in
    let before = y_loop t order frame stride width k memory in
    let colours = row_colours order frame stride in
    let rounds = (width + 1) / 2 in
    elim (Bool-cases (y == k)) [
      | inl here ↦
          let e : y ≡ k = ground arith in
          subst
            (λ r.
              IsPixel t (r * width * 2) xx (column (colours r) xx)
                (x_loop t (colours k) width (k * width * 2) rounds before))
            (sym e)
            (x_loop-IsPixel t (colours k) width (k * width * 2) rounds xx before h here_rounds)
      | inr there ↦
          let (first, next) =
            y_loop-IsPixel t order frame stride width k xx y memory h (ground arith) in
          let above = row_below y k width xx h (ground arith) in
          (
            x_loop_outside t (colours k) width (k * width * 2) rounds (y * width * 2 + 2 * xx)
                  before (inl (omega arith))
                ∙ first,
            x_loop_outside t (colours k) width (k * width * 2) rounds (y * width * 2 + 2 * xx + 1)
                  before (inl (omega arith))
                ∙ next,
          )
    ]

-- A frame converted: for a frame of bytes, any order, size and floating-point state, and any pixel of
-- the output, the two bytes of that pixel are its brightness and, in turn, its blue and red
-- difference, each of the colours at its place in the 10-bit bit stream: red and blue at their places
-- in the block of two by two, green as the mean of its two.
pub convert-IsPixel :
    (t : Tone) (order : BayerOrder) (w h xx y : ℕ) (frame yuyv : Bytes)
    → ((i : ℕ) → frame i < 256)
    → xx < w / 2
    → y < h / 2
    → IsPixel t
        (y * (w / 2) * 2)
        xx
        (colours_at order frame (frame_stride w) y xx)
        (convert t order w h frame yuyv)
unfolding convert
convert-IsPixel t order w h xx y frame yuyv bytes in_row in_frame =
    subst (λ c. IsPixel t (y * (w / 2) * 2) xx c (convert t order w h frame yuyv))
      (row_colours-colours_at order frame (frame_stride w) y xx bytes)
      (y_loop-IsPixel t order frame (frame_stride w) (w / 2) (h / 2) xx y yuyv in_row in_frame)

-- Nothing is written past the `OW * OH * 2` bytes of the output.
pub convert_outside :
    (t : Tone) (order : BayerOrder) (w h i : ℕ) (frame yuyv : Bytes)
    → h / 2 * (w / 2) * 2 ≤ i
    → convert t order w h frame yuyv i ≡ yuyv i
unfolding convert
convert_outside t order w h i frame yuyv far =
    y_loop_outside t order frame (frame_stride w) (w / 2) (h / 2) i yuyv far
