-- ===== src/Bridge/Unpacked.antt =====
-- The pixels of tools/bridge.c against the bit stream of a row.
use mt8183_kukui_pmos.Prelude.{
  ℕ, ◌+◌, ◌*◌, ◌/◌, ◌%◌, ◌^◌, ◌<◌, ◌≡◌, refl, ap, ◌∙◌, arith, bit_and, bit_or, bit_and_fields,
  bit_or_fields,
}
use mt8183_kukui_pmos.Bridge.Pixels.{Bytes, get10, unpack}

-- Every byte is one.
abbrev pub IsBytes : Bytes → Type 0
IsBytes row = (i : ℕ) → row i < 256

mask_7 : (x : ℕ) → bit_and x 7 ≡ x % 8
mask_7 x = ap (λ y. bit_and y 7) (omega arith) ∙ bit_and_fields 3 (x % 8) (x / 8) (omega arith)

mask_3ff : (x : ℕ) → bit_and x 0x3ff ≡ x % 1024
mask_3ff x =
    ap (λ y. bit_and y 0x3ff) (omega arith) ∙ bit_and_fields 10 (x % 1024) (x / 1024) (omega arith)

mask_03 : (x : ℕ) → bit_and x 0x03 ≡ x % 4
mask_03 x = ap (λ y. bit_and y 0x03) (omega arith) ∙ bit_and_fields 2 (x % 4) (x / 4) (omega arith)

mask_0f : (x : ℕ) → bit_and x 0x0f ≡ x % 16
mask_0f x =
    ap (λ y. bit_and y 0x0f) (omega arith) ∙ bit_and_fields 4 (x % 16) (x / 16) (omega arith)

mask_3f : (x : ℕ) → bit_and x 0x3f ≡ x % 64
mask_3f x =
    ap (λ y. bit_and y 0x3f) (omega arith) ∙ bit_and_fields 6 (x % 64) (x / 64) (omega arith)

-- Three bytes joined.
joined :
    (a b c : ℕ)
    → a < 256
    → b < 256
    → bit_or (bit_or a (b * 2 ^ 8)) (c * 2 ^ 16) ≡ a + b * 256 + c * 65536
joined a b c h k =
    ap (λ x. bit_or x (c * 2 ^ 16)) (bit_or_fields 8 a b h)
    ∙ bit_or_fields 16 (a + b * 2 ^ 8) c (omega arith)

-- `get10`, where the pixel starts `sh` bits into the first of three bytes.
get10_lem :
    (row : Bytes) (i at next last sh : ℕ)
    → IsBytes row
    → i * 10 ≡ at * 8 + sh
    → sh < 8
    → next ≡ at + 1
    → last ≡ at + 2
    → get10 row i ≡ (row at + row next * 256 + row last * 65536) / 2 ^ sh % 1024
unfolding get10
get10_lem row i at next last sh h e small n l =
    let byte : i * 10 / 2 ^ 3 ≡ at = omega arith in
    let bit : bit_and (i * 10) 7 ≡ sh = mask_7 (i * 10) ∙ omega arith in
    rw (byte, bit, n, l, joined (row at) (row (at + 1)) (row (at + 2)) (h at) (h (at + 1)))
      (mask_3ff ((row at + row (at + 1) * 256 + row (at + 2) * 65536) / 2 ^ sh))

-- The four pixels that the loop takes out of the five bytes of a group are the pixels of the row's
-- bit stream, for any bytes and any group.
pub unpack-get10 :
    (row : Bytes) (g : ℕ)
    → ((i : ℕ) → row i < 256)
    → (let q = unpack row (g * 5) in
        (q.p0 ≡ get10 row (4 * g))
        × (q.p1 ≡ get10 row (4 * g + 1))
        × (q.p2 ≡ get10 row (4 * g + 2))
        × (q.p3 ≡ get10 row (4 * g + 3)))
unfolding unpack
unpack-get10 row g h =
    let at = g * 5 in
    let h0 = h at in
    let h1 = h (at + 1) in
    let h2 = h (at + 2) in
    let h3 = h (at + 3) in
    let h4 = h (at + 4) in
    let e0 = get10_lem row (4 * g) at (at + 1) (at + 2) 0 h (omega arith) (omega arith) refl refl in
    let e1 =
      get10_lem row (4 * g + 1) (at + 1) (at + 2) (at + 3) 2 h (omega arith) (omega arith)
        (omega arith) (omega arith) in
    let e2 =
      get10_lem row (4 * g + 2) (at + 2) (at + 3) (at + 4) 4 h (omega arith) (omega arith)
        (omega arith) (omega arith) in
    let e3 =
      get10_lem row (4 * g + 3) (at + 3) (at + 4) (at + 5) 6 h (omega arith) (omega arith)
        (omega arith) (omega arith) in
    (
      ap (λ x. bit_or (row at) (x * 2 ^ 8)) (mask_03 (row (at + 1)))
          ∙ bit_or_fields 8 (row at) (row (at + 1) % 4) h0
          ∙ omega arith,
      ap (λ x. bit_or (row (at + 1) / 2 ^ 2) (x * 2 ^ 6)) (mask_0f (row (at + 2)))
          ∙ bit_or_fields 6 (row (at + 1) / 4) (row (at + 2) % 16) (omega arith)
          ∙ omega arith,
      ap (λ x. bit_or (row (at + 2) / 2 ^ 4) (x * 2 ^ 4)) (mask_3f (row (at + 3)))
          ∙ bit_or_fields 4 (row (at + 2) / 16) (row (at + 3) % 64) (omega arith)
          ∙ omega arith,
      bit_or_fields 2 (row (at + 3) / 64) (row (at + 4)) (omega arith) ∙ omega arith,
    )
