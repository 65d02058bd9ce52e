-- ===== src/Bridge/Range.antt =====
-- The range of the colours that tools/bridge.c computes.
use mt8183_kukui_pmos.Prelude.{
  ℕ, ◌+◌, ◌-◌, ◌*◌, ◌/◌, ◌^◌, ◌<◌, ◌≤◌, ◌≡◌, refl, ap, arith, ltb, Bool-cases, true, false, inl,
  inr,
}
use mt8183_kukui_pmos.Bridge.Convert.{
  pos, sub_nat_nat, shift_right, add_nat, clamp, luma, chroma_u, chroma_v,
}

-- A weighted difference of colours, shifted and moved, is a byte.
balanced_lem :
    (a b : ℕ)
    → a ≤ 32767
    → b ≤ 32768
    → (n : ℕ) × (add_nat (shift_right (sub_nat_nat a b)) 128 ≡ pos n) × (n < 256)
unfolding sub_nat_nat shift_right add_nat
balanced_lem a b h k = elim (Bool-cases (ltb a b)) [
  | inr no' ↦ rw no' ((a - b) / 2 ^ 8 + 128, refl, ground arith)
  | inl yes' ↦
      let small : ltb ((b - a - 1) / 2 ^ 8) 128 ≡ true = ground arith in
      rw (yes', small) (128 - 1 - (b - a - 1) / 2 ^ 8, refl, ground arith)
]

balanced_same : (a b : ℕ) → a ≡ b → add_nat (shift_right (sub_nat_nat a b)) 128 ≡ pos 128
unfolding sub_nat_nat shift_right add_nat
balanced_same a b h =
    let no_less : ltb a b ≡ false = ground arith in rw no_less (ap pos (omega arith))

clamp_byte : (n : ℕ) → n < 256 → pos (clamp (pos n)) ≡ pos n
unfolding clamp
clamp_byte n h = let inside : ltb 255 n ≡ false = ground arith in rw inside refl

-- For colours of one byte each, none of the six clamps changes a value, so the stored bytes are `Y`,
-- `U` and `V` themselves; and a grey pixel is stored with its own brightness and with both
-- differences at 128.
pub clamp_idle :
    (r g b : ℕ)
    → r < 256
    → g < 256
    → b < 256
    → (pos (clamp (luma r g b)) ≡ luma r g b)
      × (pos (clamp (chroma_u r g b)) ≡ chroma_u r g b)
      × (pos (clamp (chroma_v r g b)) ≡ chroma_v r g b)
      × (luma r r r ≡ pos r)
      × (chroma_u r r r ≡ pos 128)
      × (chroma_v r r r ≡ pos 128)
unfolding luma chroma_u chroma_v shift_right
clamp_idle r g b hr hg hb =
    let (nu, eu, lu) = balanced_lem (128 * b) (43 * r + 85 * g) (omega arith) (omega arith) in
    let (nv, ev, lv) = balanced_lem (128 * r) (107 * g + 21 * b) (omega arith) (omega arith) in
    (
      clamp_byte ((77 * r + 150 * g + 29 * b) / 2 ^ 8) (omega arith),
      rw eu (clamp_byte nu lu),
      rw ev (clamp_byte nv lv),
      ap pos (omega arith),
      balanced_same (128 * r) (43 * r + 85 * r) (omega arith),
      balanced_same (128 * r) (107 * r + 21 * r) (omega arith),
    )
