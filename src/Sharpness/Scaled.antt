-- ===== src/Sharpness/Scaled.antt =====
-- The score of tools/sharpness.c for a frame that is brighter by a factor.
use mt8183_kukui_pmos.Prelude.{
  ℕ, zero, suc, ◌+◌, ◌-◌, ◌*◌, ◌≤◌, ◌==◌, subst, ◌≡◌, refl, ap, ◌∙◌, arith, ltb, leb, ◌||◌,
  Bool-cases, Option-cases, inl, inr, true, false, Option, none, some, List, [], ◌∷◌, map, length,
  get_elem?, take, drop, All,
}
use native.Mathlib.Nat.{mul-add, mul-sub}
use mt8183_kukui_pmos.Cam.State.{◌>>=◌}
use mt8183_kukui_pmos.Sharpness.Window.{IsByte}
use mt8183_kukui_pmos.Sharpness.Meter.{
  Sums, abs_lap, add_pixel, x_loop, low, high, measure_row, y_loop, no_sums, report, score, main,
}

-- A row or a file with each byte `k` times as large, and its sums.
abbrev pub brighter : ℕ → List ℕ → List ℕ
brighter k bytes = map (λ b. k * b) bytes

abbrev pub scaled : ℕ → Sums → Sums
scaled k s = record { accum = k * s.accum; luma = k * s.luma; n = s.n }

abs_lap_difference : (gl gc gr : ℕ) → abs_lap gl gc gr ≡ (gl + gr - 2 * gc) + (2 * gc - (gl + gr))
unfolding abs_lap
abs_lap_difference gl gc gr = ground arith

abs_lap-scaled : (k gl gc gr : ℕ) → abs_lap (k * gl) (k * gc) (k * gr) ≡ k * abs_lap gl gc gr
abs_lap-scaled k gl gc gr =
    let sides : k * gl + k * gr ≡ k * (gl + gr) = grind arith in
    let middle : 2 * (k * gc) ≡ k * (2 * gc) = grind arith in
    rw (abs_lap_difference (k * gl) (k * gc) (k * gr), abs_lap_difference gl gc gr, sides, middle)
      (simp (mul-add, mul-sub))

abbrev pub scaled_run : ℕ → Option Sums → Option Sums
scaled_run k none = none
scaled_run k (some s) = some (scaled k s)

brighter_entry : ℕ → Option ℕ → Option ℕ
brighter_entry k none = none
brighter_entry k (some b) = some (k * b)

get_elem?-brighter :
    (k : ℕ) (row : List ℕ) (i : ℕ)
    → get_elem? (brighter k row) i ≡ brighter_entry k (get_elem? row i)
unfolding brighter_entry
get_elem?-brighter k [] i = refl
get_elem?-brighter k (b ∷ row) zero = refl
get_elem?-brighter k (b ∷ row) (suc i) = get_elem?-brighter k row i

length-brighter : (k : ℕ) (row : List ℕ) → length (brighter k row) ≡ length row
length-brighter k [] = refl
length-brighter k (b ∷ row) = ap suc (length-brighter k row)

take-brighter : (k n : ℕ) (row : List ℕ) → take n (brighter k row) ≡ brighter k (take n row)
take-brighter k zero row = refl
take-brighter k (suc n) [] = refl
take-brighter k (suc n) (b ∷ row) = ap (λ bs. k * b ∷ bs) (take-brighter k n row)

drop-brighter : (k n : ℕ) (row : List ℕ) → drop n (brighter k row) ≡ brighter k (drop n row)
drop-brighter k zero row = refl
drop-brighter k (suc n) [] = refl
drop-brighter k (suc n) (b ∷ row) = drop-brighter k n row

add_pixel-scaled :
    (k gl gc gr : ℕ) (s : Sums)
    → add_pixel (k * gl) (k * gc) (k * gr) (scaled k s) ≡ scaled k (add_pixel gl gc gr s)
add_pixel-scaled k gl gc gr s =
    let a : k * s.accum + k * abs_lap gl gc gr ≡ k * (s.accum + abs_lap gl gc gr) = grind arith in
    let l : k * s.luma + k * gc ≡ k * (s.luma + gc) = grind arith in
    rw (abs_lap-scaled k gl gc gr, a, l) refl

x_loop-scaled :
    (k rounds x : ℕ) (row : List ℕ) (s : Sums)
    → x_loop rounds x (brighter k row) (scaled k s) ≡ scaled_run k (x_loop rounds x row s)
unfolding x_loop brighter_entry
x_loop-scaled k zero x row s = refl
x_loop-scaled k (suc r) x row s =
    let left = get_elem?-brighter k row ((x - 1) * 4 + 1) in
    let middle = get_elem?-brighter k row (x * 4 + 1) in
    let right = get_elem?-brighter k row ((x + 1) * 4 + 1) in
    elim (Option-cases (get_elem? row ((x - 1) * 4 + 1))) [
      | inl out ↦ rw (left, out) refl
      | inr (gl, e) ↦ elim (Option-cases (get_elem? row (x * 4 + 1))) [
        | inl out ↦ rw (left, e, middle, out) refl
        | inr (gc, e1) ↦ elim (Option-cases (get_elem? row ((x + 1) * 4 + 1))) [
          | inl out ↦ rw (left, e, middle, e1, right, out) refl
          | inr (gr, e2) ↦
              rw (left, e, middle, e1, right, e2, add_pixel-scaled k gl gc gr s)
                (x_loop-scaled k r (x + 1) row (add_pixel gl gc gr s))
        ]
      ]
    ]

measure_row-scaled :
    (k w : ℕ) (row : List ℕ) (s : Sums)
    → measure_row w (brighter k row) (scaled k s) ≡ scaled_run k (measure_row w row s)
unfolding measure_row
measure_row-scaled k w row s = x_loop-scaled k (high w - 1 - (low w + 1)) (low w + 1) row s

y_loop-scaled :
    (k stride w h rounds y : ℕ) (file : List ℕ) (s : Sums)
    → y_loop stride w h rounds y (brighter k file) (scaled k s)
      ≡ scaled_run k (y_loop stride w h rounds y file s)
unfolding y_loop
y_loop-scaled k stride w h zero y file s = refl
y_loop-scaled k stride w h (suc r) y file s =
    let row = take (stride * 4) file in
    let later = drop (stride * 4) file in
    let row_lem = take-brighter k (stride * 4) file in
    let later_lem = drop-brighter k (stride * 4) file in
    let size = length-brighter k row in
    elim (Bool-cases (ltb (length row) (stride * 4))) [
      | inl short ↦ rw (row_lem, size, short) refl
      | inr whole ↦ elim (Bool-cases (ltb y (low h) || leb (high h) y)) [
        | inl out ↦
            rw (row_lem, size, whole, out, later_lem) (y_loop-scaled k stride w h r (y + 1) later s)
        | inr inside ↦ elim (Option-cases (measure_row w row s)) [
          | inl failed ↦
              rw (row_lem, size, whole, inside, measure_row-scaled k w row s, failed) refl
          | inr (t, e) ↦
              rw (row_lem, size, whole, inside, measure_row-scaled k w row s, e, later_lem)
                (y_loop-scaled k stride w h r (y + 1) later t)
        ]
      ]
    ]

product_le : (k n : ℕ) → 1 ≤ k → n ≤ k * n
product_le k n h =
    let e : (k - 1 + 1) * n ≡ (k - 1) * n + n = grind arith in
    let back : k - 1 + 1 ≡ k = omega arith in subst (λ m. n ≤ m * n) back (omega (arith, e))

-- What a report that gives a score says of the sums.
abbrev IsReported : Sums → ℕ → ℕ → Type 0
IsReported s a l = ((s.n == 0) ≡ false) × (ltb s.luma s.n ≡ false) × (s.accum ≡ a) × (s.luma ≡ l)

report-score : (s : Sums) (a l : ℕ) → report s ≡ score a l → IsReported s a l
unfolding report
report-score s a l h = elim (Bool-cases (s.n == 0)) [
  | inl empty ↦ let bad = rw empty at h in absurd (cc)
  | inr filled ↦
      let rest = rw filled at h in
      elim (Bool-cases (ltb s.luma s.n)) [
        | inl dark ↦ let bad = rw dark at rest in absurd (cc)
        | inr bright ↦ let same = rw bright at rest in (filled, bright, cc, cc)
      ]
]

report-scaled :
    (k a l : ℕ) (s : Sums)
    → 1 ≤ k
    → report s ≡ score a l
    → report (scaled k s) ≡ score (k * a) (k * l)
unfolding report
report-scaled k a l s positive h =
    let (filled, bright, same, same1) = report-score s a l h in
    let still : ltb (k * s.luma) s.n ≡ false = ground (arith, product_le k s.luma positive) in
    rw (filled, still, same, same1) refl

report-brighter :
    (k stride w h a l : ℕ) (file : List ℕ) (s : Sums)
    → 1 ≤ k
    → y_loop stride w h h 0 file no_sums ≡ some s
    → report s ≡ score a l
    → (y_loop stride w h h 0 (brighter k file) no_sums >>= λ t. some (report t))
      ≡ some (score (k * a) (k * l))
report-brighter k stride w h a l file s positive e result =
    let zero_sums : scaled k no_sums ≡ no_sums = let e0 : k * 0 ≡ 0 = omega arith in rw e0 refl in
    let run : y_loop stride w h h 0 (brighter k file) no_sums ≡ some (scaled k s) =
      subst (λ z. y_loop stride w h h 0 (brighter k file) z ≡ some (scaled k s)) zero_sums
        (y_loop-scaled k stride w h h 0 file no_sums ∙ ap (scaled_run k) e) in
    rw run (ap some (report-scaled k a l s positive result))

-- A file that gets a score, and the same file with each byte `k` times as large, for a `k` that is
-- not 0 and leaves them bytes, below 256: it gets a score too, of two sums that are both `k` times as large, so that their quotient is
-- the same.
pub main-brighter :
    (k stride w h a l : ℕ) (file : List ℕ)
    → 1 ≤ k
    → All IsByte (brighter k file)
    → main stride w h (some file) true ≡ some (score a l)
    → main stride w h (some (brighter k file)) true ≡ some (score (k * a) (k * l))
unfolding main
main-brighter k stride w h a l file positive bytes printed =
    elim (Bool-cases (ltb stride w || ltb w 3 || ltb h 1)) [
      | inl bad ↦ let wrong = rw bad at printed in absurd (cc)
      | inr good ↦
          let measured = rw good at printed in
          elim (Option-cases (y_loop stride w h h 0 file no_sums)) [
            | inl out ↦ let wrong = rw out at measured in absurd (cc)
            | inr (s, e) ↦
                let result : report s ≡ score a l = let r = rw e at measured in cc in
                rw good (report-brighter k stride w h a l file s positive e result)
          ]
    ]
