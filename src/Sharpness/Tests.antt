-- ===== src/Sharpness/Tests.antt =====
-- Concrete frames for tools/sharpness.c.
use mt8183_kukui_pmos.Prelude.{
  ◌≡◌, refl, arith, ltb, if◌then◌else◌, true, false, Bool, Bool-cases, inl, inr, some, ℕ, List, [],
  ◌∷◌, ◌++◌, All,
}
use mt8183_kukui_pmos.Sharpness.Meter.{abs_lap, x_loop, measure_row, y_loop, report, main, score}
use mt8183_kukui_pmos.Sharpness.Window.{IsByte, columns}
use mt8183_kukui_pmos.Sharpness.Scaled.{brighter, main-brighter}

-- A row of pixels that are grey, by their brightness.
abbrev grey_row : List ℕ → List ℕ
grey_row [] = []
grey_row (g ∷ gs) = g ∷ g ∷ g ∷ g ∷ grey_row gs

-- A frame of 10 by 2 pixels with an edge in the middle; its first row is the window.
abbrev edge : List ℕ
edge =
    grey_row (10 ∷ 10 ∷ 10 ∷ 10 ∷ 10 ∷ 40 ∷ 40 ∷ 40 ∷ 40 ∷ 40 ∷ [])
    ++ grey_row (10 ∷ 10 ∷ 10 ∷ 10 ∷ 20 ∷ 40 ∷ 40 ∷ 40 ∷ 40 ∷ 40 ∷ [])

program : Unit {0}
unfolding abs_lap x_loop measure_row y_loop report main
program = tt

edge_score : main 10 10 2 (some edge) true ≡ some (score 60 50)
unfolding program
edge_score = refl

-- A frame 7 pixels wide has no column in its window.
narrow : columns 7 ≡ 0
narrow = refl

abbrev are_bytes : List ℕ → Bool
are_bytes [] = true
are_bytes (b ∷ bs) = if ltb b 256 then are_bytes bs else false

are_bytes-IsByte : (bs : List ℕ) → are_bytes bs ≡ true → All IsByte bs
are_bytes-IsByte [] h = tt
are_bytes-IsByte (b ∷ bs) h = elim (Bool-cases (ltb b 256)) [
  | inl small ↦ (ground arith, are_bytes-IsByte bs (rw small at h))
  | inr large ↦ let bad = rw large at h in absurd (cc)
]

main-brighter_example : main 10 10 2 (some (brighter 6 edge)) true ≡ some (score 360 300)
main-brighter_example =
    main-brighter 6 10 10 2 60 50 edge (omega arith) (are_bytes-IsByte (brighter 6 edge) refl)
      edge_score
