-- ===== src/Sharpness/Window.antt =====
-- What tools/sharpness.c reads and how large its sums are.
use mt8183_kukui_pmos.Prelude.{
  ℕ, ◌+◌, ◌-◌, ◌*◌, ◌≤◌, ◌<◌, ◌≡◌, ltb, leb, Bool, ◌||◌, List, max, ◌⊎◌, length,
}
use mt8183_kukui_pmos.Sharpness.Meter.{Sums, low, high}

abbrev pub IsByte : ℕ → Type 0
IsByte b = b < 256

-- The sums of at most `count` pixels more than `s`.
abbrev pub IsWithin : Sums → Type 0
IsWithin s = (s.accum ≤ 510 * s.n) × (s.luma ≤ 255 * s.n)

-- The pixels counted in a row, and the rows of the window from `y` on.
abbrev pub columns : ℕ → ℕ
columns w = high w - 1 - (low w + 1)

abbrev pub rows_from : ℕ → ℕ → ℕ
rows_from h y = high h - max (low h) y

-- The window lies in the rows still to come, or behind.
abbrev in_window : ℕ → ℕ → Bool
in_window h y = ltb y (low h) || leb (high h) y

-- The whole frame is in the file and its window is counted, or the file ends before.
abbrev pub IsCounted : ℕ → ℕ → ℕ → List ℕ → ℕ → Type 0
IsCounted row_size rounds count file n =
    (n ≡ count) ⊎ ((length file < rounds * row_size) × (n ≤ count))
