-- ===== src/Sharpness/Meter.antt =====
-- tools/sharpness.c: the sums over the middle of a frame and the score. The sums are doubles in the
-- source, which hold them exactly below 2 ^ 53; the score is kept as the sums it is the quotient of.
-- A read outside the buffer of a row is `none`. A file is a list of its bytes, numbers below 256.
use mt8183_kukui_pmos.Prelude.{
  ℕ, zero, suc, ◌+◌, ◌-◌, ◌*◌, ◌/◌, ltb, leb, ◌==◌, if◌then◌else◌, Bool, ◌||◌, not, Option, none,
  some, List, length, get_elem?, take, drop,
}
use mt8183_kukui_pmos.Cam.State.{◌>>=◌}

pub record Sums : Type 0 where
  pub accum : ℕ
  pub luma : ℕ
  pub n : ℕ

-- `lap < 0 ? -lap : lap`
unfoldable pub abs_lap : ℕ → ℕ → ℕ → ℕ
abs_lap gl gc gr = if ltb (gl + gr) (2 * gc) then 2 * gc - (gl + gr) else gl + gr - 2 * gc

-- The green byte of a pixel: the bytes of a pixel are R, G, B, A.
abbrev pub green : List ℕ → ℕ → Option ℕ
green row x = get_elem? row (x * 4 + 1)

abbrev pub add_pixel : ℕ → ℕ → ℕ → Sums → Sums
add_pixel gl gc gr s = record {
  accum = s.accum + abs_lap gl gc gr;
  luma = s.luma + gc;
  n = s.n + 1;
}

-- The loop over `x`, so many rounds from `x` on.
unfoldable pub x_loop : ℕ → ℕ → List ℕ → Sums → Option Sums
x_loop zero x row s = some s
x_loop (suc rounds) x row s = green row (x - 1) >>= λ gl. green row x >>= λ gc.
    green row (x + 1) >>= λ gr. x_loop rounds (x + 1) row (add_pixel gl gc gr s)

-- The bounds of the window: `x0` and `y0`, and `x1` and `y1`.
abbrev pub low : ℕ → ℕ
low size = size * 3 / 10

abbrev pub high : ℕ → ℕ
high size = size * 7 / 10

-- A row that is read whole.
unfoldable pub measure_row : ℕ → List ℕ → Sums → Option Sums
unfolding x_loop
measure_row w row s = x_loop (high w - 1 - (low w + 1)) (low w + 1) row s

-- The loop over `y`, so many rounds from `y` on, with the rest of the file. A row that is not read
-- whole ends it.
unfoldable pub y_loop : (stride w h : ℕ) → ℕ → ℕ → List ℕ → Sums → Option Sums
unfolding measure_row
y_loop stride w h zero y file s = some s
y_loop stride w h (suc rounds) y file s =
    let after =
      if ltb y (low h) || leb (high h) y
      then some s
      else measure_row w (take (stride * 4) file) s in
    let rest = after >>= y_loop stride w h rounds (y + 1) (drop (stride * 4) file) in
    if ltb (length (take (stride * 4) file)) (stride * 4) then some s else rest

abbrev pub no_sums : Sums
no_sums = record { accum = 0; luma = 0; n = 0 }

-- How the program ends. `score accum luma` prints the quotient `(accum / n) / (luma / n)`.
pub data Exit : Type 0 where
  bad_geometry cannot_open no_memory no_pixels zero_score : Exit
  score : ℕ → ℕ → Exit

-- The end of `main`: `mean < 1.0` is `luma < n`.
unfoldable pub report : Sums → Exit
report s =
    if s.n == 0 then no_pixels else if ltb s.luma s.n then zero_score else score s.accum s.luma

-- `main` with its numbers, the file if it can be opened, and whether `malloc` gives memory.
unfoldable pub main : (stride w h : ℕ) → Option (List ℕ) → Bool → Option Exit
unfolding y_loop report
main stride w h opened memory =
    if ltb stride w || ltb w 3 || ltb h 1 then some bad_geometry else elim opened [
      | none ↦ some cannot_open
      | some file ↦
          if not memory
          then some no_memory
          else (y_loop stride w h h 0 file no_sums >>= λ s. some (report s))
    ]
