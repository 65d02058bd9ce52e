-- ===== src/Bridge/Order.antt =====
-- The orders of the colours that tools/bridge.c knows, and the lines of its frames.
use mt8183_kukui_pmos.Prelude.{ℕ, zero, suc, ◌-◌, ◌≡◌, refl}
use mt8183_kukui_pmos.Bridge.Pixels.{BayerOrder, rggb, grbg, bggr, gbrg, another, bayer_offset}

pub data Colour : Type 0 where
  red green blue : Colour

-- The letter of an order for a row and a column of the block of two by two: the first two letters
-- are the first row.
pub letter : BayerOrder → ℕ → ℕ → Colour
letter rggb zero zero = red
letter rggb (suc r) (suc c) = blue
letter grbg zero (suc c) = red
letter grbg (suc r) zero = blue
letter bggr zero zero = blue
letter bggr (suc r) (suc c) = red
letter gbrg zero (suc c) = blue
letter gbrg (suc r) zero = red
letter another zero zero = red
letter another (suc r) (suc c) = blue
letter _ _ _ = green

-- For each order, the offset is the place of its red letter, the opposite place has its blue letter,
-- and the two other places are green; any other text is read as RGGB.
pub bayer_offset-letter :
    (order : BayerOrder)
    → (let (rx, ry) = bayer_offset order in
        (letter order ry rx ≡ red)
        × (letter order (1 - ry) (1 - rx) ≡ blue)
        × (letter order ry (1 - rx) ≡ green)
        × (letter order (1 - ry) rx ≡ green))
unfolding bayer_offset letter
bayer_offset-letter rggb = (refl, refl, refl, refl)
bayer_offset-letter grbg = (refl, refl, refl, refl)
bayer_offset-letter bggr = (refl, refl, refl, refl)
bayer_offset-letter gbrg = (refl, refl, refl, refl)
bayer_offset-letter another = (refl, refl, refl, refl)
