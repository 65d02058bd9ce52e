-- ===== src/Bridge/Tests.antt =====
-- Concrete frames of tools/bridge.c.
use mt8183_kukui_pmos.Prelude.{◌/◌, ◌%◌, ◌≡◌, refl, arith, ltb, if◌then◌else◌}
use mt8183_kukui_pmos.Bridge.Pixels.{Bytes, grbg, bggr}
use mt8183_kukui_pmos.Bridge.Convert.{Tone, convert}
use mt8183_kukui_pmos.Bridge.Written.{IsPixel, convert-IsPixel}
use mt8183_kukui_pmos.Bridge.Blocks.{colours_at}
use mt8183_kukui_pmos.Bridge.Convert.{frame_stride}
use mt8183_kukui_pmos.Bridge.Reads.{convert_agree}

-- A frame whose bytes count up, and the same frame cleared after its 4 lines of 10 bytes.
abbrev counting : Bytes
counting i = i % 256

abbrev cut : Bytes
cut i = if ltb i 40 then i % 256 else 0

abbrev tone : Tone
tone = record {
  balance_red = λ x. x;
  balance_green = λ x. x;
  balance_blue = λ x. x;
  lut = λ i. i / 4;
}

convert-IsPixel_example :
    IsPixel tone 8 3 (colours_at grbg counting 10 1 3) (convert tone grbg 8 4 counting (λ i. 0))
unfolding frame_stride
convert-IsPixel_example =
    convert-IsPixel tone grbg 8 4 3 1 counting (λ i. 0) (λ i. omega arith) (omega arith)
      (omega arith)

convert_agree_example : convert tone bggr 8 4 counting (λ i. 0) ≡ convert tone bggr 8 4 cut (λ i. 0)
unfolding frame_stride
convert_agree_example =
    convert_agree tone bggr counting cut (λ i. 0) 8 4 refl (omega arith) (λ i. λ h. ground arith)
