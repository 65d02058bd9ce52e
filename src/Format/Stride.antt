-- ===== src/Format/Stride.antt =====
-- The size of a line: enough bytes, aligned, and not a byte more than the alignment asks for.
use mt8183_kukui_pmos.Prelude.{ℕ, ◌+◌, ◌-◌, ◌*◌, ◌/◌, ◌%◌, ◌^◌, ◌≤◌, ◌<◌, ◌≡◌, ◌⊎◌, arith}
use mt8183_kukui_pmos.Uapi.{Fourcc}
use mt8183_kukui_pmos.Format.Codes.{get_pixel_bits}
use mt8183_kukui_pmos.Format.Nodes.{main_stream_out, packed_bin_out}
use mt8183_kukui_pmos.Format.Negotiate.{bytes_per_line}

-- On the main stream a line holds its pixels' bits, is a multiple of 4 bytes, and is less than 4
-- bytes longer than the bits need.
pub bytes_per_line-main_stream_out :
    (bits width : ℕ)
    → width * bits < 2 ^ 31
    → (width * bits ≤ 8 * bytes_per_line main_stream_out bits width)
      × (8 * bytes_per_line main_stream_out bits width < width * bits + 32)
      × (bytes_per_line main_stream_out bits width % 4 ≡ 0)
unfolding bytes_per_line
bytes_per_line-main_stream_out bits width h = (omega arith, omega arith, omega arith)

-- The samples of a full-G line: three for two pixels.
abbrev pub samples : ℕ → ℕ
samples width = (width * 3 + 1) / 2

-- On the packed output a line holds the bits of its samples and is a multiple of 4 bytes, of 8 at
-- a depth other than 10; it is less than 8 bytes longer than the bits need.
pub bytes_per_line-packed_bin_out :
    (bits width : ℕ)
    → width < 2 ^ 28
    → samples width * bits < 2 ^ 31
    → (samples width * bits ≤ 8 * bytes_per_line packed_bin_out bits width)
      × (8 * bytes_per_line packed_bin_out bits width < samples width * bits + 64)
      × (bytes_per_line packed_bin_out bits width % 4 ≡ 0)
      × ((bits ≡ 10) ⊎ (bytes_per_line packed_bin_out bits width % 8 ≡ 0))
unfolding bytes_per_line
bytes_per_line-packed_bin_out bits width h k =
    let e : (width * 6 % 2 ^ 32 + 4 - 1) % 2 ^ 32 / 4 ≡ samples width = omega arith in
    rw e (ground arith)

pub get_pixel_bits-le : (f : Fourcc) → get_pixel_bits f ≤ 14
unfolding get_pixel_bits
get_pixel_bits-le f = ground arith
