-- ===== src/Seninf/Mux.antt =====
-- camera/driver/seninf/mtk_seninf.c: the multiplexer between the interfaces and the cameras.
use mt8183_kukui_pmos.Prelude.{ℕ, ◌+◌, ◌-◌, ◌*◌, ◌%◌, ◌^◌, ◌==◌, if◌then◌else◌, List, [], ◌∷◌, u32}
use mt8183_kukui_pmos.Seninf.State.{Reg, base}
use mt8183_kukui_pmos.Seninf.Registers.{seninf1_mux_ctrl, seninf1_mux_ctrl_ext, seninf_top_mux_ctrl}
use mt8183_kukui_pmos.Seninf.Access.{Access, copy, set_and, update}
use mt8183_kukui_pmos.Seninf.Formats.{jpeg_fmt}

-- `base_reg + 0x1000 * i + offset`
abbrev pub bank : ℕ → ℕ → Reg
bank i offset = base (u32 (0x1000 * i) + offset)

-- `~(0xF << (mux * 4))` and `(seninf & 0xF) << (mux * 4)`
abbrev pub mux_keep : ℕ → ℕ
mux_keep mux = 2 ^ 32 - 1 - 15 * 2 ^ (mux * 4)

abbrev pub mux_field : ℕ → ℕ → ℕ
mux_field mux seninf = u32 (seninf % 16 * 2 ^ (mux * 4))

-- `mtk_seninf_set_mux`, with `mux_sel` and the format; one pixel a clock, both polarities 0.
unfoldable pub mtk_seninf_set_mux : ℕ → ℕ → ℕ → List Access
mtk_seninf_set_mux mux input_data_type seninf =
    let ctrl = bank mux seninf1_mux_ctrl in
    let ctrl_ext = bank mux seninf1_mux_ctrl_ext in
    let jpeg = input_data_type == jpeg_fmt in
    update ctrl 0x7fffffff 0x80000000
    ∷ update ctrl 0xffff0fff 0x8000
    ∷ update ctrl_ext 0xfffffffc 0x1
    ∷ update ctrl_ext 0xffffffef 0
    ∷ update ctrl 0xfffffeff 0
    ∷ update ctrl 0xcfffffff (if jpeg then 0 else 0x20000000)
    ∷ update ctrl 0xf000ffff (if jpeg then 0x61e0000 else 0x6df0000)
    ∷ update ctrl 0xfffff9ff 0
    ∷ set_and ctrl 0x3 0xfffffffc
    ∷ copy (bank mux seninf_top_mux_ctrl) (base seninf_top_mux_ctrl) (mux_keep mux)
        (mux_field mux seninf)
    ∷ []
