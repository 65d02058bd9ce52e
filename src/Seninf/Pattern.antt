-- ===== src/Seninf/Pattern.antt =====
-- camera/driver/seninf/mtk_seninf.c: the test pattern and the monitor of its control.
use mt8183_kukui_pmos.Prelude.{
  ℕ, ◌+◌, ◌*◌, ◌^◌, ◌==◌, if◌then◌else◌, Bool, List, [], ◌∷◌, u32, bit_and, bit_or,
}
use mt8183_kukui_pmos.Seninf.State.{Seninf, base}
use mt8183_kukui_pmos.Seninf.Registers.{
  seninf_top_ctrl, seninf1_ctrl, seninf1_ctrl_ext, seninf1_mux_ctrl, seninf1_mux_ctrl_ext,
  seninf1_mux_inten, seninf1_mux_intsta, seninf1_mux_spare, seninf_tg1_tm_ctl, seninf_tg1_tm_size,
  seninf_tg1_tm_clk, seninf_tg1_tm_stp,
}
use mt8183_kukui_pmos.Seninf.Access.{Access, write, delay, set_bits, run}

-- The size of the pattern: `(height + 0x100) << 16 | (width + 0x100)`.
abbrev pub pattern_size : Seninf → ℕ
pattern_size s =
    let f = s.fmt s.port in bit_or (u32 (u32 (f.height + 0x100) * 2 ^ 16)) (u32 (f.width + 0x100))

-- The case `TEST_GEN_PATTERN`.
unfoldable pub pattern_accesses : ℕ → List Access
pattern_accesses size =
    write (base seninf_top_ctrl) 0xc00
    ∷ write (base seninf1_ctrl) 0x1001
    ∷ write (base seninf1_mux_ctrl) 0x96df1080
    ∷ write (base seninf1_mux_inten) 0x8000007f
    ∷ write (base seninf1_mux_spare) 0x0
    ∷ write (base seninf1_mux_ctrl_ext) 0xe2000
    ∷ write (base seninf1_mux_ctrl_ext) 0x0
    ∷ write (base seninf_tg1_tm_ctl) 0x404c1
    ∷ write (base seninf_tg1_tm_size) size
    ∷ write (base seninf_tg1_tm_clk) 0x0
    ∷ write (base seninf_tg1_tm_stp) 0x1
    ∷ set_bits (base seninf1_ctrl_ext) 0x2
    ∷ []

-- `seninf_enable_test_pattern`, which always answers 0; the case `TEST_DUMP_DEBUG_INFO` clears a
-- pending overrun. The messages to the log are left out, with the reads that they alone use.
unfoldable pub seninf_enable_test_pattern : ℕ → Seninf → Seninf
unfolding pattern_accesses
seninf_enable_test_pattern pattern s =
    if pattern == 0
    then record s { regs = run (pattern_accesses (pattern_size s)) s.regs }
    else if pattern == 1
    then (if bit_and (s.regs (base seninf1_mux_intsta)) 0x1 == 0 then s else record s {
      regs = run (write (base seninf1_mux_intsta) 0xffffffff ∷ delay 1000 ∷ []) s.regs;
    })
    else s

-- `seninf_set_ctrl`: whether the control is `V4L2_CID_TEST_PATTERN`, and its value.
unfoldable pub seninf_set_ctrl : Bool → ℕ → Seninf → Seninf
seninf_set_ctrl test_pattern value s =
    if test_pattern then seninf_enable_test_pattern value s else s
