-- ===== src/Seninf/Dphy.antt =====
-- camera/driver/seninf/mtk_seninf.c: the analog receiver.
use mt8183_kukui_pmos.Prelude.{ℕ, ◌+◌, if◌then◌else◌, List, [], ◌∷◌, ◌++◌}
use mt8183_kukui_pmos.Seninf.State.{Reg, rx, is_4d1c, is_cdphy_combo}
use mt8183_kukui_pmos.Seninf.Registers.{
  mipi_rx_ana00_csi0a, mipi_rx_ana00_csi0b, mipi_rx_ana18_csi0a, mipi_rx_ana18_csi0b,
  mipi_rx_ana18_csi1a, mipi_rx_ana18_csi1b, mipi_rx_ana1c_csi0a, mipi_rx_ana1c_csi0b,
  mipi_rx_ana1c_csi1a, mipi_rx_ana1c_csi1b, mipi_rx_ana20_csi0a, mipi_rx_ana20_csi0b,
  mipi_rx_ana24_csi0a, mipi_rx_ana24_csi0b, mipi_rx_ana40_csi0a, mipi_rx_anaa8_csi0a,
  mipi_rx_anaa8_csi0b, mipi_rx_con24_csi0, mipi_rx_wrapper80_csi0a, mipi_rx_wrapper80_csi0b,
}
use mt8183_kukui_pmos.Seninf.Access.{Access, write, delay, update, keep_bits, when}
use mt8183_kukui_pmos.Seninf.Mux.{bank}

-- The start of `mtk_seninf_set_dphy`: the mode, the base currents and the byte clock. `at` is a
-- register of the port's receiver.
unfoldable pub dphy_mode : ℕ → (ℕ → Reg) → List Access
dphy_mode port at =
    when (is_cdphy_combo port) (keep_bits (at mipi_rx_ana00_csi0a) 0xfffffffe ∷ [])
    ++ update (at mipi_rx_ana00_csi0a) 0xffffe49f (if is_4d1c port then 0x1a40 else 0x100)
      ∷ when (is_cdphy_combo port) (keep_bits (at mipi_rx_ana00_csi0b) 0xfffffffe ∷ [])
    ++ update (at mipi_rx_ana00_csi0b) 0xffffe49f (if is_4d1c port then 0x1240 else 0x100)
      ∷ update (at mipi_rx_anaa8_csi0a) 0xfffffff8 0x7
      ∷ when (is_4d1c port) (update (at mipi_rx_anaa8_csi0b) 0xfffffff8 0x7 ∷ [])

-- From `Start ANA EQ tuning` on: the equalizer.
unfoldable pub dphy_tuning : ℕ → (ℕ → Reg) → List Access
dphy_tuning port at =
    if is_cdphy_combo port
    then update (at mipi_rx_ana18_csi0a) 0xffffff0f 0x50
      ∷ update (at mipi_rx_ana1c_csi0a) 0xff0fffff 0x500000
      ∷ update (at mipi_rx_ana20_csi0a) 0xff0fffff 0x500000
      ∷ when (is_4d1c port) (
          update (at mipi_rx_ana18_csi0b) 0xffffff0f 0x50
          ∷ update (at mipi_rx_ana1c_csi0b) 0xff0fffff 0x500000
          ∷ update (at mipi_rx_ana20_csi0b) 0xff0fffff 0x500000
          ∷ [])
    else update (at mipi_rx_ana18_csi1a) 0xff0fff0f 0x500050
      ∷ update (at mipi_rx_ana1c_csi1a) 0xffffff0f 0x50
      ∷ when (is_4d1c port) (
          update (at mipi_rx_ana18_csi1b) 0xff0fff0f 0x500050
          ∷ update (at mipi_rx_ana1c_csi1b) 0xffffff0f 0x50
          ∷ [])

-- From `End ANA EQ tuning` on: the power of the receiver, and its configuration.
unfoldable pub dphy_power : ℕ → (ℕ → Reg) → Reg → List Access
dphy_power port at conf =
    write (rx mipi_rx_ana40_csi0a) 0x90
      ∷ update (at mipi_rx_ana24_csi0a) 0xffffff 0x40000000
      ∷ when (is_4d1c port) (update (at mipi_rx_ana24_csi0b) 0xffffff 0x40000000 ∷ [])
    ++ keep_bits (at mipi_rx_wrapper80_csi0a) 0xfffcffff
      ∷ when (is_4d1c port) (keep_bits (at mipi_rx_wrapper80_csi0b) 0xfffcffff ∷ [])
    ++ update (at mipi_rx_ana00_csi0a) 0xfffffff7 0x8
      ∷ when (is_4d1c port) (update (at mipi_rx_ana00_csi0b) 0xfffffff7 0x8 ∷ [])
    ++ delay 20
      ∷ update (at mipi_rx_ana00_csi0a) 0xfffffff7 0x8
      ∷ when (is_4d1c port) (update (at mipi_rx_ana00_csi0b) 0xfffffffb 0x4 ∷ [])
    ++ delay 1 ∷ update conf 0xffffff (if is_4d1c port then 0xc9000000 else 0xe4000000) ∷ []

-- `mtk_seninf_set_dphy`; `receiver` is the port's offset in `rx_reg`.
unfoldable pub mtk_seninf_set_dphy : ℕ → ℕ → ℕ → List Access
unfolding dphy_mode dphy_tuning dphy_power
mtk_seninf_set_dphy port receiver seninf =
    let at : ℕ → Reg = λ offset. rx (receiver + offset) in
    dphy_mode port at
    ++ (dphy_tuning port at ++ dphy_power port at (bank seninf mipi_rx_con24_csi0))
