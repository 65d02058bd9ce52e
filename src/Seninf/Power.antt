-- ===== src/Seninf/Power.antt =====
-- camera/driver/seninf/mtk_seninf.c: starting and stopping the interface.
use mt8183_kukui_pmos.Prelude.{
  ℕ, ◌+◌, ◌-◌, ◌*◌, ◌%◌, ◌^◌, ◌==◌, leb, if◌then◌else◌, Bool, true, false, List, [], ◌∷◌, ◌++◌,
  Option, some, none, bit_or,
}
use mt8183_kukui_pmos.Uapi.{Errno, einval}
use mt8183_kukui_pmos.Seninf.State.{
  Seninf, base, rx, num_sensors, csi_port_0, csi_port_1, csi_port_2, csi_port_0a, csi_port_0b,
  csi2_rx, mtk_seninf_csi_port_to_seninf,
}
use mt8183_kukui_pmos.Seninf.Registers.{
  seninf1_ctrl, seninf1_ctrl_ext, seninf1_csi2_ctl, seninf1_csi2_dgb_sel, seninf1_csi2_dpcm,
  seninf1_csi2_dphy_sync, seninf1_csi2_hs_trail, seninf1_csi2_int_en, seninf1_csi2_int_en_ext,
  seninf1_csi2_int_status, seninf1_csi2_lnrd_timing, seninf1_csi2_mode,
  seninf1_csi2_resync_merge_ctl, seninf1_csi2_spare0, seninf_tg1_tm_stp, seninf_top_cam_mux_ctrl,
  seninf_top_phy_seninf_ctl_csi0, seninf_top_phy_seninf_ctl_csi1, seninf_top_phy_seninf_ctl_csi2,
  mipi_rx_ana00_csi0a, mipi_rx_ana00_csi0b,
}
use mt8183_kukui_pmos.Seninf.Access.{Access, write, delay, update, set_bits, keep_bits, run}
use mt8183_kukui_pmos.Seninf.Formats.{mtk_seninf_get_dpcm, mtk_seninf_map_fmt}
use mt8183_kukui_pmos.Seninf.Mux.{bank, mtk_seninf_set_mux}
use mt8183_kukui_pmos.Seninf.Dphy.{mtk_seninf_set_dphy}

abbrev pub settle_delay : ℕ
settle_delay = 0x15

abbrev pub timestamp_step : ℕ
timestamp_step = 0x67

abbrev pub hs_trail_parameter : ℕ
hs_trail_parameter = 0x8

-- The `switch` on the port at the start of `mtk_seninf_set_csi_mipi`.
unfoldable pub phy_control : ℕ → List Access
phy_control port =
    if port == csi_port_1
    then update (base seninf_top_phy_seninf_ctl_csi1) 0x7ffff8fe 0x80000200 ∷ []
    else if port == csi_port_2
    then update (base seninf_top_phy_seninf_ctl_csi2) 0x7ffff8fe 0x80000200 ∷ []
    else if port == csi_port_0
    then update (base seninf_top_phy_seninf_ctl_csi0) 0x7ffff8fe 0x80000200 ∷ []
    else if port == csi_port_0a
    then update (base seninf_top_phy_seninf_ctl_csi0) 0x7fffc8fe 0x80001100 ∷ []
    else if port == csi_port_0b
    then update (base seninf_top_phy_seninf_ctl_csi0) 0x7fffc8fe 0x80001100 ∷ []
    else []

-- `1 << ((dpcm == 0x2a) ? 15 : ((dpcm & 0xF) + 7))`
abbrev pub dpcm_enable : ℕ → ℕ
dpcm_enable dpcm = if dpcm == 0x2a then 2 ^ 15 else 2 ^ (dpcm % 16 + 7)

-- `(data_header_order << 16) | 0x10 | ((1 << data_lane_num) - 1)`
abbrev pub csi2_enable : ℕ → ℕ
csi2_enable lanes = bit_or 0x10010 (2 ^ lanes - 1)

-- `mtk_seninf_set_csi_mipi` of an interface, with the receiver's offset; the pad is `PAD_10BIT`, 0.
unfoldable pub mtk_seninf_set_csi_mipi : ℕ → ℕ → ℕ → ℕ → ℕ → List Access
unfolding phy_control
mtk_seninf_set_csi_mipi port receiver dpcm lanes seninf =
    let at = bank seninf in
    phy_control port
    ++ set_bits (at seninf1_ctrl) 0x1
      ∷ update (at seninf1_ctrl) 0x8fffffff 0
      ∷ keep_bits (at seninf1_ctrl) 0xffff0fff
      ∷ update (at seninf1_ctrl_ext) 0xffffff9f 0x40
      ∷ mtk_seninf_set_dphy port receiver seninf
    ++ write (at seninf1_csi2_dpcm) (dpcm_enable dpcm)
      ∷ update (at seninf1_csi2_lnrd_timing) 0xffff00ff (settle_delay * 2 ^ 8)
      ∷ set_bits (at seninf1_csi2_ctl) (csi2_enable lanes)
      ∷ update (at seninf1_csi2_resync_merge_ctl) 0xfffff3f8 0x3
      ∷ keep_bits (at seninf1_csi2_mode) 0xfffff800
      ∷ write (at seninf1_csi2_dphy_sync) 0x1dff00
      ∷ keep_bits (at seninf1_csi2_spare0) 0xfffffffe
      ∷ update (at seninf1_csi2_ctl) 0xf5ffff7f 0x2000000
      ∷ update (at seninf1_csi2_hs_trail) 0xffffff00 hs_trail_parameter
      ∷ write (at seninf1_csi2_dgb_sel) 0x8000001a
      ∷ write (at seninf1_csi2_int_en) 0xffffffff
      ∷ write (at seninf1_csi2_int_status) 0xffffffff
      ∷ write (at seninf1_csi2_int_en_ext) 0x0000001f
      ∷ update (at seninf1_ctrl) 0xffffff7f 0x80
      ∷ delay 1
      ∷ keep_bits (at seninf1_ctrl) 0xffffff7f
      ∷ []

-- The accesses of `mtk_seninf_power_on` behind `pm_runtime_get_sync`.
unfoldable pub power_on_accesses : Seninf → ℕ → ℕ → List Access
unfolding mtk_seninf_set_csi_mipi
power_on_accesses s receiver seninf =
    set_bits (base seninf1_ctrl) 0x1
      ∷ update (base seninf1_ctrl_ext) 0xffffffbf 0x40
      ∷ write (base seninf_tg1_tm_stp) timestamp_step
      ∷ mtk_seninf_set_csi_mipi s.port receiver (mtk_seninf_get_dpcm s) (s.num_data_lanes s.port)
          seninf
    ++ (mtk_seninf_set_mux s.mux_sel (mtk_seninf_map_fmt s) seninf
        ++ write (base seninf_top_cam_mux_ctrl) 0x0 ∷ [])

-- `mtk_seninf_power_on`; `get_sync` is a negative answer of `pm_runtime_get_sync`. `none` is a port
-- past the array of sensors that the mapping knows.
unfoldable pub mtk_seninf_power_on : Option Errno → Seninf → Option (Seninf × Option Errno)
unfolding power_on_accesses
mtk_seninf_power_on get_sync s = elim (mtk_seninf_csi_port_to_seninf s.port) [
  | none ↦ some (s, some einval)
  | some seninf ↦ elim get_sync [
    | some e ↦ some (s, some e)
    | none ↦ if leb num_sensors s.port then none else elim (csi2_rx s.port) [
      | none ↦ none
      | some receiver ↦ some (
        record s { pm = s.pm + 1; regs = run (power_on_accesses s receiver seninf) s.regs },
        none,
      )
    ]
  ]
]

-- The `switch` of `mtk_seninf_power_off`.
unfoldable pub receiver_off : ℕ → ℕ → List Access
receiver_off port receiver =
    let a = keep_bits (rx (receiver + mipi_rx_ana00_csi0a)) 0xfffffff3 in
    let b = keep_bits (rx (receiver + mipi_rx_ana00_csi0b)) 0xfffffff3 in
    if port == csi_port_0a then a ∷ [] else if port == csi_port_0b then b ∷ [] else a ∷ b ∷ []

unfoldable pub power_off_accesses : ℕ → ℕ → ℕ → List Access
unfolding receiver_off
power_off_accesses port receiver seninf =
    keep_bits (bank seninf seninf1_csi2_ctl) 0xffffffe0 ∷ receiver_off port receiver

-- `mtk_seninf_power_off`; `none` is a port past the arrays.
unfoldable pub mtk_seninf_power_off : Seninf → Option Seninf
unfolding power_off_accesses
mtk_seninf_power_off s = elim (csi2_rx s.port) [
  | none ↦ none
  | some receiver ↦ elim (mtk_seninf_csi_port_to_seninf s.port) [
    | none ↦ none
    | some seninf ↦
        some (record s {
          pm = s.pm - 1;
          regs = run (power_off_accesses s.port receiver seninf) s.regs;
        })
  ]
]

-- `seninf_s_stream`
unfoldable pub seninf_s_stream : Bool → Option Errno → Seninf → Option (Seninf × Option Errno)
unfolding mtk_seninf_power_on mtk_seninf_power_off
seninf_s_stream true get_sync s = mtk_seninf_power_on get_sync s
seninf_s_stream false get_sync s = elim (mtk_seninf_power_off s) [
  | none ↦ none
  | some t ↦ some (t, none)
]
