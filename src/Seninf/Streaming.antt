-- ===== src/Seninf/Streaming.antt =====
-- Starting and stopping the interface: the lanes, the power of the receiver, and what stays as it is.
use mt8183_kukui_pmos.Prelude.{
  ℕ, zero, suc, ◌+◌, ◌<◌, ◌≤◌, ◌≡◌, refl, ap, ◌∙◌, arith, min, max, bit_at, true, false, ltb, ◌==◌,
  ==_iff, if◌then◌else◌, holds_below, holds_below_lem, some, none, leb,
}
use mt8183_kukui_pmos.Seninf.State.{Seninf, num_sensors}
use mt8183_kukui_pmos.Seninf.Registers.{seninf1_csi2_ctl}
use mt8183_kukui_pmos.Seninf.Access.{run}
use mt8183_kukui_pmos.Seninf.Formats.{mtk_seninf_get_dpcm}
use mt8183_kukui_pmos.Seninf.Mux.{bank}
use mt8183_kukui_pmos.Seninf.Power.{
  csi2_enable, mtk_seninf_power_on, power_on_accesses, seninf_s_stream,
}
use mt8183_kukui_pmos.Seninf.Ports.{
  PortOf, PortOf-csi2_rx, PortOf-mtk_seninf_csi_port_to_seninf, PortOf-lt,
  set_csi_mipi-seninf1_csi2_ctl, power_on_accesses-run, writes_ctl-behind, started_regs,
  started_regs-seninf1_csi2_ctl,
}

-- Bit `k` of the lane field that `lanes` lanes want.
abbrev pub lane_bit : ℕ → ℕ → ℕ
lane_bit lanes k = if ltb k lanes then 1 else 0

csi2_enable-lane_bit :
    (lanes k : ℕ) → lanes < 5 → k < 4 → bit_at k (csi2_enable lanes) ≡ lane_bit lanes k
unfolding holds_below
csi2_enable-lane_bit lanes k h l = (==_iff (bit_at k (csi2_enable lanes)) (lane_bit lanes k)).0 (
    holds_below_lem (λ j. bit_at j (csi2_enable lanes) == lane_bit lanes j) 4 k l
      (holds_below_lem (λ n. holds_below (λ j. bit_at j (csi2_enable n) == lane_bit n j) 4) 5 lanes
        h refl))

-- A lane bit that was clear is the bit that the lanes want.
lane_set :
    (k old want : ℕ)
    → k < 4
    → old ≡ 0
    → want ≤ 1
    → max
        (min (bit_at k 0xf5ffff7f) (max (min (bit_at k 0xffffffff) old) want))
        (bit_at k 0x2000000)
      ≡ want
lane_set zero old want h e l = omega arith
lane_set (suc zero) old want h e l = omega arith
lane_set (suc (suc zero)) old want h e l = omega arith
lane_set (suc (suc (suc zero))) old want h e l = omega arith
lane_set (suc (suc (suc (suc k)))) old want h e l = absurd (omega arith)

-- A started interface.
abbrev pub powered : Seninf → ℕ → ℕ → Seninf
powered s n r = record s { pm = s.pm + 1; regs = run (power_on_accesses s r n) s.regs }

pub power_on-powered :
    (s : Seninf) (n r : ℕ)
    → PortOf s.port n r
    → seninf_s_stream true none s ≡ some (powered s n r, none)
unfolding seninf_s_stream mtk_seninf_power_on
power_on-powered s n r p =
    let in_range : leb num_sensors s.port ≡ false = ground (arith, (PortOf-lt s.port n r p).0) in
    rw (
      PortOf-mtk_seninf_csi_port_to_seninf s.port n r p,
      in_range,
      PortOf-csi2_rx s.port n r p,
      mtk_seninf_power_on,
    )

-- Starting an interface whose lane bits are clear, for a sensor with up to four lanes on a port that
-- a link selects: the start succeeds, and of the four lane bits of the interface's CSI2 control
-- exactly the sensor's first lanes are set.
pub seninf_s_stream-lane_bit :
    (s : Seninf) (n r k : ℕ)
    → PortOf s.port n r
    → s.mux_sel < 8
    → s.num_data_lanes s.port < 5
    → k < 4
    → bit_at k (s.regs (bank n seninf1_csi2_ctl)) ≡ 0
    → (d : Seninf) × (seninf_s_stream true none s ≡ some (d, none))
      × (bit_at k (d.regs (bank n seninf1_csi2_ctl)) ≡ lane_bit (s.num_data_lanes s.port) k)
seninf_s_stream-lane_bit s n r k p mux lanes l clear =
    let ctl = bank n seninf1_csi2_ctl in
    let small : n < 8 = (PortOf-lt s.port n r p).1 in
    let same = power_on_accesses-run s r n s.regs ctl (writes_ctl-behind s n mux small) in
    let before : bit_at k (started_regs s.regs ctl) ≡ 0 =
      ap (bit_at k) (started_regs-seninf1_csi2_ctl n s.regs small) ∙ clear in
    let want = csi2_enable-lane_bit (s.num_data_lanes s.port) k lanes l in
    (
      powered s n r,
      power_on-powered s n r p,
      ap (bit_at k) same
          ∙ set_csi_mipi-seninf1_csi2_ctl s.port n r (mtk_seninf_get_dpcm s)
              (s.num_data_lanes s.port) k (started_regs s.regs) p
          ∙ (lane_set k (bit_at k (started_regs s.regs ctl))
                (bit_at k (csi2_enable (s.num_data_lanes s.port))) l before (ground (arith, want))
              ∙ want),
    )
