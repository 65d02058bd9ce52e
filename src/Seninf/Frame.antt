-- ===== src/Seninf/Frame.antt =====
-- The registers that starting and stopping the interface leave as they are, and the selector of the
-- multiplexer's input.
use mt8183_kukui_pmos.Prelude.{
  ℕ, ◌+◌, ◌≤◌, zero, suc, refl, ◌⊎◌, inl, inr, ◌/◌, ◌<◌, ◌≡◌, ◌≢◌, ap, ◌∙◌, arith, min, max, bit_at,
  true, false, ◌==◌, if◌then◌else◌, [], ◌∷◌, some, none, Option,
}
use mt8183_kukui_pmos.Uapi.{Errno}
use mt8183_kukui_pmos.Seninf.State.{Regs, base, rx, Seninf}
use mt8183_kukui_pmos.Seninf.Registers.{
  seninf_top_mux_ctrl, seninf1_ctrl, seninf1_ctrl_ext, seninf_tg1_tm_stp,
}
use mt8183_kukui_pmos.Seninf.Access.{run, write, update, set_bits}
use mt8183_kukui_pmos.Seninf.Dphy.{mtk_seninf_set_dphy}
use mt8183_kukui_pmos.Seninf.Formats.{mtk_seninf_get_dpcm}
use mt8183_kukui_pmos.Seninf.Mux.{mux_field, mtk_seninf_set_mux}
use mt8183_kukui_pmos.Seninf.Power.{
  power_off_accesses, seninf_s_stream, timestamp_step, mtk_seninf_set_csi_mipi,
}
use mt8183_kukui_pmos.Seninf.BitRun.{bit_at-run, run_other, writes}
use mt8183_kukui_pmos.Seninf.Ports.{
  PortOf, port_0, port_1, port_2, port_0a, power_on_accesses-run, started_regs, writes-set_csi_mipi,
  writes-behind, writes_rx-behind, started_regs-rx,
}
use mt8183_kukui_pmos.Seninf.Streaming.{powered, power_on-powered}
use mt8183_kukui_pmos.Seninf.Stopping.{stopped, power_off-stopped}

low_nibble :
    (k seninf old : ℕ)
    → seninf < 16
    → k < 4
    → max (min (bit_at k 0xfffffff0) old) (bit_at k (mux_field 0 seninf)) ≡ bit_at k seninf
low_nibble zero seninf old h l = omega arith
low_nibble (suc zero) seninf old h l = omega arith
low_nibble (suc (suc zero)) seninf old h l = omega arith
low_nibble (suc (suc (suc zero))) seninf old h l = omega arith
low_nibble (suc (suc (suc (suc k)))) seninf old h l = absurd (omega arith)

-- The multiplexer of the number 0 selects the interface: the low four bits of the selector's
-- register hold the interface's number, and its other bits stay.
mux_0_selects :
    (fmt seninf k : ℕ) (r : Regs)
    → seninf < 16
    → k < 4
    → bit_at k (run (mtk_seninf_set_mux 0 fmt seninf) r (base seninf_top_mux_ctrl))
      ≡ bit_at k seninf
unfolding mtk_seninf_set_mux
mux_0_selects fmt seninf k r h l =
    bit_at-run k (mtk_seninf_set_mux 0 fmt seninf) r (base seninf_top_mux_ctrl)
    ∙ low_nibble k seninf (bit_at k (r (base seninf_top_mux_ctrl))) h l

-- A multiplexer with another number does not: the register keeps its value.
mux_other_keeps :
    (mux fmt seninf : ℕ) (r : Regs)
    → 0 < mux
    → mux < 8
    → run (mtk_seninf_set_mux mux fmt seninf) r (base seninf_top_mux_ctrl)
      ≡ r (base seninf_top_mux_ctrl)
unfolding mtk_seninf_set_mux
mux_other_keeps mux fmt seninf r h l =
    run_other (mtk_seninf_set_mux mux fmt seninf) (base seninf_top_mux_ctrl) r (ground arith)

-- The register of the selectors after `mtk_seninf_set_mux`, for one of the eight multiplexers and an
-- interface below 16: with the multiplexer 0 its low four bits are the interface's number, and with
-- another multiplexer not one of its bits changes, those of that multiplexer's selector included.
pub mtk_seninf_set_mux-seninf_top_mux_ctrl :
    (mux fmt seninf k : ℕ) (r : Regs)
    → mux < 8
    → seninf < 16
    → k < 4
    → (bit_at k (run (mtk_seninf_set_mux mux fmt seninf) r (base seninf_top_mux_ctrl))
        ≡ (if mux == 0 then bit_at k seninf else bit_at k (r (base seninf_top_mux_ctrl))))
      × ((mux ≡ 0)
          ⊎ (run (mtk_seninf_set_mux mux fmt seninf) r (base seninf_top_mux_ctrl)
              ≡ r (base seninf_top_mux_ctrl)))
mtk_seninf_set_mux-seninf_top_mux_ctrl zero fmt seninf k r m h l =
    (mux_0_selects fmt seninf k r h l, inl refl)
mtk_seninf_set_mux-seninf_top_mux_ctrl (suc mux) fmt seninf k r m h l =
    let other : (suc mux == 0) ≡ false = ground arith in
    let kept = mux_other_keeps (suc mux) fmt seninf r (omega arith) m in
    (rw other (ap (bit_at k) kept), inr kept)

writes_base-power_off_accesses :
    (p n r a : ℕ)
    → PortOf p n r
    → a / 0x1000 ≢ n
    → writes (base a) (power_off_accesses p r n) ≡ false
unfolding power_off_accesses
writes_base-power_off_accesses p n r a port_0 h = ground arith
writes_base-power_off_accesses p n r a port_1 h = ground arith
writes_base-power_off_accesses p n r a port_2 h = ground arith
writes_base-power_off_accesses p n r a port_0a h = ground arith

started_regs_other :
    (a : ℕ) (regs : Regs) → a / 0x1000 ≢ 0 → started_regs regs (base a) ≡ regs (base a)
started_regs_other a regs h =
    run_other
      (set_bits (base seninf1_ctrl) 0x1
        ∷ update (base seninf1_ctrl_ext) 0xffffffbf 0x40
        ∷ write (base seninf_tg1_tm_stp) timestamp_step
        ∷ [])
      (base a) regs (ground arith)

writes_rx-set_csi_mipi :
    (p n r dpcm lanes b : ℕ)
    → PortOf p n r
    → b / 0x2000 ≢ 0
    → (b < r) ⊎ (r + 0x4000 ≤ b)
    → writes (rx b) (mtk_seninf_set_csi_mipi p r dpcm lanes n) ≡ false
unfolding mtk_seninf_set_csi_mipi mtk_seninf_set_dphy
writes_rx-set_csi_mipi p n r dpcm lanes b port_0 z h = ground arith
writes_rx-set_csi_mipi p n r dpcm lanes b port_1 z h = ground arith
writes_rx-set_csi_mipi p n r dpcm lanes b port_2 z h = ground arith
writes_rx-set_csi_mipi p n r dpcm lanes b port_0a z h = ground arith

writes_rx-power_off_accesses :
    (p n r b : ℕ)
    → PortOf p n r
    → b / 0x2000 ≢ 0
    → (b < r) ⊎ (r + 0x4000 ≤ b)
    → writes (rx b) (power_off_accesses p r n) ≡ false
unfolding power_off_accesses
writes_rx-power_off_accesses p n r b port_0 z h = ground arith
writes_rx-power_off_accesses p n r b port_1 z h = ground arith
writes_rx-power_off_accesses p n r b port_2 z h = ground arith
writes_rx-power_off_accesses p n r b port_0a z h = ground arith

-- Starting and stopping the interface, on a port that a link selects, changes no register of the
-- interface's block outside the first bank, the bank of its own interface and the bank of its
-- multiplexer, and no register of the receivers outside their first 0x2000 bytes and the
-- 0x4000 bytes from the port's own receiver on.
pub seninf_s_stream-other_bank :
    (s : Seninf) (off : Option Errno) (n r a b : ℕ)
    → PortOf s.port n r
    → s.mux_sel < 8
    → a / 0x1000 ≢ 0
    → a / 0x1000 ≢ n
    → a / 0x1000 ≢ s.mux_sel
    → b / 0x2000 ≢ 0
    → (b < r) ⊎ (r + 0x4000 ≤ b)
    → (d : Seninf) × (e : Seninf) × (seninf_s_stream true none s ≡ some (d, none))
      × (seninf_s_stream false off d ≡ some (e, none))
      × (d.regs (base a) ≡ s.regs (base a))
      × (e.regs (base a) ≡ s.regs (base a))
      × (d.regs (rx b) ≡ s.regs (rx b))
      × (e.regs (rx b) ≡ s.regs (rx b))
seninf_s_stream-other_bank s off n r a b p mux not_0 not_n not_mux not_first not_rx =
    let d = powered s n r in
    let csi =
      mtk_seninf_set_csi_mipi s.port r (mtk_seninf_get_dpcm s) (s.num_data_lanes s.port) n in
    let started : d.regs (base a) ≡ s.regs (base a) =
      power_on_accesses-run s r n s.regs (base a) (writes-behind s n a mux not_mux (ground arith))
      ∙ (run_other csi (base a) (started_regs s.regs) (
            writes-set_csi_mipi s.port n r (mtk_seninf_get_dpcm s) (s.num_data_lanes s.port) a p
              not_0 not_n)
          ∙ started_regs_other a s.regs not_0) in
    let started_rx : d.regs (rx b) ≡ s.regs (rx b) =
      power_on_accesses-run s r n s.regs (rx b) (writes_rx-behind s n b)
      ∙ (run_other csi (rx b) (started_regs s.regs) (
            writes_rx-set_csi_mipi s.port n r (mtk_seninf_get_dpcm s) (s.num_data_lanes s.port) b p
              not_first not_rx)
          ∙ started_regs-rx b s.regs) in
    (
      d,
      stopped d n r,
      power_on-powered s n r p,
      power_off-stopped d off n r p,
      started,
      run_other (power_off_accesses s.port r n) (base a) d.regs
            (writes_base-power_off_accesses s.port n r a p not_n)
          ∙ started,
      started_rx,
      run_other (power_off_accesses s.port r n) (rx b) d.regs
            (writes_rx-power_off_accesses s.port n r b p not_first not_rx)
          ∙ started_rx,
    )
