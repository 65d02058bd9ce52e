-- ===== src/Seninf/Stopping.antt =====
-- What stopping the interface turns off, and which registers neither touches.
use mt8183_kukui_pmos.Prelude.{
  ℕ, zero, suc, ◌+◌, ◌-◌, ◌<◌, ◌≡◌, ap, ◌∙◌, arith, min, max, bit_at, bit_at-le, Bool-cases, true,
  false, if◌then◌else◌, ◌⊎◌, inl, inr, some, none, Option,
}
use mt8183_kukui_pmos.Uapi.{Errno}
use mt8183_kukui_pmos.Seninf.State.{Regs, rx, Seninf, is_4d1c}
use mt8183_kukui_pmos.Seninf.Registers.{seninf1_csi2_ctl, mipi_rx_ana00_csi0a, mipi_rx_ana00_csi0b}
use mt8183_kukui_pmos.Seninf.Access.{run}
use mt8183_kukui_pmos.Seninf.Formats.{mtk_seninf_get_dpcm}
use mt8183_kukui_pmos.Seninf.Mux.{bank}
use mt8183_kukui_pmos.Seninf.Dphy.{mtk_seninf_set_dphy}
use mt8183_kukui_pmos.Seninf.Power.{
  mtk_seninf_power_off, power_off_accesses, seninf_s_stream, mtk_seninf_set_csi_mipi,
}
use mt8183_kukui_pmos.Seninf.BitRun.{bit_at-run}
use mt8183_kukui_pmos.Seninf.Ports.{
  PortOf, port_0, port_1, port_2, port_0a, PortOf-csi2_rx, PortOf-mtk_seninf_csi_port_to_seninf,
  power_on_accesses-run, writes_rx-behind, started_regs, started_regs-rx,
}
use mt8183_kukui_pmos.Seninf.Streaming.{powered, power_on-powered}

abbrev pub stopped : Seninf → ℕ → ℕ → Seninf
stopped s n r = record s { pm = s.pm - 1; regs = run (power_off_accesses s.port r n) s.regs }

power_off_lem :
    (s : Seninf) (n r : ℕ) → PortOf s.port n r → mtk_seninf_power_off s ≡ some (stopped s n r)
unfolding mtk_seninf_power_off
power_off_lem s n r p = rw (
  PortOf-csi2_rx s.port n r p,
  PortOf-mtk_seninf_csi_port_to_seninf s.port n r p,
  mtk_seninf_power_off,
)

pub power_off-stopped :
    (s : Seninf) (e : Option Errno) (n r : ℕ)
    → PortOf s.port n r
    → seninf_s_stream false e s ≡ some (stopped s n r, none)
unfolding seninf_s_stream
power_off-stopped s e n r p = rw (power_off_lem s n r p, seninf_s_stream)

-- What stopping does to the bits of the three registers that switch the receiver on.
off_bits :
    (p n r k : ℕ) (regs : Regs)
    → PortOf p n r
    → (bit_at k (run (power_off_accesses p r n) regs (bank n seninf1_csi2_ctl))
        ≡ max (min (bit_at k 0xffffffe0) (bit_at k (regs (bank n seninf1_csi2_ctl)))) (bit_at k 0))
      × (bit_at k (run (power_off_accesses p r n) regs (rx (r + mipi_rx_ana00_csi0a)))
          ≡ max
              (min (bit_at k 0xfffffff3) (bit_at k (regs (rx (r + mipi_rx_ana00_csi0a)))))
              (bit_at k 0))
      × (bit_at k (run (power_off_accesses p r n) regs (rx (r + mipi_rx_ana00_csi0b))) ≡ (
          if is_4d1c p
          then max
              (min (bit_at k 0xfffffff3) (bit_at k (regs (rx (r + mipi_rx_ana00_csi0b)))))
              (bit_at k 0)
          else bit_at k (regs (rx (r + mipi_rx_ana00_csi0b)))))
unfolding power_off_accesses
off_bits p n r k regs port_0 = (bit_at-run k _ regs _, bit_at-run k _ regs _, bit_at-run k _ regs _)
off_bits p n r k regs port_1 = (bit_at-run k _ regs _, bit_at-run k _ regs _, bit_at-run k _ regs _)
off_bits p n r k regs port_2 = (bit_at-run k _ regs _, bit_at-run k _ regs _, bit_at-run k _ regs _)
off_bits p n r k regs port_0a =
    (bit_at-run k _ regs _, bit_at-run k _ regs _, bit_at-run k _ regs _)

-- Starting port 0A leaves the power bits of the half that it does not use.
other_half :
    (p n r k dpcm lanes : ℕ) (regs : Regs)
    → PortOf p n r
    → is_4d1c p ≡ false
    → (k ≡ 2) ⊎ (k ≡ 3)
    → bit_at k (run (mtk_seninf_set_csi_mipi p r dpcm lanes n) regs (rx (r + mipi_rx_ana00_csi0b)))
      ≡ bit_at k (regs (rx (r + mipi_rx_ana00_csi0b)))
unfolding mtk_seninf_set_csi_mipi mtk_seninf_set_dphy
other_half p n r k dpcm lanes regs port_0a h (inl e) =
    let kept : k ≡ 2 = e in
    rw kept (bit_at-run 2 _ regs _ ∙ omega (arith, bit_at-le 2 (regs (rx mipi_rx_ana00_csi0b))))
other_half p n r k dpcm lanes regs port_0a h (inr e) =
    rw e (bit_at-run 3 _ regs _ ∙ omega (arith, bit_at-le 3 (regs (rx mipi_rx_ana00_csi0b))))
other_half p n r k dpcm lanes regs port_0 h which = absurd (cc)
other_half p n r k dpcm lanes regs port_1 h which = absurd (cc)
other_half p n r k dpcm lanes regs port_2 h which = absurd (cc)

-- A mask with a clear bit clears it.
cleared_lane : (j old : ℕ) → j < 5 → max (min (bit_at j 0xffffffe0) old) (bit_at j 0) ≡ 0
cleared_lane zero old h = omega arith
cleared_lane (suc zero) old h = omega arith
cleared_lane (suc (suc zero)) old h = omega arith
cleared_lane (suc (suc (suc zero))) old h = omega arith
cleared_lane (suc (suc (suc (suc zero)))) old h = omega arith
cleared_lane (suc (suc (suc (suc (suc j))))) old h = absurd (omega arith)

cleared_power :
    (k old : ℕ) → (k ≡ 2) ⊎ (k ≡ 3) → max (min (bit_at k 0xfffffff3) old) (bit_at k 0) ≡ 0
cleared_power k old (inl e) = rw e (omega arith)
cleared_power k old (inr e) = rw e (omega arith)

-- Starting and then stopping the interface on a port that a link selects, from any registers: both
-- succeed, the power reference is given back, the five enable bits of the CSI2 control are clear,
-- and so are the two power bits of the receiver's first half; those of its second half are clear on
-- a port that uses it, and on the other port they are as before the start.
pub seninf_s_stream-off :
    (s : Seninf) (off : Option Errno) (n r j k : ℕ)
    → PortOf s.port n r
    → j < 5
    → (k ≡ 2) ⊎ (k ≡ 3)
    → (d : Seninf) × (e : Seninf) × (seninf_s_stream true none s ≡ some (d, none))
      × (seninf_s_stream false off d ≡ some (e, none))
      × (e.pm ≡ s.pm)
      × (bit_at j (e.regs (bank n seninf1_csi2_ctl)) ≡ 0)
      × (bit_at k (e.regs (rx (r + mipi_rx_ana00_csi0a))) ≡ 0)
      × (bit_at k (e.regs (rx (r + mipi_rx_ana00_csi0b)))
          ≡ (if is_4d1c s.port then 0 else bit_at k (s.regs (rx (r + mipi_rx_ana00_csi0b)))))
seninf_s_stream-off s off n r j k p h which =
    let d = powered s n r in
    let a = rx (r + mipi_rx_ana00_csi0a) in
    let b = rx (r + mipi_rx_ana00_csi0b) in
    let (_, first, second) = off_bits s.port n r k d.regs p in
    let rest : (if is_4d1c s.port
          then max (min (bit_at k 0xfffffff3) (bit_at k (d.regs b))) (bit_at k 0)
          else bit_at k (d.regs b))
        ≡ (if is_4d1c s.port then 0 else bit_at k (s.regs b)) =
      elim (Bool-cases (is_4d1c s.port)) [
        | inl yes' ↦ rw yes' (cleared_power k (bit_at k (d.regs b)) which)
        | inr no' ↦ rw no' (
            ap (bit_at k) (
              power_on_accesses-run s r n s.regs b (writes_rx-behind s n (r + mipi_rx_ana00_csi0b)))
            ∙ other_half s.port n r k (mtk_seninf_get_dpcm s) (s.num_data_lanes s.port)
                (started_regs s.regs) p no' which
            ∙ ap (bit_at k) (started_regs-rx (r + mipi_rx_ana00_csi0b) s.regs))
      ] in
    (
      d,
      stopped d n r,
      power_on-powered s n r p,
      power_off-stopped d off n r p,
      omega arith,
      (off_bits s.port n r j d.regs p).0
          ∙ cleared_lane j (bit_at j (d.regs (bank n seninf1_csi2_ctl))) h,
      first ∙ cleared_power k (bit_at k (d.regs a)) which,
      second ∙ rest,
    )
