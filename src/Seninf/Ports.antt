-- ===== src/Seninf/Ports.antt =====
-- The ports of camera/driver/seninf/mtk_seninf.c that a link can select, and a sequence of accesses
-- around the one that starts an interface.
use mt8183_kukui_pmos.Prelude.{
  ℕ, zero, suc, ◌/◌, ◌<◌, ◌≡◌, ◌≢◌, refl, arith, bit_at, min, max, false, ◌==◌, ◌||◌, List, [], ◌∷◌,
  ◌++◌, some,
}
use mt8183_kukui_pmos.Seninf.State.{
  Reg, Regs, base, rx, Seninf, mtk_seninf_csi_port_to_seninf, csi2_rx,
}
use mt8183_kukui_pmos.Seninf.Registers.{
  seninf1_csi2_ctl, seninf_tg1_tm_stp, seninf1_ctrl, seninf1_ctrl_ext, seninf_top_cam_mux_ctrl,
}
use mt8183_kukui_pmos.Seninf.Access.{Access, copy, set_and, delay, run, update, set_bits, write}
use mt8183_kukui_pmos.Seninf.Formats.{mtk_seninf_get_dpcm, mtk_seninf_map_fmt}
use mt8183_kukui_pmos.Seninf.Mux.{bank, mtk_seninf_set_mux}
use mt8183_kukui_pmos.Seninf.Dphy.{mtk_seninf_set_dphy}
use mt8183_kukui_pmos.Seninf.Power.{
  mtk_seninf_set_csi_mipi, csi2_enable, power_on_accesses, timestamp_step,
}
use mt8183_kukui_pmos.Seninf.BitRun.{bit_at-run, run_other, writes, run-append}

-- A port, its interface and its receiver's offset.
pub data PortOf : ℕ → ℕ → ℕ → Type 0 where
  port_0 : PortOf 0 0 0
  port_1 : PortOf 1 2 0x2000
  port_2 : PortOf 2 4 0x4000
  port_0a : PortOf 3 0 0

pub PortOf-csi2_rx : (p n r : ℕ) → PortOf p n r → csi2_rx p ≡ some r
unfolding csi2_rx
PortOf-csi2_rx p n r port_0 = refl
PortOf-csi2_rx p n r port_1 = refl
PortOf-csi2_rx p n r port_2 = refl
PortOf-csi2_rx p n r port_0a = refl

pub PortOf-mtk_seninf_csi_port_to_seninf :
    (p n r : ℕ) → PortOf p n r → mtk_seninf_csi_port_to_seninf p ≡ some n
unfolding mtk_seninf_csi_port_to_seninf
PortOf-mtk_seninf_csi_port_to_seninf p n r port_0 = refl
PortOf-mtk_seninf_csi_port_to_seninf p n r port_1 = refl
PortOf-mtk_seninf_csi_port_to_seninf p n r port_2 = refl
PortOf-mtk_seninf_csi_port_to_seninf p n r port_0a = refl

pub PortOf-lt : (p n r : ℕ) → PortOf p n r → (p < 4) × (n < 8)
PortOf-lt p n r port_0 = (omega arith, omega arith)
PortOf-lt p n r port_1 = (omega arith, omega arith)
PortOf-lt p n r port_2 = (omega arith, omega arith)
PortOf-lt p n r port_0a = (omega arith, omega arith)

-- Every port that a link selects is one of these.
pub PortOf-total : (p : ℕ) → p < 4 → (n : ℕ) × (r : ℕ) × PortOf p n r
PortOf-total zero h = (0, 0, port_0)
PortOf-total (suc zero) h = (2, 0x2000, port_1)
PortOf-total (suc (suc zero)) h = (4, 0x4000, port_2)
PortOf-total (suc (suc (suc zero))) h = (0, 0, port_0a)
PortOf-total (suc (suc (suc (suc p)))) h = absurd (omega arith)

-- What the accesses of the interface leave in a bit of its CSI2 control.
pub set_csi_mipi-seninf1_csi2_ctl :
    (p n r dpcm lanes k : ℕ) (regs : Regs)
    → PortOf p n r
    → bit_at k (run (mtk_seninf_set_csi_mipi p r dpcm lanes n) regs (bank n seninf1_csi2_ctl))
      ≡ max
          (min (bit_at k 0xf5ffff7f) (
            max
              (min (bit_at k 0xffffffff) (bit_at k (regs (bank n seninf1_csi2_ctl))))
              (bit_at k (csi2_enable lanes))))
          (bit_at k 0x2000000)
unfolding mtk_seninf_set_csi_mipi mtk_seninf_set_dphy
set_csi_mipi-seninf1_csi2_ctl p n r dpcm lanes k regs port_0 =
    bit_at-run k _ regs (bank 0 seninf1_csi2_ctl)
set_csi_mipi-seninf1_csi2_ctl p n r dpcm lanes k regs port_1 =
    bit_at-run k _ regs (bank 2 seninf1_csi2_ctl)
set_csi_mipi-seninf1_csi2_ctl p n r dpcm lanes k regs port_2 =
    bit_at-run k _ regs (bank 4 seninf1_csi2_ctl)
set_csi_mipi-seninf1_csi2_ctl p n r dpcm lanes k regs port_0a =
    bit_at-run k _ regs (bank 0 seninf1_csi2_ctl)

-- The accesses of the interface write no register of another interface.
pub writes-set_csi_mipi :
    (p n r dpcm lanes a : ℕ)
    → PortOf p n r
    → a / 0x1000 ≢ 0
    → a / 0x1000 ≢ n
    → writes (base a) (mtk_seninf_set_csi_mipi p r dpcm lanes n) ≡ false
unfolding mtk_seninf_set_csi_mipi mtk_seninf_set_dphy
writes-set_csi_mipi p n r dpcm lanes a port_0 h k = ground arith
writes-set_csi_mipi p n r dpcm lanes a port_1 h k = ground arith
writes-set_csi_mipi p n r dpcm lanes a port_2 h k = ground arith
writes-set_csi_mipi p n r dpcm lanes a port_0a h k = ground arith

-- The multiplexer's accesses write its own bank only.
pub writes-set_mux :
    (mux fmt n a : ℕ)
    → mux < 8
    → a / 0x1000 ≢ mux
    → writes (base a) (mtk_seninf_set_mux mux fmt n) ≡ false
unfolding mtk_seninf_set_mux
writes-set_mux mux fmt n a h k = ground arith

-- The registers before the interface's own accesses, and the accesses behind them.
abbrev pub started_regs : Regs → Regs
started_regs regs =
    run
      (set_bits (base seninf1_ctrl) 0x1
        ∷ update (base seninf1_ctrl_ext) 0xffffffbf 0x40
        ∷ write (base seninf_tg1_tm_stp) timestamp_step
        ∷ [])
      regs

abbrev pub behind : Seninf → ℕ → List Access
behind s seninf =
    mtk_seninf_set_mux s.mux_sel (mtk_seninf_map_fmt s) seninf
    ++ write (base seninf_top_cam_mux_ctrl) 0x0 ∷ []

pub power_on_accesses-run :
    (s : Seninf) (receiver seninf : ℕ) (regs : Regs) (reg : Reg)
    → writes reg (behind s seninf) ≡ false
    → run (power_on_accesses s receiver seninf) regs reg
      ≡ run
          (mtk_seninf_set_csi_mipi s.port receiver
            (mtk_seninf_get_dpcm s)
            (s.num_data_lanes s.port)
            seninf)
          (started_regs regs)
          reg
unfolding power_on_accesses run
power_on_accesses-run s receiver seninf regs reg h =
    let csi =
      mtk_seninf_set_csi_mipi s.port receiver (mtk_seninf_get_dpcm s) (s.num_data_lanes s.port)
        seninf in
    rw (run-append csi (behind s seninf) (started_regs regs))
      (run_other (behind s seninf) reg (run csi (started_regs regs)) h)

pub writes-append :
    (reg : Reg) (xs ys : List Access) → writes reg (xs ++ ys) ≡ (writes reg xs || writes reg ys)
writes-append reg [] ys = refl
writes-append reg (write to value ∷ xs) ys = ground (arith, writes-append reg xs ys)
writes-append reg (copy to from keep set ∷ xs) ys = ground (arith, writes-append reg xs ys)
writes-append reg (set_and to set keep ∷ xs) ys = ground (arith, writes-append reg xs ys)
writes-append reg (delay us ∷ xs) ys = writes-append reg xs ys

pub writes_rx-behind : (s : Seninf) (seninf a : ℕ) → writes (rx a) (behind s seninf) ≡ false
unfolding mtk_seninf_set_mux
writes_rx-behind s seninf a = refl

pub writes-behind :
    (s : Seninf) (seninf a : ℕ)
    → s.mux_sel < 8
    → a / 0x1000 ≢ s.mux_sel
    → (a == seninf_top_cam_mux_ctrl) ≡ false
    → writes (base a) (behind s seninf) ≡ false
writes-behind s seninf a h k l =
    let mux = mtk_seninf_set_mux s.mux_sel (mtk_seninf_map_fmt s) seninf in
    ground (
      arith,
      writes-append (base a) mux (write (base seninf_top_cam_mux_ctrl) 0x0 ∷ []),
      writes-set_mux s.mux_sel (mtk_seninf_map_fmt s) seninf a h k,
    )

-- No multiplexer writes a CSI2 control.
pub writes_ctl-behind :
    (s : Seninf) (n : ℕ)
    → s.mux_sel < 8
    → n < 8
    → writes (bank n seninf1_csi2_ctl) (behind s n) ≡ false
unfolding mtk_seninf_set_mux
writes_ctl-behind s n h k = ground arith

pub started_regs-seninf1_csi2_ctl :
    (n : ℕ) (regs : Regs)
    → n < 8
    → started_regs regs (bank n seninf1_csi2_ctl) ≡ regs (bank n seninf1_csi2_ctl)
started_regs-seninf1_csi2_ctl n regs h =
    run_other
      (set_bits (base seninf1_ctrl) 0x1
        ∷ update (base seninf1_ctrl_ext) 0xffffffbf 0x40
        ∷ write (base seninf_tg1_tm_stp) timestamp_step
        ∷ [])
      (bank n seninf1_csi2_ctl) regs (ground arith)

pub started_regs-rx : (a : ℕ) (regs : Regs) → started_regs regs (rx a) ≡ regs (rx a)
unfolding run
started_regs-rx a regs = refl
