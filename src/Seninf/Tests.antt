-- ===== src/Seninf/Tests.antt =====
-- Concrete runs of camera/driver/seninf/mtk_seninf.c.
use mt8183_kukui_pmos.Prelude.{
  inr, ℕ, ◌⊎◌, ◌+◌, ◌≡◌, refl, arith, bit_at, true, false, ◌==◌, if◌then◌else◌, inl, [], ◌∷◌, some,
  none,
}
use mt8183_kukui_pmos.Uapi.{einval, sgrbg10_1x10}
use mt8183_kukui_pmos.Seninf.State.{base, rx, FrameFmt, Seninf, is_4d1c}
use mt8183_kukui_pmos.Seninf.Registers.{
  seninf1_csi2_ctl, mipi_rx_ana00_csi0a, mipi_rx_ana00_csi0b, seninf_top_mux_ctrl,
}
use mt8183_kukui_pmos.Seninf.Formats.{
  default_fmt, seninf_init_state, seninf_set_fmt, seninf_set_try_fmt, seninf_get_fmt, sink, source,
  seninf_link_setup,
}
use mt8183_kukui_pmos.Seninf.Access.{run}
use mt8183_kukui_pmos.Seninf.Mux.{bank, mtk_seninf_set_mux}
use mt8183_kukui_pmos.Seninf.Power.{seninf_s_stream}
use mt8183_kukui_pmos.Seninf.Ports.{port_1, port_0a}
use mt8183_kukui_pmos.Seninf.Streaming.{lane_bit, seninf_s_stream-lane_bit}
use mt8183_kukui_pmos.Seninf.Stopping.{seninf_s_stream-off}
use mt8183_kukui_pmos.Seninf.Frame.{
  mtk_seninf_set_mux-seninf_top_mux_ctrl, seninf_s_stream-other_bank,
}
use mt8183_kukui_pmos.Seninf.Negotiated.{seninf_set_fmt-seninf_get_fmt}
use mt8183_kukui_pmos.Seninf.Register.{Answers, seninf_probe}
use mt8183_kukui_pmos.Seninf.Unwound.{IsKnown, IsUnwound, IsLeft, seninf_probe-IsUnwound}
use mt8183_kukui_pmos.Seninf.Reached.{IsReady, here, link, Reaches-seninf_s_stream}

-- A sensor with two lanes on the second port; the registers are clear.
abbrev two_lanes : Seninf
two_lanes = record {
  fmt = seninf_init_state;
  num_data_lanes = λ i. 2;
  port = 1;
  mux_sel = 1;
  pm = 0;
  regs = λ reg. 0;
}

-- The same on port 0A, the registers all ones.
abbrev on_port_0a : Seninf
on_port_0a = record two_lanes { port = 3; mux_sel = 0; regs = λ reg. 0xffffffff }

abbrev full_hd_fmt : FrameFmt
full_hd_fmt = record default_fmt { code = sgrbg10_1x10; width = 1920; height = 1080 }

seninf_s_stream-lane_bit_example :
    (d : Seninf) × (seninf_s_stream true none two_lanes ≡ some (d, none))
    × (bit_at 1 (d.regs (bank 2 seninf1_csi2_ctl)) ≡ lane_bit 2 1)
seninf_s_stream-lane_bit_example =
    seninf_s_stream-lane_bit two_lanes 2 0x2000 1 port_1 (omega arith) (omega arith) (omega arith)
      refl

seninf_s_stream-off_example :
    (d : Seninf) × (e : Seninf) × (seninf_s_stream true none on_port_0a ≡ some (d, none))
    × (seninf_s_stream false none d ≡ some (e, none))
    × (e.pm ≡ 0)
    × (bit_at 4 (e.regs (bank 0 seninf1_csi2_ctl)) ≡ 0)
    × (bit_at 2 (e.regs (rx (0 + mipi_rx_ana00_csi0a))) ≡ 0)
    × (bit_at 2 (e.regs (rx (0 + mipi_rx_ana00_csi0b)))
        ≡ (if is_4d1c 3 then 0 else bit_at 2 0xffffffff))
seninf_s_stream-off_example =
    seninf_s_stream-off on_port_0a none 0 0 4 2 port_0a (omega arith) (inl refl)

seninf_s_stream-other_bank_example :
    (d : Seninf) × (e : Seninf) × (seninf_s_stream true none two_lanes ≡ some (d, none))
    × (seninf_s_stream false none d ≡ some (e, none))
    × (d.regs (base 0x3004) ≡ 0)
    × (e.regs (base 0x3004) ≡ 0)
    × (d.regs (rx 0x6000) ≡ 0)
    × (e.regs (rx 0x6000) ≡ 0)
seninf_s_stream-other_bank_example =
    seninf_s_stream-other_bank two_lanes none 2 0x2000 0x3004 0x6000 port_1 (omega arith)
      (omega arith) (omega arith) (omega arith) (omega arith) (inr (omega arith))

mtk_seninf_set_mux-seninf_top_mux_ctrl_example :
    (bit_at 1 (run (mtk_seninf_set_mux 1 1 2) (λ reg. 6) (base seninf_top_mux_ctrl))
      ≡ (if 1 == 0 then bit_at 1 2 else bit_at 1 6))
    × ((◌≡◌ {A = ℕ} 1 0)
        ⊎ (run (mtk_seninf_set_mux 1 1 2) (λ reg. 6) (base seninf_top_mux_ctrl) ≡ 6))
mtk_seninf_set_mux-seninf_top_mux_ctrl_example =
    mtk_seninf_set_mux-seninf_top_mux_ctrl 1 1 2 1 (λ reg. 6) (omega arith) (omega arith)
      (omega arith)

seninf_set_fmt-seninf_get_fmt_example :
    (let (f, after) = seninf_set_fmt 1 full_hd_fmt seninf_init_state in
      let own = seninf_get_fmt 1 after in
      (seninf_get_fmt 11 after ≡ f)
      × (own.code ≡ f.code)
      × (own.width ≡ f.width)
      × (own.height ≡ f.height)
      × (seninf_get_fmt 0 after ≡ seninf_get_fmt 0 seninf_init_state))
    × (let (f, after) = seninf_set_try_fmt 1 full_hd_fmt seninf_init_state in
        (seninf_get_fmt 11 after ≡ f)
        × (seninf_get_fmt 1 after ≡ f)
        × (seninf_get_fmt 0 after ≡ seninf_get_fmt 0 seninf_init_state))
seninf_set_fmt-seninf_get_fmt_example =
    seninf_set_fmt-seninf_get_fmt 1 11 0 full_hd_fmt seninf_init_state (omega arith) (omega arith)
      (omega arith) (omega arith) (omega arith)

-- The link of port 0A, after the one of the sixth camera pad.
abbrev linked : Seninf
linked =
    let (first, _) = seninf_link_setup source 9 true two_lanes in
    (seninf_link_setup sink 3 true first).0

Reaches-seninf_s_stream_example :
    IsReady linked × ((u : Seninf) × (seninf_s_stream true none linked ≡ some (u, none)))
Reaches-seninf_s_stream_example =
    Reaches-seninf_s_stream two_lanes linked true none
      (record { port = omega arith; mux_sel = omega arith })
      (link two_lanes _ sink 3 true (omega arith)
        (link two_lanes _ source 9 true (omega arith, omega arith) (here two_lanes)))

-- A device tree with one sensor and an endpoint that no sensor can have; the subdevice is refused.
abbrev refused : Answers
refused = record {
  ioremap_base = none;
  ioremap_rx = none;
  kzalloc = true;
  kcalloc = true;
  clk_get = none;
  handler_init = none;
  handler_error = none;
  pads_init = none;
  endpoints =
      record { parse = none; port = 1; is_csi2_dphy = true; lanes = 2; add = none }
      ∷ record { parse = none; port = 5; is_csi2_dphy = true; lanes = 4; add = none }
      ∷ [];
  nf_register = none;
  register_subdev = some einval;
}

seninf_probe-IsUnwound_example :
    (let (t, (h, answer)) = seninf_probe refused two_lanes in
      IsKnown h.connections × (IsUnwound answer h × IsLeft refused answer h))
seninf_probe-IsUnwound_example = seninf_probe-IsUnwound refused two_lanes
