-- ===== src/Seninf/Reached.antt =====
-- The states that the operations of camera/driver/seninf/mtk_seninf.c reach.
use mt8183_kukui_pmos.Prelude.{
  ℕ, ◌<◌, ◌≤◌, ◌≡◌, refl, sym, ap, arith, Bool-cases, Bool, true, false, leb, ◌==◌, if◌then◌else◌,
  bit_and, inl, inr, Option, some, none,
}
use mt8183_kukui_pmos.Uapi.{Errno}
use mt8183_kukui_pmos.Seninf.State.{Seninf, base, FrameFmt, num_pads, num_sensors, cam_mux_idx_min}
use mt8183_kukui_pmos.Seninf.Formats.{
  PadFlag, sink, source, seninf_set_fmt, seninf_link_setup, mtk_seninf_notifier_bound,
}
use mt8183_kukui_pmos.Seninf.Pattern.{seninf_set_ctrl, seninf_enable_test_pattern}
use mt8183_kukui_pmos.Seninf.Registers.{seninf1_mux_intsta}
use mt8183_kukui_pmos.Seninf.Power.{seninf_s_stream, mtk_seninf_power_on}
use mt8183_kukui_pmos.Seninf.Ports.{PortOf, PortOf-total, PortOf-mtk_seninf_csi_port_to_seninf}
use mt8183_kukui_pmos.Seninf.Streaming.{powered, power_on-powered}
use mt8183_kukui_pmos.Seninf.Stopping.{stopped, power_off-stopped}

-- The pads of the entity: sinks first.
abbrev pub IsPad : PadFlag → ℕ → Type 0
IsPad sink index = index < num_sensors
IsPad source index = (cam_mux_idx_min ≤ index) × (index < num_pads)

-- A port and a multiplexer that the hardware has.
pub record IsReady (s : Seninf) : Type 0 where
  pub port : s.port < num_sensors
  pub mux_sel : s.mux_sel < 8

-- Links, formats, bound sensors, controls, starts and stops, in any order.
pub data Reaches : Seninf → Seninf → Type 0 where
  here : (s : Seninf) → Reaches s s
  link :
      (s t : Seninf) (flag : PadFlag) (index : ℕ) (enabled : Bool)
      → IsPad flag index
      → Reaches s t
      → Reaches s (seninf_link_setup flag index enabled t).0
  format :
      (s t : Seninf) (pad : ℕ) (request : FrameFmt)
      → Reaches s t
      → Reaches s (record t { fmt = (seninf_set_fmt pad request t.fmt).1 })
  bound :
      (s t : Seninf) (port lanes : ℕ) (answer : Option Errno)
      → Reaches s t
      → Reaches s (mtk_seninf_notifier_bound port lanes answer t).0
  control :
      (s t : Seninf) (test_pattern : Bool) (value : ℕ)
      → Reaches s t
      → Reaches s (seninf_set_ctrl test_pattern value t)
  stream :
      (s t u : Seninf) (on : Bool) (e answer : Option Errno)
      → Reaches s t
      → seninf_s_stream on e t ≡ some (u, answer)
      → Reaches s u

seninf_link_setup-IsReady :
    (t : Seninf) (flag : PadFlag) (index : ℕ) (enabled : Bool)
    → IsPad flag index
    → IsReady t
    → IsReady (seninf_link_setup flag index enabled t).0
unfolding seninf_link_setup
seninf_link_setup-IsReady t sink index true h k =
    let inside : leb num_sensors index ≡ false = ground arith in
    rw inside (record { port = h; mux_sel = k.mux_sel })
seninf_link_setup-IsReady t sink index false h k = k
seninf_link_setup-IsReady t source index true h k =
    let (low, high) = h in record { port = k.port; mux_sel = omega arith }
seninf_link_setup-IsReady t source index false h k = k

seninf_set_ctrl-IsReady :
    (t : Seninf) (test_pattern : Bool) (value : ℕ)
    → IsReady t
    → IsReady (seninf_set_ctrl test_pattern value t)
unfolding seninf_set_ctrl seninf_enable_test_pattern
seninf_set_ctrl-IsReady t false value h = h
seninf_set_ctrl-IsReady t true value h = elim (Bool-cases (value == 0)) [
  | inl yes' ↦ rw yes' (record { port = h.port; mux_sel = h.mux_sel })
  | inr no' ↦ rw no' (elim (Bool-cases (value == 1)) [
    | inr none' ↦ rw none' h
    | inl one ↦ rw one (elim (Bool-cases (bit_and (t.regs (base seninf1_mux_intsta)) 0x1 == 0)) [
      | inl idle ↦ rw idle h
      | inr overrun ↦ rw overrun (record { port = h.port; mux_sel = h.mux_sel })
    ])
  ])
]

power_on_refused :
    (t : Seninf) (n r : ℕ) (e : Errno)
    → PortOf t.port n r
    → seninf_s_stream true (some e) t ≡ some (t, some e)
unfolding seninf_s_stream mtk_seninf_power_on
power_on_refused t n r e p =
    rw (PortOf-mtk_seninf_csi_port_to_seninf t.port n r p, mtk_seninf_power_on)

-- A ready interface starts and stops, whatever power management answers.
seninf_s_stream-IsReady :
    (t : Seninf) (on : Bool) (e : Option Errno)
    → IsReady t
    → (u : Seninf) × (seninf_s_stream on e t ≡ some (u, if on then e else none))
      × (u.port ≡ t.port)
      × (u.mux_sel ≡ t.mux_sel)
seninf_s_stream-IsReady t true none h =
    let (n, r, p) = PortOf-total t.port h.port in
    (powered t n r, power_on-powered t n r p, refl, refl)
seninf_s_stream-IsReady t true (some e) h =
    let (n, r, p) = PortOf-total t.port h.port in (t, power_on_refused t n r e p, refl, refl)
seninf_s_stream-IsReady t false e h =
    let (n, r, p) = PortOf-total t.port h.port in
    (stopped t n r, power_off-stopped t e n r p, refl, refl)

Reaches-IsReady : (s t : Seninf) → IsReady s → Reaches s t → IsReady t
unfolding mtk_seninf_notifier_bound
Reaches-IsReady s t h (here _) = h
Reaches-IsReady s t h (link _ v flag index enabled pad path) =
    seninf_link_setup-IsReady v flag index enabled pad (Reaches-IsReady s v h path)
Reaches-IsReady s t h (format _ v pad request path) =
    let k = Reaches-IsReady s v h path in record { port = k.port; mux_sel = k.mux_sel }
Reaches-IsReady s t h (bound _ v port lanes answer path) =
    let k = Reaches-IsReady s v h path in record { port = k.port; mux_sel = k.mux_sel }
Reaches-IsReady s t h (control _ v test_pattern value path) =
    seninf_set_ctrl-IsReady v test_pattern value (Reaches-IsReady s v h path)
Reaches-IsReady s t h (stream _ v u on e answer path runs) =
    let k = Reaches-IsReady s v h path in
    let (w, runs_w, port, mux) = seninf_s_stream-IsReady v on e k in
    let same : w ≡ u = cc in
    let port_same : u.port ≡ w.port = ap (λ x. x.port) (sym same) in
    let mux_same : u.mux_sel ≡ w.mux_sel = ap (λ x. x.mux_sel) (sym same) in
    let in_range = k.port in
    let selected = k.mux_sel in record { port = omega arith; mux_sel = omega arith }

-- Whatever links, formats, sensors, controls, starts and stops came before, in any order, from a state with a
-- port and a multiplexer that exist: the state reached has such a port and multiplexer too, so a
-- start and a stop find their interface and their receiver, and a start fails only with the error of
-- power management.
pub Reaches-seninf_s_stream :
    (s t : Seninf) (on : Bool) (e : Option Errno)
    → IsReady s
    → Reaches s t
    → IsReady t × ((u : Seninf) × (seninf_s_stream on e t ≡ some (u, if on then e else none)))
Reaches-seninf_s_stream s t on e ready path =
    let h = Reaches-IsReady s t ready path in
    let (u, runs, _, _) = seninf_s_stream-IsReady t on e h in (h, (u, runs))
