-- ===== src/Hw/Resumed.antt =====
-- What a sleep of the system does to the registers of camera/driver/cam/mtk_cam-hw.c.
use mt8183_kukui_pmos.Prelude.{
  ℕ, ◌+◌, ◌-◌, ◌*◌, ◌%◌, ◌/◌, ◌^◌, ◌<◌, ◌≡◌, refl, subst, ◌∙◌, arith, bit_and, bit_or,
  bit_and_digits, bit_or_digits, bit_and_fields, bit_or_zero_right, Option-cases, false, inl, inr,
  Option, some, none,
}
use mt8183_kukui_pmos.Uapi.{Errno}
use mt8183_kukui_pmos.Hw.Power.{
  Tg, mask_off, quiesce, reenable_hw, PmCall, mtk_isp_pm_suspend, mtk_isp_pm_resume,
  mtk_isp_runtime_suspend, mtk_isp_runtime_resume,
}

mask_off_lowest : (v : ℕ) → v < 2 ^ 32 → mask_off 1 v ≡ v - v % 2
mask_off_lowest v h =
    let half : bit_and (v / 2) (2 ^ 31 - 1) ≡ v / 2 =
      let spread : v / 2 + 0 * 2 ^ 31 ≡ v / 2 = omega arith in
      subst (λ x. bit_and x (2 ^ 31 - 1) ≡ v / 2) spread
        (bit_and_fields 31 (v / 2) 0 (omega arith)) in
    omega (arith, half, bit_and_digits v (2 ^ 32 - 2))

with_lowest : (v : ℕ) → bit_or v 1 ≡ v - v % 2 + 1
with_lowest v = omega (arith, bit_or_digits v 1, bit_or_zero_right (v / 2))

-- The registers with their enable bits, the lowest ones, cleared or set; the other bits as they were.
abbrev pub IsQuiet : Tg → Tg → Type 0
IsQuiet t u = (u.vf_con ≡ t.vf_con - t.vf_con % 2) × (u.sen_mode ≡ t.sen_mode - t.sen_mode % 2)

abbrev pub IsAwake : Tg → Tg → Type 0
IsAwake t u =
    (u.vf_con ≡ t.vf_con - t.vf_con % 2 + 1) × (u.sen_mode ≡ t.sen_mode - t.sen_mode % 2 + 1)

-- The power management itself writes neither register.
abbrev pub KeepsRegisters : PmCall → Type 0
KeepsRegisters call = (t : Tg) → ((call t).0.vf_con ≡ t.vf_con) × ((call t).0.sen_mode ≡ t.sen_mode)

abbrev pub IsWord : Tg → Type 0
IsWord t = (t.vf_con < 2 ^ 32) × (t.sen_mode < 2 ^ 32)

quiesce-IsQuiet : (t : Tg) → IsWord t → IsQuiet t (quiesce t)
unfolding quiesce
quiesce-IsQuiet t (h, h1) = (mask_off_lowest t.vf_con h, mask_off_lowest t.sen_mode h1)

reenable_hw-IsAwake : (t u : Tg) → IsQuiet t u → IsAwake t (reenable_hw u)
unfolding reenable_hw
reenable_hw-IsAwake t u (vf, sen) =
    (omega (arith, vf, with_lowest u.vf_con), omega (arith, sen, with_lowest u.sen_mode))

abbrev pub IsSuspended : Tg → Option Errno → Tg → Type 0
IsSuspended t none down = IsQuiet t down
IsSuspended t (some e) down = IsAwake t down

-- Suspending a device that is not suspended at run time, with registers of 32 bits and a power
-- management that writes neither of them: it answers what the power management answers; where that
-- is 0, the view finder and the sensor interface are off, and where it is an error, both are on,
-- also if they were off before. All other bits of the registers stay.
pub mtk_isp_pm_suspend-IsSuspended :
    (force_suspend : PmCall) (t : Tg)
    → KeepsRegisters force_suspend
    → IsWord t
    → (let (down, answer) = mtk_isp_pm_suspend false force_suspend t in
        (answer ≡ (force_suspend (quiesce t)).1) × IsSuspended t answer down)
unfolding mtk_isp_pm_suspend
mtk_isp_pm_suspend-IsSuspended force_suspend t keeps word =
    let call = force_suspend (quiesce t) in
    let (vf, sen) = quiesce-IsQuiet t word in
    let (kept, kept1) = keeps (quiesce t) in
    let quiet : IsQuiet t call.0 = (kept ∙ vf, kept1 ∙ sen) in
    elim (Option-cases call.1) [
      | inl fine ↦ rw (fine, mtk_isp_pm_suspend) (refl, quiet)
      | inr (e, failed) ↦ rw (failed, mtk_isp_pm_suspend) (refl, reenable_hw-IsAwake t call.0 quiet)
    ]

reenabled_clocks :
    (t : Tg)
    → 0 < t.clocks
    → (let up = (mtk_isp_runtime_resume none (mtk_isp_runtime_suspend (quiesce t)).0).0 in
        (reenable_hw up).clocks ≡ t.clocks)
unfolding mtk_isp_runtime_suspend mtk_isp_runtime_resume quiesce reenable_hw
reenabled_clocks t on = omega arith

-- Suspending and resuming a device whose clocks are on, through the driver's own run-time callbacks:
-- both answer 0, the clocks are as before, and the registers too, but for their enable bits, which
-- are set whether they were or not.
pub mtk_isp_pm_resume-mtk_isp_pm_suspend :
    (t : Tg)
    → IsWord t
    → 0 < t.clocks
    → (let (down, answer) = mtk_isp_pm_suspend false mtk_isp_runtime_suspend t in
        let (up, answer1) = mtk_isp_pm_resume false (mtk_isp_runtime_resume none) down in
        ((answer ≡ none) × (answer1 ≡ none)) × (IsAwake t up × (up.clocks ≡ t.clocks)))
unfolding mtk_isp_pm_suspend mtk_isp_pm_resume mtk_isp_runtime_suspend mtk_isp_runtime_resume
    quiesce
mtk_isp_pm_resume-mtk_isp_pm_suspend t word on =
    let up : Tg = (mtk_isp_runtime_resume none (mtk_isp_runtime_suspend (quiesce t)).0).0 in
    let awake = reenable_hw-IsAwake t up (quiesce-IsQuiet t word) in
    let clocks : (reenable_hw up).clocks ≡ t.clocks = reenabled_clocks t on in
    ((refl, refl), (awake, clocks))
