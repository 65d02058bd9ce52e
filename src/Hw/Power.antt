-- ===== src/Hw/Power.antt =====
-- camera/driver/cam/mtk_cam-hw.c: suspending and resuming the device. The power management of the
-- kernel is an argument: what `pm_runtime_suspended` answers, and what `pm_runtime_force_suspend`
-- and `pm_runtime_force_resume` do to the device and answer.
use mt8183_kukui_pmos.Prelude.{
  ℕ, ◌+◌, ◌-◌, ◌^◌, bit_and, bit_or, if◌then◌else◌, Bool, Option, some, none,
}
use mt8183_kukui_pmos.Uapi.{Errno}

-- The two registers of the timing generator, 32 bits wide, and how often the clocks are enabled.
pub record Tg : Type 0 where
  pub vf_con : ℕ
  pub sen_mode : ℕ
  pub clocks : ℕ

abbrev pub tg_vf_con_vfdata_en : ℕ
tg_vf_con_vfdata_en = 1

abbrev pub tg_sen_mode_cmos_en : ℕ
tg_sen_mode_cmos_en = 1

-- `val & (~mask)` of a `u32`
abbrev pub mask_off : ℕ → ℕ → ℕ
mask_off mask val = bit_and val (2 ^ 32 - 1 - mask)

-- The device when `pm_runtime_force_suspend` is called. The wait for TG_IDLE_ST between the two
-- writes reads only, and what it answers is not looked at.
unfoldable pub quiesce : Tg → Tg
quiesce t =
    let vf_off = record t { vf_con = mask_off tg_vf_con_vfdata_en t.vf_con } in
    record vf_off { sen_mode = mask_off tg_sen_mode_cmos_en vf_off.sen_mode }

-- `reenable_hw`, and the end of `mtk_isp_pm_resume`.
unfoldable pub reenable_hw : Tg → Tg
reenable_hw t =
    let cmos_on = record t { sen_mode = bit_or t.sen_mode tg_sen_mode_cmos_en } in
    record cmos_on { vf_con = bit_or cmos_on.vf_con tg_vf_con_vfdata_en }

-- A call of the kernel's power management on the device.
abbrev pub PmCall : Type 0
PmCall = Tg → Tg × Option Errno

unfoldable pub mtk_isp_pm_suspend : Bool → PmCall → Tg → Tg × Option Errno
mtk_isp_pm_suspend is_suspended force_suspend t =
    if is_suspended
    then (t, none)
    else let (idle, ret) = force_suspend (quiesce t) in
      elim ret [ some e ↦ (reenable_hw idle, some e) | none ↦ (idle, none) ]

unfoldable pub mtk_isp_pm_resume : Bool → PmCall → Tg → Tg × Option Errno
mtk_isp_pm_resume is_suspended force_resume t =
    if is_suspended
    then (t, none)
    else let (woken, ret) = force_resume t in
      elim ret [ some e ↦ (woken, some e) | none ↦ (reenable_hw woken, none) ]

unfoldable pub mtk_isp_runtime_suspend : PmCall
mtk_isp_runtime_suspend t = (record t { clocks = t.clocks - 1 }, none)

-- With the answer of `clk_bulk_prepare_enable`.
unfoldable pub mtk_isp_runtime_resume : Option Errno → PmCall
mtk_isp_runtime_resume clk t = elim clk [
  | some e ↦ (t, some e)
  | none ↦ (record t { clocks = t.clocks + 1 }, none)
]
