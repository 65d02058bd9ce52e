-- ===== src/Hw/Probe.antt =====
-- camera/driver/cam/mtk_cam-hw.c: the memory that the coprocessor and the ISP share, the probe of the
-- device and its removal.
use mt8183_kukui_pmos.Prelude.{ℕ, ◌==◌, if◌then◌else◌, Bool, true, false, not, Option, some, none}
use mt8183_kukui_pmos.Uapi.{Errno, enodev, enomem, Result, ok, err}
use mt8183_kukui_pmos.Graph.Notifier.{Device, InitAnswers, mtk_cam_dev_init, mtk_cam_dev_cleanup}

-- What the device holds of the kernel: its interrupt and its clocks, which the driver core takes
-- back from a device that is not probed, the coprocessor, the composer's memory with its address
-- for the coprocessor, the mapping of that memory for the ISP with its address, and run-time power
-- management.
pub record P1Device : Type 0 where
  pub irq : Bool
  pub clks : Bool
  pub scp : Bool
  pub composer_mem : Bool
  pub composer_scp_addr : ℕ
  pub iova_mapped : Bool
  pub composer_iova : ℕ
  pub autosuspend : Bool
  pub pm_enabled : Bool
  pub cam_dev : Device

-- The answers of the kernel. `platform_get_irq` gives a number or an error, which is a negative
-- number; `request_irq` answers for what it gave.
pub record ProbeAnswers : Type 0 where
  pub kzalloc : Bool
  pub ioremap : Option Errno
  pub platform_get_irq : Result ℕ
  pub request_irq : Option Errno
  pub kcalloc : Bool
  pub clk_get : Option Errno
  pub scp_get : Bool
  pub dma_alloc : Option ℕ
  pub dma_map : Option ℕ
  pub cam_dev : InitAnswers

abbrev pub fail_put_scp : P1Device → P1Device
fail_put_scp p = record p { scp = false }

abbrev pub fail_free_mem : P1Device → P1Device
fail_free_mem p = fail_put_scp (record p { composer_mem = false; composer_scp_addr = 0 })

unfoldable pub isp_setup_scp_rproc : ProbeAnswers → P1Device → P1Device × Option Errno
isp_setup_scp_rproc a p = if not a.scp_get then (p, some enodev) else elim a.dma_alloc [
  | none ↦ (fail_put_scp (record p { scp = true }), some enomem)
  | some addr ↦
      let shared = record p { scp = true; composer_mem = true; composer_scp_addr = addr } in
      elim a.dma_map [
        | none ↦ (fail_free_mem shared, some enomem)
        | some iova ↦ (record shared { iova_mapped = true; composer_iova = iova }, none)
      ]
]

unfoldable pub isp_teardown_scp_rproc : P1Device → P1Device
isp_teardown_scp_rproc p = record p { composer_mem = false; composer_scp_addr = 0; scp = false }

-- `!irq`: an error is not 0.
abbrev pub is_no_irq : Result ℕ → Bool
is_no_irq (ok n) = n == 0
is_no_irq (err e) = false

-- The end of `mtk_isp_probe`, from the shared memory on.
unfoldable pub probe_scp : ProbeAnswers → P1Device → P1Device × Option Errno
probe_scp a p =
    let (shared, ret) = isp_setup_scp_rproc a p in
    elim ret [
      | some e ↦ (shared, some e)
      | none ↦
          let (cam, ret2) = mtk_cam_dev_init a.cam_dev shared.cam_dev in
          let reached = record shared { autosuspend = true; pm_enabled = true; cam_dev = cam } in
          elim ret2 [ some e ↦ (isp_teardown_scp_rproc reached, some e) | none ↦ (reached, none) ]
    ]

-- The middle of `mtk_isp_probe`: the interrupt and the clocks.
unfoldable pub probe_irq : ProbeAnswers → P1Device → P1Device × Option Errno
probe_irq a p = if is_no_irq a.platform_get_irq then (p, some enodev) else elim a.request_irq [
  | some e ↦ (p, some e)
  | none ↦
      let requested = record p { irq = true } in
      if not a.kcalloc then (requested, some enomem) else elim a.clk_get [
        | some e ↦ (requested, some e)
        | none ↦ probe_scp a (record requested { clks = true })
      ]
]

unfoldable pub mtk_isp_probe : ProbeAnswers → P1Device → P1Device × Option Errno
mtk_isp_probe a p =
    if not a.kzalloc
    then (p, some enomem)
    else elim a.ioremap [ some e ↦ (p, some e) | none ↦ probe_irq a p ]

-- Of a device whose probe answered 0: each call gives back what is held. After a probe that failed the
-- kernel does not call it.
unfoldable pub mtk_isp_remove : P1Device → P1Device
mtk_isp_remove p =
    let stopped = record p {
      cam_dev = mtk_cam_dev_cleanup p.cam_dev;
      autosuspend = false;
      pm_enabled = false;
      iova_mapped = false;
    } in
    isp_teardown_scp_rproc stopped
