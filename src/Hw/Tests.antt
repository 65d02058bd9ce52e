-- ===== src/Hw/Tests.antt =====
-- Concrete runs of the device of camera/driver/cam/mtk_cam-hw.c.
use mt8183_kukui_pmos.Prelude.{◌≡◌, refl, arith, true, false, some, none, [], ◌∷◌}
use mt8183_kukui_pmos.Uapi.{ebusy, ok}
use mt8183_kukui_pmos.Graph.Register.{GraphAnswers}
use mt8183_kukui_pmos.Hw.Probe.{ProbeAnswers, mtk_isp_probe}
use mt8183_kukui_pmos.Hw.Probed.{not_probed, IsProbed, IsRemovedAfter, mtk_isp_probe-mtk_isp_remove}
use mt8183_kukui_pmos.Hw.Power.{
  Tg, mtk_isp_pm_suspend, mtk_isp_pm_resume, mtk_isp_runtime_suspend, mtk_isp_runtime_resume,
}
use mt8183_kukui_pmos.Hw.Resumed.{
  IsAwake, IsSuspended, mtk_isp_pm_suspend-IsSuspended, mtk_isp_pm_resume-mtk_isp_pm_suspend,
}

abbrev all_registered : GraphAnswers
all_registered = record {
  media_register = none;
  kcalloc = true;
  pads_init = none;
  v4l2_register = none;
  init_finalize = none;
  register_subdev = none;
  nodes = λ i. record {
    pads_init = none;
    queue_init = none;
    register_device = none;
    create_link = none;
  };
}

-- The second endpoint of the device tree is refused.
abbrev no_endpoint : ProbeAnswers
no_endpoint = record {
  kzalloc = true;
  ioremap = none;
  platform_get_irq = ok 17;
  request_irq = none;
  kcalloc = true;
  clk_get = none;
  scp_get = true;
  dma_alloc = some 0x50000000;
  dma_map = some 0x7fe00000;
  cam_dev = record {
    graph = all_registered;
    notifier = record { endpoints = none ∷ some ebusy ∷ []; nf_register = none };
  };
}

mtk_isp_probe-mtk_isp_remove_example :
    (let (after, answer) = mtk_isp_probe no_endpoint not_probed in
      IsProbed no_endpoint 6 answer after × IsRemovedAfter 6 answer after)
mtk_isp_probe-mtk_isp_remove_example = mtk_isp_probe-mtk_isp_remove no_endpoint 6 (omega arith)

abbrev streaming_tg : Tg
streaming_tg = record { vf_con = 0x1001; sen_mode = 0x20; clocks = 1 }

mtk_isp_pm_suspend-IsSuspended_example :
    (let (down, answer) = mtk_isp_pm_suspend false (λ t. (t, some ebusy)) streaming_tg in
      (answer ≡ some ebusy) × IsSuspended streaming_tg answer down)
mtk_isp_pm_suspend-IsSuspended_example =
    mtk_isp_pm_suspend-IsSuspended (λ t. (t, some ebusy)) streaming_tg (λ t. (refl, refl))
      (omega arith, omega arith)

mtk_isp_pm_resume-mtk_isp_pm_suspend_example :
    (let (down, answer) = mtk_isp_pm_suspend false mtk_isp_runtime_suspend streaming_tg in
      let (up, answer1) = mtk_isp_pm_resume false (mtk_isp_runtime_resume none) down in
      ((answer ≡ none) × (answer1 ≡ none)) × (IsAwake streaming_tg up × (up.clocks ≡ 1)))
mtk_isp_pm_resume-mtk_isp_pm_suspend_example =
    mtk_isp_pm_resume-mtk_isp_pm_suspend streaming_tg (omega arith, omega arith) (omega arith)
