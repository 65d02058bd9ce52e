-- ===== src/Hw/Probed.antt =====
-- What the probe of camera/driver/cam/mtk_cam-hw.c holds, and what it leaves where it fails.
use mt8183_kukui_pmos.Prelude.{
  ℕ, ◌<◌, ◌≡◌, ◌⊎◌, refl, subst, Bool-cases, Option-cases, true, false, inl, inr, Option, some,
  none,
}
use mt8183_kukui_pmos.Uapi.{Errno, enodev, enomem}
use mt8183_kukui_pmos.Format.Nodes.{total_nodes}
use mt8183_kukui_pmos.Graph.Registered.{IsHeld}
use mt8183_kukui_pmos.Graph.Notifier.{mtk_cam_dev_init}
use mt8183_kukui_pmos.Graph.Inited.{
  IsInited, no_device, mtk_cam_dev_init-IsInited, mtk_cam_dev_cleanup-IsClean, IsClean,
}
use mt8183_kukui_pmos.Hw.Probe.{
  P1Device, ProbeAnswers, isp_setup_scp_rproc, isp_teardown_scp_rproc, is_no_irq, probe_scp,
  probe_irq, mtk_isp_probe, mtk_isp_remove,
}

abbrev pub not_probed : P1Device
not_probed = record {
  irq = false;
  clks = false;
  scp = false;
  composer_mem = false;
  composer_scp_addr = 0;
  iova_mapped = false;
  composer_iova = 0;
  autosuspend = false;
  pm_enabled = false;
  cam_dev = no_device;
}

-- The coprocessor and the composer's memory, held with the addresses the kernel gave, or given back.
abbrev IsShared : ProbeAnswers → P1Device → Type 0
IsShared a p =
    (p.scp ≡ true)
    × ((p.composer_mem ≡ true)
        × ((p.iova_mapped ≡ true)
            × ((a.dma_alloc ≡ some p.composer_scp_addr) × (a.dma_map ≡ some p.composer_iova))))

abbrev IsUnshared : P1Device → Type 0
IsUnshared p = (p.scp ≡ false) × ((p.composer_mem ≡ false) × (p.composer_scp_addr ≡ 0))

-- The device behind the result of the probe. A device that is refused by its common part keeps the
-- mapping and the power management; one that is refused before has neither.
abbrev pub IsProbed : ProbeAnswers → ℕ → Option Errno → P1Device → Type 0
IsProbed a k none p =
    (p.irq ≡ true)
    × ((p.clks ≡ true)
        × ((p.pm_enabled ≡ true) × (IsShared a p × IsInited a.cam_dev k none p.cam_dev)))
IsProbed a k (some e) p =
    IsUnshared p
    × (IsHeld a.cam_dev.graph.v4l2_register k (some e) p.cam_dev.graph
        × (((p.iova_mapped ≡ false) × (p.pm_enabled ≡ false) × (p.cam_dev ≡ no_device))
            ⊎ ((p.iova_mapped ≡ true)
                × (p.pm_enabled ≡ true)
                × ((mtk_cam_dev_init a.cam_dev no_device).1 ≡ some e))))

-- A device with nothing but its interrupt and its clocks.
abbrev requested : P1Device
requested = record not_probed { irq = true; clks = true }

setup_cases :
    (a : ProbeAnswers)
    → ((e : Errno) × (isp_setup_scp_rproc a requested ≡ (requested, some e)))
      ⊎ ((addr : ℕ) × (iova : ℕ) × ((a.dma_alloc ≡ some addr)
            × ((a.dma_map ≡ some iova)
                × (isp_setup_scp_rproc a requested ≡ (
                  record requested {
                    scp = true;
                    composer_mem = true;
                    composer_scp_addr = addr;
                    iova_mapped = true;
                    composer_iova = iova;
                  },
                  none,
                )))))
unfolding isp_setup_scp_rproc
setup_cases a = elim (Bool-cases a.scp_get) [
  | inr absent ↦ rw absent (inl (enodev, refl))
  | inl here ↦ rw here (elim (Option-cases a.dma_alloc) [
    | inl full ↦ rw full (inl (enomem, refl))
    | inr (addr, f) ↦ rw f (elim (Option-cases a.dma_map) [
      | inl bad ↦ rw bad (inl (enomem, refl))
      | inr (iova, f1) ↦ rw f1 (inr (addr, iova, (refl, (refl, refl))))
    ])
  ])
]

probe_scp-IsProbed :
    (a : ProbeAnswers) (k : ℕ)
    → k < total_nodes
    → (let (after, answer) = probe_scp a requested in IsProbed a k answer after)
unfolding probe_scp isp_teardown_scp_rproc
probe_scp-IsProbed a k h =
    let off : (e : Errno) → IsHeld a.cam_dev.graph.v4l2_register k (some e) no_device.graph =
      λ e. (refl, (inl refl, (refl, (refl, (refl, refl, refl))))) in
    elim (setup_cases a) [
      | inl (e, f) ↦ rw (f, probe_scp, f) ((refl, (refl, refl)), (off e, inl (refl, refl, refl)))
      | inr (addr, iova, (alloc, (mapped, f))) ↦
          let call = mtk_cam_dev_init a.cam_dev no_device in
          let inited = mtk_cam_dev_init-IsInited a.cam_dev k h in
          elim (Option-cases call.1) [
            | inr (e, failed) ↦
                let state : IsInited a.cam_dev k (some e) call.0 =
                  subst (λ x. IsInited a.cam_dev k x call.0) failed inited in
                rw (f, probe_scp, f, failed, f)
                  ((refl, (refl, refl)), (state.0, inr (refl, refl, failed)))
            | inl fine ↦
                let state : IsInited a.cam_dev k none call.0 =
                  subst (λ x. IsInited a.cam_dev k x call.0) fine inited in
                rw (f, probe_scp, f, fine, f)
                  (refl, (refl, (refl, ((refl, (refl, (refl, (alloc, mapped)))), state))))
          ]
    ]

-- Nothing of the device is held but what the driver core takes back.
abbrev pub IsRemoved : ℕ → P1Device → Type 0
IsRemoved k p =
    IsUnshared p × ((p.iova_mapped ≡ false) × ((p.pm_enabled ≡ false) × IsClean k p.cam_dev))

mtk_isp_probe-IsProbed :
    (a : ProbeAnswers) (k : ℕ)
    → k < total_nodes
    → (let (after, answer) = mtk_isp_probe a not_probed in IsProbed a k answer after)
unfolding mtk_isp_probe probe_irq
mtk_isp_probe-IsProbed a k h =
    let off : (e : Errno) → IsHeld a.cam_dev.graph.v4l2_register k (some e) no_device.graph =
      λ e. (refl, (inl refl, (refl, (refl, (refl, refl, refl))))) in
    let gone : (e : Errno) → IsProbed a k (some e) not_probed =
      λ e. ((refl, (refl, refl)), (off e, inl (refl, refl, refl))) in
    elim (Bool-cases a.kzalloc) [
      | inr full ↦ rw full (gone enomem)
      | inl room ↦ rw room (elim (Option-cases a.ioremap) [
        | inr (e, f) ↦ rw f (gone e)
        | inl f ↦ rw f (elim (Bool-cases (is_no_irq a.platform_get_irq)) [
          | inl no_irq ↦ rw no_irq (gone enodev)
          | inr irq ↦ rw irq (elim (Option-cases a.request_irq) [
            | inr (e, f1) ↦ rw f1 (gone e)
            | inl f1 ↦ rw f1 (elim (Bool-cases a.kcalloc) [
              | inr full ↦ rw full (gone enomem)
              | inl room1 ↦ rw room1 (elim (Option-cases a.clk_get) [
                | inr (e, f2) ↦ rw f2 (gone e)
                | inl f2 ↦ rw f2 (probe_scp-IsProbed a k h)
              ])
            ])
          ])
        ])
      ])
    ]

mtk_isp_remove-IsRemoved :
    (p : P1Device) (k : ℕ)
    → k < total_nodes
    → (let gone = mtk_isp_remove p in
        IsUnshared gone
        × ((gone.iova_mapped ≡ false) × ((gone.pm_enabled ≡ false) × IsClean k gone.cam_dev)))
unfolding mtk_isp_remove isp_teardown_scp_rproc
mtk_isp_remove-IsRemoved p k h =
    ((refl, (refl, refl)), (refl, (refl, mtk_cam_dev_cleanup-IsClean p.cam_dev k h)))

-- A device that was probed is removed; one whose probe failed is not.
abbrev pub IsRemovedAfter : ℕ → Option Errno → P1Device → Type 0
IsRemovedAfter k none p = IsRemoved k (mtk_isp_remove p)
IsRemovedAfter k (some e) p = Unit

removed_after :
    (k : ℕ) (answer : Option Errno) (p : P1Device) → k < total_nodes → IsRemovedAfter k answer p
removed_after k none p h = mtk_isp_remove-IsRemoved p k h
removed_after k (some e) p h = tt

-- The probe of a device of which nothing is held, for any answers of the kernel. Where it answers 0,
-- the device holds its interrupt, its clocks, its power management, the coprocessor, the composer's
-- memory and its mapping, these two with the addresses that the kernel gave, and the whole media
-- graph, and removing it gives back all of that but the interrupt and the clocks. Where it answers with
-- an error, the coprocessor, its memory and the graph are given back, except for the graph's entity
-- where the V4L2 device gave that error; and the mapping and the power management are held exactly
-- where it was the common part of the device that failed.
pub mtk_isp_probe-mtk_isp_remove :
    (a : ProbeAnswers) (k : ℕ)
    → k < total_nodes
    → (let (after, answer) = mtk_isp_probe a not_probed in
        IsProbed a k answer after × IsRemovedAfter k answer after)
mtk_isp_probe-mtk_isp_remove a k h =
    let (after, answer) = mtk_isp_probe a not_probed in
    (mtk_isp_probe-IsProbed a k h, removed_after k answer after h)
