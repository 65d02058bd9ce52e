-- ===== src/Graph/Inited.antt =====
-- What the start of the device in camera/driver/cam/mtk_cam.c holds, and what is left of it.
use mt8183_kukui_pmos.Prelude.{
  ℕ, ◌+◌, ◌<◌, ◌≡◌, ◌⊎◌, refl, subst, ap, ◌∙◌, arith, Option-cases, true, false, inl, inr, Option,
  some, none, List, [], ◌∷◌,
}
use mt8183_kukui_pmos.Uapi.{Errno}
use mt8183_kukui_pmos.Format.Nodes.{total_nodes}
use mt8183_kukui_pmos.Graph.Register.{Graph, mtk_cam_v4l2_register, mtk_cam_v4l2_unregister}
use mt8183_kukui_pmos.Graph.Registered.{
  IsIdle, IsHeld, nothing_held, unregister_nodes-IsIdle, mtk_cam_v4l2_register-IsHeld,
}
use mt8183_kukui_pmos.Graph.Notifier.{
  Notifier, NotifierAnswers, add_endpoints, mtk_cam_v4l2_async_register, Device, InitAnswers,
  mtk_cam_dev_init, mtk_cam_v4l2_async_unregister, mtk_cam_dev_cleanup,
}

-- The first endpoint's error, and how many endpoints stand before it.
abbrev pub refused : List (Option Errno) → Option Errno
refused [] = none
refused (some e ∷ rest) = some e
refused (none ∷ rest) = refused rest

abbrev pub accepted : List (Option Errno) → ℕ
accepted [] = 0
accepted (some e ∷ rest) = 0
accepted (none ∷ rest) = accepted rest + 1

add_endpoints_lem :
    (es : List (Option Errno)) (n : Notifier)
    → add_endpoints es n
      ≡ (record n { connections = n.connections + accepted es; fwnode = false }, refused es)
unfolding add_endpoints
add_endpoints_lem [] n = let e : n.connections + 0 ≡ n.connections = omega arith in rw e refl
add_endpoints_lem (some error ∷ rest) n =
    let e : n.connections + 0 ≡ n.connections = omega arith in rw e refl
add_endpoints_lem (none ∷ rest) n =
    let next : Notifier = record n { connections = n.connections + 1; fwnode = true } in
    let e : n.connections + 1 + accepted rest ≡ n.connections + (accepted rest + 1) = omega arith in
    rw (add_endpoints_lem rest next, e) refl

abbrev pub no_notifier : Notifier
no_notifier = record { connections = 0; registered = false; fwnode = false }

-- What the notifier holds behind the result of its registration. The connections of a device tree
-- with an endpoint that is refused are those before it.
abbrev pub IsWaiting : NotifierAnswers → Option Errno → Notifier → Type 0
IsWaiting a none n =
    (n.registered ≡ true) × ((n.fwnode ≡ false) × (n.connections ≡ accepted a.endpoints))
IsWaiting a (some e) n =
    (n.registered ≡ false)
    × ((n.fwnode ≡ false)
        × ((n.connections ≡ 0)
            ⊎ ((refused a.endpoints ≡ some e) × (n.connections ≡ accepted a.endpoints))))

mtk_cam_v4l2_async_register-IsWaiting :
    (a : NotifierAnswers)
    → (let (after, answer) = mtk_cam_v4l2_async_register a no_notifier in IsWaiting a answer after)
unfolding mtk_cam_v4l2_async_register
mtk_cam_v4l2_async_register-IsWaiting a =
    let zero_add : 0 + accepted a.endpoints ≡ accepted a.endpoints = omega arith in
    let added : Notifier = record {
      connections = 0 + accepted a.endpoints;
      registered = false;
      fwnode = false;
    } in
    let call = add_endpoints_lem a.endpoints no_notifier in
    elim (Option-cases (refused a.endpoints)) [
      | inr (e, f) ↦
          let stopped : add_endpoints a.endpoints no_notifier ≡ (added, some e) =
            call ∙ ap (λ x. (added, x)) f in
          rw (stopped, mtk_cam_v4l2_async_register, stopped) (refl, (refl, inr (f, zero_add)))
      | inl f ↦
          let whole : add_endpoints a.endpoints no_notifier ≡ (added, none) =
            call ∙ ap (λ x. (added, x)) f in
          elim (Option-cases a.nf_register) [
            | inr (e, f1) ↦
                rw (whole, f1, mtk_cam_v4l2_async_register, whole) (refl, (refl, inl refl))
            | inl f1 ↦ rw (whole, f1, mtk_cam_v4l2_async_register, whole) (refl, (refl, zero_add))
          ]
    ]

-- The media device, the V4L2 device, the subdevice and a node's pad, lock and device are given back.
abbrev pub IsReleased : ℕ → Graph → Type 0
IsReleased k g = (g.media ≡ false) × ((g.v4l2 ≡ false) × ((g.subdev ≡ false) × IsIdle (g.node k)))

abbrev pub no_device : Device
no_device = record { op_lock = false; graph = nothing_held; notifier = no_notifier }

abbrev pub IsInited : InitAnswers → ℕ → Option Errno → Device → Type 0
IsInited a k none d =
    (d.op_lock ≡ true)
    × (IsHeld a.graph.v4l2_register k none d.graph × IsWaiting a.notifier none d.notifier)
IsInited a k (some e) d =
    IsHeld a.graph.v4l2_register k (some e) d.graph
    × ((d.notifier ≡ no_notifier) ⊎ IsWaiting a.notifier (some e) d.notifier)

-- Starting the common part of the device where nothing is held, for any answers of the kernel.
pub mtk_cam_dev_init-IsInited :
    (a : InitAnswers) (k : ℕ)
    → k < total_nodes
    → (let (after, answer) = mtk_cam_dev_init a no_device in IsInited a k answer after)
unfolding mtk_cam_dev_init
mtk_cam_dev_init-IsInited a k h =
    let call = mtk_cam_v4l2_register a.graph nothing_held in
    let graph = mtk_cam_v4l2_register-IsHeld a.graph k h in
    let notifier = mtk_cam_v4l2_async_register-IsWaiting a.notifier in
    elim (Option-cases call.1) [
      | inr (e, f) ↦
          let off : IsHeld a.graph.v4l2_register k (some e) call.0 =
            subst (λ x. IsHeld a.graph.v4l2_register k x call.0) f graph.0 in
          rw (f, mtk_cam_dev_init) (off, inl refl)
      | inl f ↦
          let held : IsHeld a.graph.v4l2_register k none call.0 =
            subst (λ x. IsHeld a.graph.v4l2_register k x call.0) f graph.0 in
          let asked = mtk_cam_v4l2_async_register a.notifier no_notifier in
          elim (Option-cases asked.1) [
            | inr (e, f1) ↦
                let waiting : IsWaiting a.notifier (some e) asked.0 =
                  subst (λ x. IsWaiting a.notifier x asked.0) f1 notifier in
                rw (f, f1, mtk_cam_dev_init)
                  ((graph.1.0, (inl graph.1.1.0, graph.1.1.1)), inr waiting)
            | inl f1 ↦
                let waiting : IsWaiting a.notifier none asked.0 =
                  subst (λ x. IsWaiting a.notifier x asked.0) f1 notifier in
                rw (f, f1, mtk_cam_dev_init) (refl, (held, waiting))
          ]
    ]

-- Nothing of the device is left that its end gives back.
abbrev pub IsClean : ℕ → Device → Type 0
IsClean k d =
    (d.op_lock ≡ false)
    × ((d.graph.entity ≡ false)
        × (IsReleased k d.graph × ((d.notifier.registered ≡ false) × (d.notifier.connections ≡ 0))))

pub mtk_cam_dev_cleanup-IsClean :
    (d : Device) (k : ℕ) → k < total_nodes → IsClean k (mtk_cam_dev_cleanup d)
unfolding mtk_cam_dev_cleanup mtk_cam_v4l2_async_unregister mtk_cam_v4l2_unregister
mtk_cam_dev_cleanup-IsClean d k h =
    let idle = unregister_nodes-IsIdle total_nodes k d.graph.node (inl h) in
    (refl, (refl, ((refl, (refl, (refl, idle))), (refl, refl))))
