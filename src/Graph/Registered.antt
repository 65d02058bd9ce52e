-- ===== src/Graph/Registered.antt =====
-- What the registration of camera/driver/cam/mtk_cam.c holds, and what is left of it.
use mt8183_kukui_pmos.Prelude.{
  ℕ, zero, suc, ◌+◌, ◌<◌, ◌≤◌, ◌≡◌, ◌⊎◌, refl, subst, arith, ltb, ◌==◌, Bool-cases, Option-cases,
  true, false, inl, inr, Option, some, none,
}
use mt8183_kukui_pmos.Uapi.{Errno, enomem}
use mt8183_kukui_pmos.Format.Nodes.{total_nodes}
use mt8183_kukui_pmos.Graph.Register.{
  NodeHeld, NodeAnswers, mtk_cam_video_register_device, mtk_cam_video_unregister_device, set_node,
  register_nodes, unregister_nodes, Graph, GraphAnswers, mtk_cam_media_register,
  register_subdev_nodes, mtk_cam_v4l2_register, mtk_cam_v4l2_unregister,
}

abbrev pub IsIdle : NodeHeld → Type 0
IsIdle h = (h.pad ≡ false) × (h.lock ≡ false) × (h.vdev ≡ false)

abbrev pub IsUp : NodeHeld → Type 0
IsUp h = (h.pad ≡ true) × (h.queue ≡ true) × (h.lock ≡ true) × (h.vdev ≡ true)

abbrev IsNode : Option Errno → NodeHeld → Type 0
IsNode none h = IsUp h
IsNode (some e) h = IsIdle h

mtk_cam_video_register_device-IsNode :
    (a : NodeAnswers) (h : NodeHeld)
    → IsIdle h
    → (let (new, answer) = mtk_cam_video_register_device a h in IsNode answer new)
unfolding mtk_cam_video_register_device
mtk_cam_video_register_device-IsNode a h (no_pad, no_lock, no_vdev) =
    elim (Option-cases a.pads_init) [
      | inr (e, f) ↦ rw f (no_pad, no_lock, no_vdev)
      | inl f ↦ rw f (elim (Option-cases a.queue_init) [
        | inr (e, f2) ↦ rw f2 (refl, no_lock, no_vdev)
        | inl f2 ↦ rw f2 (elim (Option-cases a.register_device) [
          | inr (e, f3) ↦ rw f3 (refl, refl, no_vdev)
          | inl f3 ↦ rw f3 (elim (Option-cases a.create_link) [
            | inr (e, f4) ↦ rw f4 (refl, refl, refl)
            | inl f4 ↦ rw f4 (refl, refl, refl, refl)
          ])
        ])
      ])
    ]

-- A node when the loop stops before `j`.
abbrev IsReached : ℕ → ℕ → Option Errno → (ℕ → NodeHeld) → Type 0
IsReached k j none node = IsUp (node k)
IsReached k j (some e) node = (k < j) ⊎ IsIdle (node k)

register_nodes-IsReached :
    (a : ℕ → NodeAnswers) (rounds i k : ℕ) (node : ℕ → NodeHeld)
    → k < i + rounds
    → ((j : ℕ) → i ≤ j → IsIdle (node j))
    → (i ≤ k) ⊎ IsUp (node k)
    → (let (after, (j, answer)) = register_nodes a rounds i node in IsReached k j answer after)
unfolding register_nodes
register_nodes-IsReached a zero i k node l idle h = elim h [
  | inl past ↦ absurd (omega arith)
  | inr up ↦ up
]
register_nodes-IsReached a (suc r) i k node l idle h =
    let new = (mtk_cam_video_register_device (a i) (node i)).0 in
    let next = set_node i new node in
    let state = mtk_cam_video_register_device-IsNode (a i) (node i) (idle i (omega arith)) in
    let later : (j : ℕ) → i + 1 ≤ j → IsIdle (next j) =
      λ j. λ m. let other : (j == i) ≡ false = ground arith in rw other (idle j (omega arith)) in
    elim (Option-cases (mtk_cam_video_register_device (a i) (node i)).1) [
      | inr (e, failed) ↦
          let down : IsIdle new = subst (λ x. IsNode x new) failed state in
          rw (failed, register_nodes)
            (elim (Bool-cases (ltb k i)) [
              | inl before ↦ inl (ground arith)
              | inr behind ↦ elim (Bool-cases (k == i)) [
                | inl here ↦ inr (rw here down)
                | inr there ↦ inr (later k (ground arith))
              ]
            ])
      | inl fine ↦
          let up : IsUp new = subst (λ x. IsNode x new) fine state in
          let below : (i + 1 ≤ k) ⊎ IsUp (next k) = elim (Bool-cases (k == i)) [
            | inl here ↦ inr (rw here up)
            | inr there ↦ elim h [ inl past ↦ inl (ground arith) | inr done ↦ inr (rw there done) ]
          ] in
          rw (fine, register_nodes)
            (register_nodes-IsReached a r (i + 1) k next (omega arith) later below)
    ]

pub unregister_nodes-IsIdle :
    (i k : ℕ) (node : ℕ → NodeHeld) → (k < i) ⊎ IsIdle (node k) → IsIdle (unregister_nodes i node k)
unfolding unregister_nodes mtk_cam_video_unregister_device
unregister_nodes-IsIdle zero k node (inl h) = absurd (omega arith)
unregister_nodes-IsIdle zero k node (inr h) = h
unregister_nodes-IsIdle (suc i) k node h =
    let next = set_node i (mtk_cam_video_unregister_device (node i)) node in
    elim (Bool-cases (k == i)) [
      | inl here ↦ unregister_nodes-IsIdle i k next (inr (rw here (refl, refl, refl)))
      | inr there ↦ elim h [
        | inl before ↦ unregister_nodes-IsIdle i k next (inl (ground arith))
        | inr idle ↦ unregister_nodes-IsIdle i k next (inr (rw there idle))
      ]
    ]

-- What is held behind the result of the registration, for one node; `v` is the answer for the V4L2
-- device.
abbrev pub IsHeld : Option Errno → ℕ → Option Errno → Graph → Type 0
IsHeld v k none g =
    (g.media ≡ true)
    × ((g.entity ≡ true) × ((g.v4l2 ≡ true) × ((g.subdev ≡ true) × IsUp (g.node k))))
IsHeld v k (some e) g =
    (g.media ≡ false)
    × (((g.entity ≡ false) ⊎ (v ≡ some e))
        × ((g.v4l2 ≡ false) × ((g.subdev ≡ false) × IsIdle (g.node k))))

abbrev pub nothing_held : Graph
nothing_held = record {
  media = false;
  entity = false;
  v4l2 = false;
  finalized = false;
  subdev = false;
  node = λ k. record { pad = false; queue = false; lock = false; vdev = false };
}

register_subdev_nodes-IsHeld :
    (a : GraphAnswers) (v : Option Errno) (k : ℕ)
    → k < total_nodes
    → (let g = record nothing_held { media = true; entity = true; v4l2 = true } in
        let (after, answer) = register_subdev_nodes a g in IsHeld v k answer after)
unfolding register_subdev_nodes
register_subdev_nodes-IsHeld a v k h =
    let idle : IsIdle (nothing_held.node k) = (refl, refl, refl) in
    let loop = register_nodes a.nodes total_nodes 0 nothing_held.node in
    let reached : IsReached k loop.1.0 loop.1.1 loop.0 =
      register_nodes-IsReached a.nodes total_nodes 0 k nothing_held.node (omega arith)
        (λ j. λ l. (refl, refl, refl)) (inl (omega arith)) in
    elim (Option-cases a.init_finalize) [
      | inr (e, f) ↦ rw f (refl, (inl refl, (refl, (refl, idle))))
      | inl f ↦ rw f (elim (Option-cases a.register_subdev) [
        | inr (e, f1) ↦ rw f1 (refl, (inl refl, (refl, (refl, idle))))
        | inl f1 ↦ rw f1 (elim (Option-cases loop.1.1) [
          | inr (e, failed) ↦
              let state : (k < loop.1.0) ⊎ IsIdle (loop.0 k) =
                subst (λ x. IsReached k loop.1.0 x loop.0) failed reached in
              rw (failed, register_subdev_nodes)
                (refl, (inl refl, (refl, (refl, unregister_nodes-IsIdle loop.1.0 k loop.0 state))))
          | inl fine ↦
              let up : IsUp (loop.0 k) = subst (λ x. IsReached k loop.1.0 x loop.0) fine reached in
              rw (fine, register_subdev_nodes) (refl, (refl, (refl, (refl, up))))
        ])
      ])
    ]

media_cases :
    (a : GraphAnswers)
    → ((e : Errno) × (mtk_cam_media_register a nothing_held ≡ (nothing_held, some e)))
      ⊎ (mtk_cam_media_register a nothing_held
          ≡ (record nothing_held { media = true; entity = true }, none))
unfolding mtk_cam_media_register
media_cases a = elim (Option-cases a.media_register) [
  | inr (e, f) ↦ rw f (inl (e, refl))
  | inl f ↦ rw f (elim (Bool-cases a.kcalloc) [
    | inr f1 ↦ rw f1 (inl (enomem, refl))
    | inl f1 ↦ rw f1 (elim (Option-cases a.pads_init) [
      | inr (e, f2) ↦ rw f2 (inl (e, refl))
      | inl f2 ↦ rw f2 (inr refl)
    ])
  ])
]

-- Registering the camera where nothing is held, for any answers of the kernel, and unregistering it:
-- where the registration answers 0, the media device, its entity, the V4L2 device, the subdevice and
-- each of the seven video nodes are held; where it answers with an error, none of them is, and no
-- node keeps its pad, its lock or its device, except that the entity is left where the V4L2 device
-- gave that error. Unregistering leaves none of them.
pub mtk_cam_v4l2_register-IsHeld :
    (a : GraphAnswers) (k : ℕ)
    → k < total_nodes
    → (let (after, answer) = mtk_cam_v4l2_register a nothing_held in
        let gone = mtk_cam_v4l2_unregister after in
        IsHeld a.v4l2_register k answer after
        × ((gone.media ≡ false)
            × ((gone.entity ≡ false)
                × ((gone.v4l2 ≡ false) × ((gone.subdev ≡ false) × IsIdle (gone.node k))))))
unfolding mtk_cam_v4l2_register mtk_cam_v4l2_unregister
mtk_cam_v4l2_register-IsHeld a k h =
    let after = (mtk_cam_v4l2_register a nothing_held).0 in
    let held : IsHeld a.v4l2_register k (mtk_cam_v4l2_register a nothing_held).1 after =
      elim (media_cases a) [
        | inl (e, f) ↦
            rw (f, mtk_cam_v4l2_register)
              (rw f (refl, (inl refl, (refl, (refl, (refl, refl, refl))))))
        | inr f ↦
            rw (f, mtk_cam_v4l2_register)
              (elim (Option-cases a.v4l2_register) [
                | inr (e, f1) ↦ rw (f1, f) (refl, (inr refl, (refl, (refl, (refl, refl, refl)))))
                | inl f1 ↦ rw (f1, f) (register_subdev_nodes-IsHeld a none k h)
              ])
      ] in
    (held, (refl, (refl, (refl, (refl, unregister_nodes-IsIdle total_nodes k after.node (inl h))))))
