-- ===== src/Graph/Notifier.antt =====
-- camera/driver/cam/mtk_cam.c: the asynchronous notifier that waits for the sensor interface, and
-- the start and the end of the common part of the device, `mtk_cam_dev_init` and
-- `mtk_cam_dev_cleanup`.
use mt8183_kukui_pmos.Prelude.{ℕ, ◌+◌, Bool, true, false, Option, some, none, List, [], ◌∷◌}
use mt8183_kukui_pmos.Uapi.{Errno}
use mt8183_kukui_pmos.Graph.Register.{
  Graph, GraphAnswers, mtk_cam_v4l2_register, mtk_cam_v4l2_unregister,
}

-- The notifier: how many connections it owns, whether it is registered, and whether the loop over
-- the endpoints still holds a reference to one.
pub record Notifier : Type 0 where
  pub connections : ℕ
  pub registered : Bool
  pub fwnode : Bool

-- The answers of `v4l2_async_nf_add_fwnode_remote` for the endpoints of the device tree, in order,
-- and of `v4l2_async_nf_register`.
pub record NotifierAnswers : Type 0 where
  pub endpoints : List (Option Errno)
  pub nf_register : Option Errno

abbrev pub v4l2_async_nf_cleanup : Notifier → Notifier
v4l2_async_nf_cleanup n = record n { connections = 0 }

-- The loop over the endpoints: the iterator puts the endpoint it leaves, the code that of a `break`.
unfoldable pub add_endpoints : List (Option Errno) → Notifier → Notifier × Option Errno
add_endpoints [] n = (record n { fwnode = false }, none)
add_endpoints (some e ∷ rest) n = (record n { fwnode = false }, some e)
add_endpoints (none ∷ rest) n =
    add_endpoints rest (record n { connections = n.connections + 1; fwnode = true })

unfoldable pub mtk_cam_v4l2_async_register : NotifierAnswers → Notifier → Notifier × Option Errno
mtk_cam_v4l2_async_register a n =
    let (added, ret) = add_endpoints a.endpoints (v4l2_async_nf_cleanup n) in
    elim ret [
      | some e ↦ (added, some e)
      | none ↦ elim a.nf_register [
        | some e ↦ (v4l2_async_nf_cleanup added, some e)
        | none ↦ (record added { registered = true }, none)
      ]
    ]

unfoldable pub mtk_cam_v4l2_async_unregister : Notifier → Notifier
mtk_cam_v4l2_async_unregister n = v4l2_async_nf_cleanup (record n { registered = false })

-- `struct mtk_cam_dev`, as far as its start and its end hold something of the kernel.
pub record Device : Type 0 where
  pub op_lock : Bool
  pub graph : Graph
  pub notifier : Notifier

pub record InitAnswers : Type 0 where
  pub graph : GraphAnswers
  pub notifier : NotifierAnswers

-- The locks that are spin locks, the empty lists and the descriptors of the nodes hold nothing.
unfoldable pub mtk_cam_dev_init : InitAnswers → Device → Device × Option Errno
mtk_cam_dev_init a d =
    let (graph, ret) = mtk_cam_v4l2_register a.graph d.graph in
    let locked = record d { op_lock = true; graph = graph } in
    elim ret [
      | some e ↦ (locked, some e)
      | none ↦
          let (notifier, ret2) = mtk_cam_v4l2_async_register a.notifier d.notifier in
          let waiting = record locked { notifier = notifier } in
          elim ret2 [
            | some e ↦
                (record waiting { op_lock = false; graph = mtk_cam_v4l2_unregister graph }, some e)
            | none ↦ (waiting, none)
          ]
    ]

unfoldable pub mtk_cam_dev_cleanup : Device → Device
mtk_cam_dev_cleanup d = record d {
  notifier = mtk_cam_v4l2_async_unregister d.notifier;
  graph = mtk_cam_v4l2_unregister d.graph;
  op_lock = false;
}
