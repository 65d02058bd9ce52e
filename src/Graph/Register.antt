-- ===== src/Graph/Register.antt =====
-- camera/driver/cam/mtk_cam.c: registering the media device, the subdevice and the video nodes, and
-- what is undone where a step fails.
use mt8183_kukui_pmos.Prelude.{
  ℕ, zero, suc, ◌+◌, ◌==◌, if◌then◌else◌, Bool, true, false, not, Option, some, none,
}
use mt8183_kukui_pmos.Uapi.{Errno, enomem}
use mt8183_kukui_pmos.Format.Nodes.{total_nodes}

-- What a video node holds: its pad, its queue, its lock and its registered device.
pub record NodeHeld : Type 0 where
  pub pad : Bool
  pub queue : Bool
  pub lock : Bool
  pub vdev : Bool

-- The answers of the kernel for a node.
pub record NodeAnswers : Type 0 where
  pub pads_init : Option Errno
  pub queue_init : Option Errno
  pub register_device : Option Errno
  pub create_link : Option Errno

-- The labels at the end of `mtk_cam_video_register_device`.
abbrev pub fail_media_clean : NodeHeld → NodeHeld
fail_media_clean h = record h { pad = false }

abbrev pub fail_vb2_rel : NodeHeld → NodeHeld
fail_vb2_rel h = fail_media_clean (record h { lock = false; queue = false })

abbrev pub fail_vdev_ureg : NodeHeld → NodeHeld
fail_vdev_ureg h = fail_vb2_rel (record h { vdev = false })

-- `mtk_cam_video_register_device`; the fields of the queue and the device are left out.
unfoldable pub mtk_cam_video_register_device : NodeAnswers → NodeHeld → NodeHeld × Option Errno
mtk_cam_video_register_device a h = elim a.pads_init [
  | some e ↦ (h, some e)
  | none ↦ elim a.queue_init [
    | some e ↦ (fail_media_clean (record h { pad = true }), some e)
    | none ↦
        let ready = record h { pad = true; queue = true; lock = true } in
        elim a.register_device [
          | some e ↦ (fail_vb2_rel ready, some e)
          | none ↦ elim a.create_link [
            | some e ↦ (fail_vdev_ureg (record ready { vdev = true }), some e)
            | none ↦ (record ready { vdev = true }, none)
          ]
        ]
  ]
]

-- The queue is released when the last user closes the device.
unfoldable pub mtk_cam_video_unregister_device : NodeHeld → NodeHeld
mtk_cam_video_unregister_device h = record h { vdev = false; pad = false; lock = false }

abbrev pub set_node : ℕ → NodeHeld → (ℕ → NodeHeld) → ℕ → NodeHeld
set_node i new node k = if k == i then new else node k

-- The loop over the nodes from `i` on: the nodes, where it stopped and the result.
unfoldable pub register_nodes :
    (ℕ → NodeAnswers) → ℕ → ℕ → (ℕ → NodeHeld) → (ℕ → NodeHeld) × (ℕ × Option Errno)
register_nodes a zero i node = (node, (i, none))
register_nodes a (suc rounds) i node =
    let (new, answer) = mtk_cam_video_register_device (a i) (node i) in
    let rest = register_nodes a rounds (i + 1) (set_node i new node) in
    elim answer [ some e ↦ (set_node i new node, (i, some e)) | none ↦ rest ]

-- The loop of `fail_vdev_unreg`, down from the node before `i`.
unfoldable pub unregister_nodes : ℕ → (ℕ → NodeHeld) → ℕ → NodeHeld
unregister_nodes zero node = node
unregister_nodes (suc i) node =
    unregister_nodes i (set_node i (mtk_cam_video_unregister_device (node i)) node)

pub record Graph : Type 0 where
  pub media : Bool
  pub entity : Bool
  pub v4l2 : Bool
  pub finalized : Bool
  pub subdev : Bool
  pub node : ℕ → NodeHeld

pub record GraphAnswers : Type 0 where
  pub media_register : Option Errno
  pub kcalloc : Bool
  pub pads_init : Option Errno
  pub v4l2_register : Option Errno
  pub init_finalize : Option Errno
  pub register_subdev : Option Errno
  pub nodes : ℕ → NodeAnswers

unfoldable pub mtk_cam_media_register : GraphAnswers → Graph → Graph × Option Errno
mtk_cam_media_register a g = elim a.media_register [
  | some e ↦ (g, some e)
  | none ↦ if not a.kcalloc then (record g { media = false }, some enomem) else elim a.pads_init [
    | some e ↦ (record g { media = false }, some e)
    | none ↦ (record g { media = true; entity = true }, none)
  ]
]

-- The labels at the end of `mtk_cam_v4l2_register`. `v4l2_device_unregister` takes the subdevice off
-- the device.
abbrev pub fail_media_unreg : Graph → Graph
fail_media_unreg g = record g { media = false }

abbrev pub fail_clean_media_entity : Graph → Graph
fail_clean_media_entity g =
    fail_media_unreg (record g { entity = false; v4l2 = false; subdev = false })

-- From the subdevice on.
unfoldable pub register_subdev_nodes : GraphAnswers → Graph → Graph × Option Errno
register_subdev_nodes a g = elim a.init_finalize [
  | some e ↦ (fail_clean_media_entity g, some e)
  | none ↦ elim a.register_subdev [
    | some e ↦ (fail_clean_media_entity (record g { finalized = true }), some e)
    | none ↦
        let (node, (i, answer)) = register_nodes a.nodes total_nodes 0 g.node in
        let reached = record g { finalized = true; subdev = true; node = node } in
        elim answer [
          | some e ↦
              (fail_clean_media_entity (record reached { node = unregister_nodes i node }), some e)
          | none ↦ (reached, none)
        ]
  ]
]

unfoldable pub mtk_cam_v4l2_register : GraphAnswers → Graph → Graph × Option Errno
mtk_cam_v4l2_register a g =
    let (media, answer) = mtk_cam_media_register a g in
    elim answer [
      | some e ↦ (media, some e)
      | none ↦ elim a.v4l2_register [
        | some e ↦ (fail_media_unreg media, some e)
        | none ↦ register_subdev_nodes a (record media { v4l2 = true })
      ]
    ]

unfoldable pub mtk_cam_v4l2_unregister : Graph → Graph
mtk_cam_v4l2_unregister g = record g {
  node = unregister_nodes total_nodes g.node;
  subdev = false;
  v4l2 = false;
  entity = false;
  media = false;
}
