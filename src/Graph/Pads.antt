-- ===== src/Graph/Pads.antt =====
-- camera/driver/cam/mtk_cam.c: the formats of the subdevice's pads, the formats that are only read,
-- and the sensor and the sensor interface that the graph holds.
use mt8183_kukui_pmos.Prelude.{
  ℕ, ◌==◌, leb, if◌then◌else◌, Bool, ◌&&◌, not, Option, some, none, List, [], ◌∷◌,
}
use mt8183_kukui_pmos.Uapi.{
  sbggr10_1x10, field_none, colorspace_raw, Errno, einval, enodev, Result, ok, err, Fourcc,
  V4l2Format, meta, MetaFmt,
}
use mt8183_kukui_pmos.Seninf.State.{FrameFmt}

abbrev pub cio_pad_sink : ℕ
cio_pad_sink = 11

-- `mtk_cam_sd_init_state`: the other fields of a pad's format stay.
unfoldable pub mtk_cam_sd_init_state : (ℕ → FrameFmt) → ℕ → FrameFmt
mtk_cam_sd_init_state state i = record (state i) {
  code = sbggr10_1x10;
  width = 1600;
  height = 1200;
  field = field_none;
  colorspace = colorspace_raw;
}

-- `mtk_cam_sd_set_fmt` on the formats of a state with `num_pads` pads: the format of the request and
-- the formats. The source pads are those from the main stream, 1, to the packed output, 2.
unfoldable pub mtk_cam_sd_set_fmt :
    ℕ → ℕ → FrameFmt → (ℕ → FrameFmt) → Result (FrameFmt × (ℕ → FrameFmt))
mtk_cam_sd_set_fmt num_pads pad request state =
    let f = record request { field = field_none } in
    let sources : ℕ → FrameFmt =
      λ i. if leb 1 i && leb i 2 then f else if i == pad then f else state i in
    let own : ℕ → FrameFmt = λ i. if i == pad then f else state i in
    if leb num_pads pad
    then err einval
    else if pad == cio_pad_sink
    then ok (f, sources)
    else ok (f, own)

-- `mtk_cam_vidioc_g_fmt`: the union of the node's format.
unfoldable pub mtk_cam_vidioc_g_fmt : V4l2Format → V4l2Format → V4l2Format
mtk_cam_vidioc_g_fmt vdev_fmt f = record f { fmt = vdev_fmt.fmt }

-- `mtk_cam_vidioc_meta_enum_fmt` and `mtk_cam_vidioc_g_meta_fmt` of a meta node.
unfoldable pub mtk_cam_vidioc_meta_enum_fmt : MetaFmt → ℕ → Result Fourcc
mtk_cam_vidioc_meta_enum_fmt m index = if index == 0 then ok m.dataformat else err einval

unfoldable pub mtk_cam_vidioc_g_meta_fmt : MetaFmt → V4l2Format → V4l2Format
mtk_cam_vidioc_g_meta_fmt m f = record f {
  fmt = meta (record { dataformat = m.dataformat; buffersize = m.buffersize });
}

-- An entity of the media device, as far as the driver reads it.
pub record Entity : Type 0 where
  pub is_cam_sensor : Bool
  pub is_streaming : Bool
  pub name : ℕ

-- `mtk_cam_cio_get_active_sensor`
unfoldable pub mtk_cam_cio_get_active_sensor : List Entity → Option Entity
mtk_cam_cio_get_active_sensor [] = none
mtk_cam_cio_get_active_sensor (e ∷ rest) =
    if e.is_cam_sensor && e.is_streaming then some e else mtk_cam_cio_get_active_sensor rest

-- The notifier's callbacks, on the bound sensor interface by its name.
unfoldable pub mtk_cam_dev_notifier_bound : Bool → ℕ → Option ℕ → Option ℕ × Option Errno
mtk_cam_dev_notifier_bound is_vid_if_bridge sd seninf =
    if not is_vid_if_bridge then (seninf, some enodev) else (some sd, none)

unfoldable pub mtk_cam_dev_notifier_unbind : Option ℕ → Option ℕ
mtk_cam_dev_notifier_unbind seninf = none

-- The answers are those of `media_create_pad_link` and `v4l2_device_register_subdev_nodes`.
unfoldable pub mtk_cam_dev_notifier_complete : Option Errno → Option Errno → Option ℕ → Option Errno
mtk_cam_dev_notifier_complete link nodes none = some enodev
mtk_cam_dev_notifier_complete (some e) nodes (some sd) = some e
mtk_cam_dev_notifier_complete none nodes (some sd) = nodes

-- The type of an event that a program subscribes to.
pub data EventType : Type 0 where
  event_frame_sync other_event : EventType

-- `mtk_cam_sd_subscribe_event`, with the answer of `v4l2_event_subscribe`.
unfoldable pub mtk_cam_sd_subscribe_event : Option Errno → EventType → Option Errno
mtk_cam_sd_subscribe_event subscribe event_frame_sync = subscribe
mtk_cam_sd_subscribe_event subscribe other_event = some einval
