-- ===== src/Cam/Configure.antt =====
-- camera/driver/cam/mtk_cam.c: what a stream is configured with, from the enabled nodes, their
-- formats and the format of the sensor.
use Prim.Native.Nat.{bit_or}
use mt8183_kukui_pmos.Prelude.{
  ℕ, ◌+◌, ◌==◌, if◌then◌else◌, Bool, ◌||◌, List, [], ◌∷◌, Option, none, some, u32,
}
use mt8183_kukui_pmos.Uapi.{MbusCode, einval, Fmt, pix_mp, meta, Result, ok, err, PixMp}
use mt8183_kukui_pmos.Format.Codes.{
  get_sensor_pixel_id, get_sensor_fmt, img_fmt_unknown, raw_pxl_id_unknown,
}
use mt8183_kukui_pmos.Format.Nodes.{
  NodeId, meta_in_0, main_stream_out, packed_bin_out, meta_out_0, meta_out_1, meta_out_2,
  meta_out_3, node_desc,
}
use mt8183_kukui_pmos.Format.Config.{ImgOutput, config_img_fmt}
use mt8183_kukui_pmos.Cam.State.{Cam, ConfigParam, ◌>>=◌, NodeMap}
use mt8183_kukui_pmos.Cam.Irq.{bit}

-- `format` of the sensor's pad 0.
pub record SensorFmt : Type 0 where
  pub width : ℕ
  pub height : ℕ
  pub code : MbusCode

abbrev pub all_nodes : List NodeId
all_nodes =
    meta_in_0 ∷ main_stream_out ∷ packed_bin_out ∷ meta_out_0 ∷ meta_out_1 ∷ meta_out_2 ∷ meta_out_3
    ∷ []

-- The loop of `mtk_cam_dev_init_stream`: the count and the ports of the enabled nodes.
unfoldable pub count_enabled : NodeMap Bool → List NodeId → ℕ × ℕ → ℕ × ℕ
count_enabled enabled [] acc = acc
count_enabled enabled (n ∷ ns) (count, dmas) =
    count_enabled enabled ns
      (if enabled n then (u32 (count + 1), bit_or dmas (node_desc n).dma_port) else (count, dmas))

unfoldable pub mtk_cam_dev_init_stream : Cam → Cam
unfolding count_enabled
mtk_cam_dev_init_stream c =
    let (count, dmas) = count_enabled c.enabled all_nodes (0, 0) in
    record c { enabled_count = count; enabled_dmas = dmas; stream_count = 0; running_job_count = 0 }

-- The image format of an output node; a node of the other kind has none.
abbrev pub image_of : Fmt → Option PixMp
image_of (pix_mp p) = some p
image_of (meta m) = none

-- `config_img_fmt` of a node.
unfoldable pub config_node : NodeId → SensorFmt → Cam → Option (Result ImgOutput)
config_node node sd c =
    image_of (c.vdev_fmt node).fmt >>= λ mp. config_img_fmt mp sd.width sd.height

-- The message with the two outputs.
abbrev pub config_message : SensorFmt → ImgOutput → Option ImgOutput → Cam → ConfigParam
config_message sd main resize c = record {
  sensor_width = sd.width;
  sensor_height = sd.height;
  raw_pixel_id = get_sensor_pixel_id sd.code;
  img_fmt = get_sensor_fmt sd.code;
  main_output = main;
  resize_output = resize;
  config_dmas = c.enabled_dmas;
}

-- `enabled_dma_ports & R_RRZO`: with no packed output it is bypassed.
unfoldable pub config_resize : SensorFmt → ImgOutput → Cam → Option (Result ConfigParam)
unfolding config_node
config_resize sd main c =
    if bit 1 c.enabled_dmas
    then (config_node packed_bin_out sd c >>= λ r.
        some (elim r [ err e ↦ err e | ok out ↦ ok (config_message sd main (some out) c) ]))
    else some (ok (config_message sd main none c))

-- `mtk_cam_dev_isp_config` up to the message for the composer.
unfoldable pub isp_config_param : Result SensorFmt → Cam → Option (Result ConfigParam)
unfolding config_node config_resize
isp_config_param (err e) c = some (err e)
isp_config_param (ok sd) c =
    if get_sensor_fmt sd.code == img_fmt_unknown
      || get_sensor_pixel_id sd.code == raw_pxl_id_unknown
    then some (err einval)
    else config_node main_stream_out sd c >>= λ r. elim r [
      | err e ↦ some (err e)
      | ok main ↦ config_resize sd main c
    ]
