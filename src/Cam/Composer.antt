-- ===== src/Cam/Composer.antt =====
-- camera/driver/cam/mtk_cam-hw.c: the commands that the driver sends to the composer, by
-- `scp_ipi_send`, whose answer is not looked at.
use mt8183_kukui_pmos.Prelude.{ℕ, Bool, false, if◌then◌else◌, List, [], ◌∷◌, none, some}
use mt8183_kukui_pmos.Cam.Jobs.{isp_tx_frame_worker}
use mt8183_kukui_pmos.Cam.State.{
  Cam, Req, Run, ConfigParam, emit, ipi_send, cmd_init, cmd_config, cmd_stream, cmd_deinit,
  cmd_config_meta,
}

abbrev pub cam_id_b : ℕ
cam_id_b = 3

-- The works that wait when the queue is destroyed are run before.
unfoldable pub drain : List Req → Cam → Cam
drain [] c = c
drain (req ∷ rest) c = drain rest (isp_tx_frame_worker c)

abbrev handlers_gone : Cam → Cam
handlers_gone c = record c {
  held = record (c.held) { ipi_cmd = false; ipi_frame = false; composer_wq = false };
}

-- `none` is the destruction of a work queue that is not there.
unfoldable pub isp_composer_uninit : Cam → Run
isp_composer_uninit c = if c.held.composer_wq then some (handlers_gone (drain c.works c)) else none

abbrev pub isp_composer_meta_config : ℕ → Cam → Cam
isp_composer_meta_config dma c = emit (ipi_send (cmd_config_meta dma)) c

abbrev pub isp_composer_hw_init : Cam → Cam
isp_composer_hw_init c =
    emit (ipi_send (cmd_init cam_id_b c.p1.composer_iova c.p1.composer_scp_addr)) c

unfoldable pub isp_composer_hw_deinit : Cam → Run
isp_composer_hw_deinit c = isp_composer_uninit (emit (ipi_send cmd_deinit) c)

abbrev pub mtk_isp_hw_config : ConfigParam → Cam → Cam
mtk_isp_hw_config param c = emit (ipi_send (cmd_config param)) c

abbrev pub mtk_isp_stream : Bool → Cam → Cam
mtk_isp_stream on c = emit (ipi_send (cmd_stream on)) c
