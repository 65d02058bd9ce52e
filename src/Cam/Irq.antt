-- ===== src/Cam/Irq.antt =====
-- camera/driver/cam/mtk_cam-hw.c: the interrupt of the ISP and the answers of its composer.
use mt8183_kukui_pmos.Prelude.{
  ℕ, ◌+◌, ◌*◌, ◌-◌, ◌/◌, ◌%◌, ◌^◌, ◌==◌, leb, if◌then◌else◌, Bool, ◌&&◌, ◌∷◌, some, u32,
}
use mt8183_kukui_pmos.Cam.State.{Cam, P1, frame_sync, write_reg, Run, ◌>>=◌, emit}
use mt8183_kukui_pmos.Cam.Jobs.{stamp_req, mtk_cam_dev_dequeue_req_frame, mtk_cam_dev_req_try_queue}
use mt8183_kukui_pmos.Cam.Buffers.{meta0, meta1, mtk_cam_dev_dequeue_frame}

-- `value & BIT(k)`
abbrev pub bit : ℕ → ℕ → Bool
bit k value = value / 2 ^ k % 2 == 1

-- The bits of `REG_CTL_RAW_INT_STAT` and `REG_CTL_RAW_INT2_STAT` of mtk_cam-regs.h.
abbrev pub hw_pass1_don_st : ℕ
hw_pass1_don_st = 11

abbrev pub sof_int_st : ℕ
sof_int_st = 12

abbrev pub dma_err_st : ℕ
dma_err_st = 29

abbrev pub sw_pass1_don_st : ℕ
sw_pass1_don_st = 30

abbrev pub afo_done_st : ℕ
afo_done_st = 5

abbrev pub aao_done_st : ℕ
aao_done_st = 7

-- `DMA_ERR_INT_EN` of `REG_CTL_RAW_INT_EN`
abbrev pub dma_err_int_en : ℕ
dma_err_int_en = 29

abbrev pub reg_ctl_raw_int_en : ℕ
reg_ctl_raw_int_en = 0x0020

abbrev pub reg_cq_thr0_baseaddr : ℕ
reg_cq_thr0_baseaddr = 0x0198

-- What one interrupt reads: the registers that `isp_irq_cam` takes under its lock, the FBC status
-- that each call of `mtk_cam_dev_dequeue_frame` reads anew, the interrupt mask, and the clock.
pub record Inputs : Type 0 where
  pub int_stat : ℕ
  pub int2_stat : ℕ
  pub frame_seq_num : ℕ
  pub meta0_seq_num : ℕ
  pub meta1_seq_num : ℕ
  pub aao_fbc_hw : ℕ
  pub afo_fbc : ℕ
  pub aao_fbc_sw : ℕ
  pub int_en : ℕ
  pub now : ℕ
  pub ts_eof : ℕ → ℕ

-- `readl(…FBC_STATUS) & 0x7F`
abbrev pub fbc_cnt : ℕ → ℕ
fbc_cnt status = status % 128

-- The frame that the software pass 1 has done: meta buffers, the job, and the next jobs.
unfoldable pub sw_pass1_done : Inputs → Cam → Run
sw_pass1_done i c =
    (mtk_cam_dev_dequeue_req_frame c.p1.dequeued_frame_seq_no i.ts_eof (
      mtk_cam_dev_dequeue_frame meta0 (fbc_cnt i.aao_fbc_sw) i.now c.p1.dequeued_frame_seq_no
        c.p1.dequeued_meta0 c))
    >>= λ d. some (mtk_cam_dev_req_try_queue d)

-- The two parts of `isp_irq_handle_event` that give meta buffers back.
unfoldable pub meta_done : Inputs → Cam → Cam
meta_done i c =
    let d =
      if bit hw_pass1_don_st i.int_stat && bit aao_done_st i.int2_stat
      then mtk_cam_dev_dequeue_frame meta0 (fbc_cnt i.aao_fbc_hw) i.now c.p1.dequeued_frame_seq_no
          c.p1.dequeued_meta0 c
      else c in
    if bit afo_done_st i.int2_stat
    then mtk_cam_dev_dequeue_frame meta1 (fbc_cnt i.afo_fbc) i.now d.p1.dequeued_frame_seq_no
        d.p1.dequeued_meta1 d
    else d

unfoldable pub isp_irq_handle_event : Inputs → Cam → Run
unfolding sw_pass1_done meta_done
isp_irq_handle_event i c =
    if bit sw_pass1_don_st i.int_stat then sw_pass1_done i (meta_done i c) else some (meta_done i c)

abbrev pub cq_address_offset : ℕ
cq_address_offset = 0x640

abbrev pub cq_buffer_count : ℕ
cq_buffer_count = 3

-- The frame that a start-of-frame interrupt announces.
abbrev pub saved_frame : Inputs → P1 → P1
saved_frame i p = record p {
  sof_count = (p.sof_count + 1) % 256;
  dequeued_frame_seq_no = i.frame_seq_num;
  dequeued_meta0 = i.meta0_seq_num;
  dequeued_meta1 = i.meta1_seq_num;
}

-- `base_addr + addr_offset` as `writel` takes it, of a frame number below 2 ^ 32.
unfoldable pub cq_address : ℕ → ℕ → ℕ
cq_address base frame_seq_no = u32 (base + cq_address_offset * (frame_seq_no % cq_buffer_count))

unfoldable pub isp_irq_handle_sof : Inputs → Cam → Cam
unfolding stamp_req cq_address
isp_irq_handle_sof i c =
    let d = record c {
      p1 = saved_frame i c.p1;
      running_job_list = stamp_req i.frame_seq_num i.now c.running_job_list;
      log = frame_sync i.frame_seq_num ∷ c.log;
    } in
    if leb c.p1.composed_frame_seq_no i.frame_seq_num
    then d
    else emit (write_reg reg_cq_thr0_baseaddr (cq_address c.p1.composer_iova i.frame_seq_num)) d

-- `val & ~DMA_ERR_INT_EN`
abbrev pub clear_bit : ℕ → ℕ → ℕ
clear_bit k value = if bit k value then value - 2 ^ k else value

unfoldable pub isp_irq_handle_dma_err : Inputs → Cam → Cam
isp_irq_handle_dma_err i c =
    emit (write_reg reg_ctl_raw_int_en (clear_bit dma_err_int_en i.int_en)) c

-- `isp_irq_cam`. `DMA_ERR_ST` is one of the bits of `INT_ST_MASK_CAM_ERR`, so the two tests of the
-- error status are one; the rest of that branch is a message.
unfoldable pub isp_irq_cam : Inputs → Cam → Run
unfolding isp_irq_handle_event isp_irq_handle_sof isp_irq_handle_dma_err
isp_irq_cam i c = isp_irq_handle_event i c >>= λ d.
    let e = if bit sof_int_st i.int_stat then isp_irq_handle_sof i d else d in
    some (if bit dma_err_st i.int_stat then isp_irq_handle_dma_err i e else e)

-- `enum mtk_isp_scp_cmds`
abbrev pub isp_cmd_ack : ℕ
isp_cmd_ack = 4

abbrev pub isp_cmd_frame_ack : ℕ
isp_cmd_frame_ack = 5

-- `offsetofend(struct mtk_isp_scp_p1_cmd, ack_info)`: the packed bytes of `cmd_id`, of the ack's
-- `cmd_id` and of `frame_seq_no`.
abbrev pub ack_len : ℕ
ack_len = 1 + (1 + 4)

-- `isp_composer_handler` of a message with its length.
unfoldable pub isp_composer_handler : ℕ → ℕ → ℕ → ℕ → Cam → Cam
isp_composer_handler len cmd_id ack_cmd_id frame_seq_no c =
    if leb ack_len len && (cmd_id == isp_cmd_ack && ack_cmd_id == isp_cmd_frame_ack)
    then record c { p1 = record (c.p1) { composed_frame_seq_no = frame_seq_no } }
    else c
