-- ===== src/Cam/Addresses.antt =====
-- The command queues of the composer, and the arrays of camera/driver/cam/mtk_cam-hw.c.
use mt8183_kukui_pmos.Prelude.{ℕ, ◌+◌, ◌^◌, ◌<◌, ◌≤◌, ◌≡◌, ◌≢◌, ◌↔◌, arith, none, ◌⊎◌}
use mt8183_kukui_pmos.Format.Nodes.{NodeId, meta_out_0, meta_out_1}
use mt8183_kukui_pmos.Cam.State.{Cam, Buf}
use mt8183_kukui_pmos.Cam.Buffers.{next_seq_no_at, next_meta_seq_no, mtk_isp_enqueue}
use mt8183_kukui_pmos.Cam.Irq.{cq_address, cq_address_offset}

-- `MTK_ISP_COMPOSER_MEM_SIZE`
abbrev pub composer_mem_size : ℕ
composer_mem_size = 0x200000

-- For a composer's memory below 4 GiB and frame numbers that do not wrap at 32 bits: the command queue
-- of a frame lies in that memory, and the queues of a frame and of the one or two frames after it do
-- not overlap: their addresses are at least the size of a queue apart.
pub cq_address-composer_mem_size :
    (base m n : ℕ)
    → base + composer_mem_size ≤ 2 ^ 32
    → m < n
    → n ≤ m + 2
    → n < 2 ^ 32
    → (base ≤ cq_address base m)
      × (cq_address base m + cq_address_offset ≤ base + composer_mem_size)
      × ((cq_address base m + cq_address_offset ≤ cq_address base n)
          ⊎ (cq_address base n + cq_address_offset ≤ cq_address base m))
unfolding cq_address
cq_address-composer_mem_size base m n h k l no_wrap = (omega arith, omega arith, ground arith)

-- With DMA ports enabled, `mtk_isp_enqueue` of a buffer reads and writes outside the array of two
-- meta sequence numbers exactly for a node other than the first two meta outputs.
pub mtk_isp_enqueue_out_of_bounds :
    (node : NodeId) (dma_port : ℕ) (buf : Buf) (c : Cam)
    → c.enabled_dmas ≢ 0
    → (mtk_isp_enqueue node dma_port buf c ≡ none) ↔ ((node ≢ meta_out_0) × (node ≢ meta_out_1))
unfolding mtk_isp_enqueue next_meta_seq_no next_seq_no_at
mtk_isp_enqueue_out_of_bounds node dma_port buf c h = ground arith
