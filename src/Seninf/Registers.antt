-- ===== src/Seninf/Registers.antt =====
-- camera/driver/seninf/mtk_seninf_reg.h: the offsets of the registers that the driver accesses.
use mt8183_kukui_pmos.Prelude.{ℕ}

abbrev pub mipi_rx_ana00_csi0a : ℕ
mipi_rx_ana00_csi0a = 0x0000

abbrev pub mipi_rx_ana00_csi0b : ℕ
mipi_rx_ana00_csi0b = 0x1000

abbrev pub mipi_rx_ana18_csi0a : ℕ
mipi_rx_ana18_csi0a = 0x0018

abbrev pub mipi_rx_ana18_csi0b : ℕ
mipi_rx_ana18_csi0b = 0x1018

abbrev pub mipi_rx_ana18_csi1a : ℕ
mipi_rx_ana18_csi1a = 0x2018

abbrev pub mipi_rx_ana18_csi1b : ℕ
mipi_rx_ana18_csi1b = 0x3018

abbrev pub mipi_rx_ana1c_csi0a : ℕ
mipi_rx_ana1c_csi0a = 0x001c

abbrev pub mipi_rx_ana1c_csi0b : ℕ
mipi_rx_ana1c_csi0b = 0x101c

abbrev pub mipi_rx_ana1c_csi1a : ℕ
mipi_rx_ana1c_csi1a = 0x201c

abbrev pub mipi_rx_ana1c_csi1b : ℕ
mipi_rx_ana1c_csi1b = 0x301c

abbrev pub mipi_rx_ana20_csi0a : ℕ
mipi_rx_ana20_csi0a = 0x0020

abbrev pub mipi_rx_ana20_csi0b : ℕ
mipi_rx_ana20_csi0b = 0x1020

abbrev pub mipi_rx_ana24_csi0a : ℕ
mipi_rx_ana24_csi0a = 0x0024

abbrev pub mipi_rx_ana24_csi0b : ℕ
mipi_rx_ana24_csi0b = 0x1024

abbrev pub mipi_rx_ana40_csi0a : ℕ
mipi_rx_ana40_csi0a = 0x0040

abbrev pub mipi_rx_anaa8_csi0a : ℕ
mipi_rx_anaa8_csi0a = 0x00a8

abbrev pub mipi_rx_anaa8_csi0b : ℕ
mipi_rx_anaa8_csi0b = 0x10a8

abbrev pub mipi_rx_con24_csi0 : ℕ
mipi_rx_con24_csi0 = 0x0824

abbrev pub mipi_rx_wrapper80_csi0a : ℕ
mipi_rx_wrapper80_csi0a = 0x0080

abbrev pub mipi_rx_wrapper80_csi0b : ℕ
mipi_rx_wrapper80_csi0b = 0x1080

abbrev pub seninf1_csi2_ctl : ℕ
seninf1_csi2_ctl = 0x0a00

abbrev pub seninf1_csi2_dgb_sel : ℕ
seninf1_csi2_dgb_sel = 0x0a18

abbrev pub seninf1_csi2_dpcm : ℕ
seninf1_csi2_dpcm = 0x0a0c

abbrev pub seninf1_csi2_dphy_sync : ℕ
seninf1_csi2_dphy_sync = 0x0b20

abbrev pub seninf1_csi2_hs_trail : ℕ
seninf1_csi2_hs_trail = 0x0a40

abbrev pub seninf1_csi2_int_en : ℕ
seninf1_csi2_int_en = 0x0a10

abbrev pub seninf1_csi2_int_en_ext : ℕ
seninf1_csi2_int_en_ext = 0x0b10

abbrev pub seninf1_csi2_int_status : ℕ
seninf1_csi2_int_status = 0x0a14

abbrev pub seninf1_csi2_lnrd_timing : ℕ
seninf1_csi2_lnrd_timing = 0x0a08

abbrev pub seninf1_csi2_mode : ℕ
seninf1_csi2_mode = 0x0ae8

abbrev pub seninf1_csi2_resync_merge_ctl : ℕ
seninf1_csi2_resync_merge_ctl = 0x0a74

abbrev pub seninf1_csi2_spare0 : ℕ
seninf1_csi2_spare0 = 0x0a20

abbrev pub seninf1_ctrl : ℕ
seninf1_ctrl = 0x0200

abbrev pub seninf1_ctrl_ext : ℕ
seninf1_ctrl_ext = 0x0204

abbrev pub seninf1_mux_ctrl : ℕ
seninf1_mux_ctrl = 0x0d00

abbrev pub seninf1_mux_ctrl_ext : ℕ
seninf1_mux_ctrl_ext = 0x0d3c

abbrev pub seninf1_mux_inten : ℕ
seninf1_mux_inten = 0x0d04

abbrev pub seninf1_mux_intsta : ℕ
seninf1_mux_intsta = 0x0d08

abbrev pub seninf1_mux_spare : ℕ
seninf1_mux_spare = 0x0d2c

abbrev pub seninf_tg1_tm_clk : ℕ
seninf_tg1_tm_clk = 0x0610

abbrev pub seninf_tg1_tm_ctl : ℕ
seninf_tg1_tm_ctl = 0x0608

abbrev pub seninf_tg1_tm_size : ℕ
seninf_tg1_tm_size = 0x060c

abbrev pub seninf_tg1_tm_stp : ℕ
seninf_tg1_tm_stp = 0x0614

abbrev pub seninf_top_cam_mux_ctrl : ℕ
seninf_top_cam_mux_ctrl = 0x0010

abbrev pub seninf_top_ctrl : ℕ
seninf_top_ctrl = 0x0000

abbrev pub seninf_top_mux_ctrl : ℕ
seninf_top_mux_ctrl = 0x0008

abbrev pub seninf_top_phy_seninf_ctl_csi0 : ℕ
seninf_top_phy_seninf_ctl_csi0 = 0x001c

abbrev pub seninf_top_phy_seninf_ctl_csi1 : ℕ
seninf_top_phy_seninf_ctl_csi1 = 0x0020

abbrev pub seninf_top_phy_seninf_ctl_csi2 : ℕ
seninf_top_phy_seninf_ctl_csi2 = 0x0024
