-- ===== src/Seninf/State.antt =====
-- camera/driver/seninf/mtk_seninf.c, mtk_seninf_def.h and mtk_seninf_reg.h: the state of the sensor
-- interface and the names of its registers.
use mt8183_kukui_pmos.Prelude.{ℕ, ◌==◌, ltb, if◌then◌else◌, Bool, false, ◌||◌, Option, some, none}
use mt8183_kukui_pmos.Uapi.{MbusCode, Field, Colorspace, XferFunc, YcbcrEnc, Quantization}

abbrev pub num_pads : ℕ
num_pads = 12

abbrev pub num_sensors : ℕ
num_sensors = 4

abbrev pub cam_mux_idx_min : ℕ
cam_mux_idx_min = num_sensors

-- `CFG_CSI_PORT_*` and `SENINF_*`, by their number.
abbrev pub csi_port_0 : ℕ
csi_port_0 = 0

abbrev pub csi_port_1 : ℕ
csi_port_1 = 1

abbrev pub csi_port_2 : ℕ
csi_port_2 = 2

abbrev pub csi_port_0a : ℕ
csi_port_0a = 3

abbrev pub csi_port_0b : ℕ
csi_port_0b = 4

abbrev pub csi_port_max_num : ℕ
csi_port_max_num = 5

-- `struct v4l2_mbus_framefmt`
pub record FrameFmt : Type 0 where
  pub code : MbusCode
  pub width : ℕ
  pub height : ℕ
  pub field : Field
  pub colorspace : Colorspace
  pub xfer_func : XferFunc
  pub ycbcr_enc : YcbcrEnc
  pub quantization : Quantization

-- A 32-bit register: an offset into `base_reg` or into `rx_reg`.
pub data Reg : Type 0 where
  base : ℕ → Reg
  rx : ℕ → Reg

abbrev pub same_reg : Reg → Reg → Bool
same_reg (base a) (base b) = a == b
same_reg (rx a) (rx b) = a == b
same_reg _ _ = false

abbrev pub Regs : Type 0
Regs = Reg → ℕ

-- `struct mtk_seninf`, with the count of its `pm_runtime_get`; the `num_data_lanes` of the sensors by
-- their port.
pub record Seninf : Type 0 where
  pub fmt : ℕ → FrameFmt
  pub num_data_lanes : ℕ → ℕ
  pub port : ℕ
  pub mux_sel : ℕ
  pub pm : ℕ
  pub regs : Regs

-- `csi2_rx[port]`, as `seninf_probe` sets it: an offset into `rx_reg`. `none` is past the array.
unfoldable pub csi2_rx : ℕ → Option ℕ
csi2_rx port =
    if port == csi_port_0
    then some 0
    else if port == csi_port_0a
    then some 0
    else if port == csi_port_0b
    then some 0x1000
    else if port == csi_port_1
    then some 0x2000
    else if port == csi_port_2
    then some 0x4000
    else none

abbrev pub is_4d1c : ℕ → Bool
is_4d1c port = ltb port csi_port_0a

abbrev pub is_cdphy_combo : ℕ → Bool
is_cdphy_combo port = (port == csi_port_0a) || ((port == csi_port_0b) || (port == csi_port_0))

-- `mtk_seninf_csi_port_to_seninf`; `none` is the result -EINVAL.
unfoldable pub mtk_seninf_csi_port_to_seninf : ℕ → Option ℕ
mtk_seninf_csi_port_to_seninf port =
    if port == csi_port_0
    then some 0
    else if port == csi_port_1
    then some 2
    else if port == csi_port_2
    then some 4
    else if port == csi_port_0a
    then some 0
    else if port == csi_port_0b
    then some 1
    else none
