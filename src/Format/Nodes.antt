-- ===== src/Format/Nodes.antt =====
-- camera/driver/cam/mtk_cam.c and mtk_cam.h: the descriptors of the seven video nodes and the
-- tables of formats that they name.
use mt8183_kukui_pmos.Prelude.{
  ℕ, ◌+◌, ◌*◌, ◌^◌, Bool, true, false, List, [], ◌∷◌, Option, none, some, length,
}
use mt8183_kukui_pmos.Uapi.{
  Fourcc, sbggr8, sgbrg8, sgrbg8, srggb8, mtisp, mtisp_f, mtisp_3a, mtisp_af, mtisp_lcs, mtisp_lmv,
  mtisp_params, BufType, meta_output, meta_capture, video_capture_mplane, MetaFmt,
}

-- The `enum` of mtk_cam.h.
pub data NodeId : Type 0 where
  meta_in_0 main_stream_out packed_bin_out meta_out_0 meta_out_1 meta_out_2 meta_out_3 : NodeId

abbrev pub node_index : NodeId → ℕ
node_index meta_in_0 = 0
node_index main_stream_out = 1
node_index packed_bin_out = 2
node_index meta_out_0 = 3
node_index meta_out_1 = 4
node_index meta_out_2 = 5
node_index meta_out_3 = 6

abbrev pub total_nodes : ℕ
total_nodes = 7

abbrev pub img_max_width : ℕ
img_max_width = 5376

abbrev pub img_max_height : ℕ
img_max_height = 4032

abbrev pub img_min_width : ℕ
img_min_width = 80

abbrev pub img_min_height : ℕ
img_min_height = 60

-- An entry of an image table: what its initializer sets of `fmt.pix_mp`.
pub record ImageFmt : Type 0 where
  pub width : ℕ
  pub height : ℕ
  pub pixelformat : Fourcc

pub data FmtTable : Type 0 where
  images : List ImageFmt → FmtTable
  metas : List MetaFmt → FmtTable

abbrev full_size : Fourcc → ImageFmt
full_size f = record { width = img_max_width; height = img_max_height; pixelformat = f }

abbrev sz_1k : ℕ
sz_1k = 1024

abbrev pub meta_fmts : List MetaFmt
meta_fmts =
    record { dataformat = mtisp_params; buffersize = 512 * sz_1k }
    ∷ record { dataformat = mtisp_3a; buffersize = 1200 * sz_1k }
    ∷ record { dataformat = mtisp_af; buffersize = 640 * sz_1k }
    ∷ record { dataformat = mtisp_lcs; buffersize = 288 * sz_1k }
    ∷ record { dataformat = mtisp_lmv; buffersize = 256 }
    ∷ []

abbrev pub stream_out_fmts : List ImageFmt
stream_out_fmts =
    full_size sbggr8
    ∷ full_size sgbrg8
    ∷ full_size sgrbg8
    ∷ full_size srggb8
    ∷ full_size (mtisp b'B' b'A')
    ∷ full_size (mtisp b'B' b'8')
    ∷ full_size (mtisp b'B' b'C')
    ∷ full_size (mtisp b'B' b'E')
    ∷ full_size (mtisp b'G' b'8')
    ∷ full_size (mtisp b'G' b'A')
    ∷ full_size (mtisp b'G' b'C')
    ∷ full_size (mtisp b'G' b'E')
    ∷ full_size (mtisp b'g' b'8')
    ∷ full_size (mtisp b'g' b'A')
    ∷ full_size (mtisp b'g' b'C')
    ∷ full_size (mtisp b'g' b'E')
    ∷ full_size (mtisp b'R' b'8')
    ∷ full_size (mtisp b'R' b'A')
    ∷ full_size (mtisp b'R' b'C')
    ∷ full_size (mtisp b'R' b'E')
    ∷ []

abbrev pub bin_out_fmts : List ImageFmt
bin_out_fmts =
    full_size (mtisp_f b'B' b'8')
    ∷ full_size (mtisp_f b'B' b'A')
    ∷ full_size (mtisp_f b'B' b'C')
    ∷ full_size (mtisp_f b'B' b'E')
    ∷ full_size (mtisp_f b'G' b'8')
    ∷ full_size (mtisp_f b'G' b'A')
    ∷ full_size (mtisp_f b'G' b'C')
    ∷ full_size (mtisp_f b'G' b'E')
    ∷ full_size (mtisp_f b'g' b'8')
    ∷ full_size (mtisp_f b'g' b'A')
    ∷ full_size (mtisp_f b'g' b'C')
    ∷ full_size (mtisp_f b'g' b'E')
    ∷ full_size (mtisp_f b'R' b'8')
    ∷ full_size (mtisp_f b'R' b'A')
    ∷ full_size (mtisp_f b'R' b'C')
    ∷ full_size (mtisp_f b'R' b'E')
    ∷ []

-- `struct v4l2_frmsize_stepwise`
pub record Stepwise : Type 0 where
  pub min_width : ℕ
  pub max_width : ℕ
  pub step_width : ℕ
  pub min_height : ℕ
  pub max_height : ℕ
  pub step_height : ℕ

-- `struct mtk_cam_dev_node_desc`, less its name, its capability flags and its table of ioctls.
-- `link_flags` is set or 0: immutable and enabled, or neither.
pub record NodeDesc : Type 0 where
  pub id : NodeId
  pub buf_type : BufType
  pub dma_port : ℕ
  pub immutable_link : Bool
  pub smem_alloc : Bool
  pub image : Bool
  pub fmts : FmtTable
  pub num_fmts : ℕ
  pub default_fmt_idx : ℕ
  pub max_buf_count : ℕ
  pub frmsizes : Option Stepwise

-- `R_IMGO` and the other DMA ports, each one bit.
abbrev pub r_imgo : ℕ
r_imgo = 2 ^ 0

abbrev pub r_rrzo : ℕ
r_rrzo = 2 ^ 1

abbrev pub r_aao : ℕ
r_aao = 2 ^ 3

abbrev pub r_afo : ℕ
r_afo = 2 ^ 4

abbrev pub r_lcso : ℕ
r_lcso = 2 ^ 5

abbrev pub r_lmvo : ℕ
r_lmvo = 2 ^ 7

abbrev pub r_flko : ℕ
r_flko = 2 ^ 8

abbrev pub r_pso : ℕ
r_pso = 2 ^ 10

abbrev continuous_sizes : Option Stepwise
continuous_sizes = some (record {
  min_width = img_min_width;
  max_width = img_max_width;
  step_width = 1;
  min_height = img_min_height;
  max_height = img_max_height;
  step_height = 1;
})

-- A descriptor of a meta node: `num_fmts` is left 0, and there are no frame sizes.
abbrev meta_desc : NodeId → BufType → ℕ → Bool → ℕ → ℕ → NodeDesc
meta_desc node buf port smem idx count = record {
  id = node;
  buf_type = buf;
  dma_port = port;
  immutable_link = false;
  smem_alloc = smem;
  image = false;
  fmts = metas meta_fmts;
  num_fmts = 0;
  default_fmt_idx = idx;
  max_buf_count = count;
  frmsizes = none;
}

-- `mtk_cam_dev_queue_setup`: `output_queues`, then `capture_queues`, in the order of the ids. The
-- distinct bits of a port are added.
abbrev pub node_desc : NodeId → NodeDesc
node_desc meta_in_0 = meta_desc meta_in_0 meta_output 0 true 0 10
node_desc main_stream_out = record {
  id = main_stream_out;
  buf_type = video_capture_mplane;
  dma_port = r_imgo;
  immutable_link = true;
  smem_alloc = false;
  image = true;
  fmts = images stream_out_fmts;
  num_fmts = length stream_out_fmts;
  default_fmt_idx = 0;
  max_buf_count = 0;
  frmsizes = continuous_sizes;
}
node_desc packed_bin_out = record {
  id = packed_bin_out;
  buf_type = video_capture_mplane;
  dma_port = r_rrzo;
  immutable_link = false;
  smem_alloc = false;
  image = true;
  fmts = images bin_out_fmts;
  num_fmts = length bin_out_fmts;
  default_fmt_idx = 0;
  max_buf_count = 0;
  frmsizes = continuous_sizes;
}
node_desc meta_out_0 = meta_desc meta_out_0 meta_capture (r_aao + r_flko + r_pso) false 1 5
node_desc meta_out_1 = meta_desc meta_out_1 meta_capture r_afo false 2 5
node_desc meta_out_2 = meta_desc meta_out_2 meta_capture r_lcso false 3 10
node_desc meta_out_3 = meta_desc meta_out_3 meta_capture r_lmvo false 4 10
