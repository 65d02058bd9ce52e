-- ===== src/Format/Enumerate.antt =====
-- Enumeration of formats: the loop of `mtk_cam_vidioc_enum_fmt` against a filtered list.
use mt8183_kukui_pmos.Prelude.{
  ℕ, zero, suc, ◌+◌, ◌≡◌, refl, ◌≢◌, List, [], ◌∷◌, none, some, arith, get_elem?, filter,
}
use mt8183_kukui_pmos.Uapi.{Fourcc, MbusCode, other, Result, ok, err, einval}
use mt8183_kukui_pmos.Format.Nodes.{ImageFmt, NodeDesc}
use mt8183_kukui_pmos.Format.Negotiate.{fits_bus, enum_loop, mtk_cam_vidioc_enum_fmt, listed}

-- The code at a position of a list of entries, `-EINVAL` past its end.
abbrev pub code_at : List ImageFmt → ℕ → Result Fourcc
code_at es i = elim (get_elem? es i) [ none ↦ err einval | some e ↦ ok e.pixelformat ]

enum_loop-filter :
    (bus : MbusCode) (es : List ImageFmt) (index n k : ℕ)
    → index ≡ n + k
    → enum_loop bus index n es ≡ code_at (filter (fits_bus bus) es) k
unfolding enum_loop
enum_loop-filter bus [] index n k h = refl
enum_loop-filter bus (e ∷ es) index n zero h = ground (arith, enum_loop-filter bus es index n zero)
enum_loop-filter bus (e ∷ es) index n (suc k) h =
    ground (arith, enum_loop-filter bus es index (n + 1) k, enum_loop-filter bus es index n (suc k))

-- With a media bus code other than 0, `mtk_cam_vidioc_enum_fmt` answers with the entry at the index
-- in the list of the node's entries whose Bayer order is that of the code, in the order of the
-- table, and with -EINVAL past its end.
pub mtk_cam_vidioc_enum_fmt-filter :
    (desc : NodeDesc) (bus : MbusCode) (index : ℕ)
    → bus ≢ other 0
    → mtk_cam_vidioc_enum_fmt desc bus index
      ≡ some (code_at (filter (fits_bus bus) (listed desc)) index)
unfolding mtk_cam_vidioc_enum_fmt
mtk_cam_vidioc_enum_fmt-filter desc (other zero) index h = absurd (h refl)
mtk_cam_vidioc_enum_fmt-filter desc (other (suc n)) index h =
    rw (enum_loop-filter (other (suc n)) (listed desc) index 0 index (omega arith))
mtk_cam_vidioc_enum_fmt-filter desc bus index h =
    rw (enum_loop-filter bus (listed desc) index 0 index (omega arith))
