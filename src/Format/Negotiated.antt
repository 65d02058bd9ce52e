-- ===== src/Format/Negotiated.antt =====
-- What `mtk_cam_vidioc_try_fmt` promises: every request has an answer, the answer is a format that
-- the node supports, and asking for the answer gives it again.
use mt8183_kukui_pmos.Prelude.{
  ℕ, ◌+◌, ◌*◌, ◌%◌, ◌^◌, ◌≤◌, ◌<◌, ◌≡◌, refl, arith, inl, inr, List, [], ◌∷◌, some, Option-cases,
}
use mt8183_kukui_pmos.Uapi.{Fourcc, BufType, PixMp, pix_mp}
use mt8183_kukui_pmos.Format.Codes.{get_pixel_bits}
use mt8183_kukui_pmos.Format.Nodes.{
  NodeId, main_stream_out, packed_bin_out, ImageFmt, NodeDesc, img_min_width, img_max_width,
  img_min_height, img_max_height,
}
use mt8183_kukui_pmos.Format.Negotiate.{
  align, clamp, bytes_per_line, listed, find_in, mtk_cam_dev_find_fmt, default_entry, choose_fmt,
  fit, mtk_cam_vidioc_try_fmt,
}
use mt8183_kukui_pmos.Format.Agree.{same_fourcc→≡}
use mt8183_kukui_pmos.Format.Stride.{
  samples, get_pixel_bits-le, bytes_per_line-main_stream_out, bytes_per_line-packed_bin_out,
}

find_in-pixelformat :
    (es : List ImageFmt) (f : Fourcc) (e : ImageFmt) → find_in es f ≡ some e → e.pixelformat ≡ f
unfolding find_in
find_in-pixelformat [] f e h = absurd (cc)
find_in-pixelformat (x ∷ es) f e h =
    ground (arith, same_fourcc→≡ x.pixelformat f, find_in-pixelformat es f e)

-- A node whose default entry exists and is listed, as it is for the two image nodes.
pub record HasDefault (desc : NodeDesc) (d : ImageFmt) : Type 0 where
  pub default : default_entry desc ≡ some d
  pub found : mtk_cam_dev_find_fmt desc d.pixelformat ≡ some d

module _ (desc : NodeDesc) (d : ImageFmt) (has : HasDefault desc d) where
  choose_fmt_total : (f : Fourcc) → (e : ImageFmt) × (choose_fmt desc f ≡ some e)
  unfolding choose_fmt
  choose_fmt_total f = elim (Option-cases (mtk_cam_dev_find_fmt desc f)) [
    | inl no' ↦ (d, ground (arith, has.default))
    | inr (e, h) ↦ (e, ground arith)
  ]

  -- The code of a selected entry selects that entry.
  choose_fmt-pixelformat :
      (f : Fourcc) (e : ImageFmt)
      → choose_fmt desc f ≡ some e
      → mtk_cam_dev_find_fmt desc e.pixelformat ≡ some e
  unfolding choose_fmt mtk_cam_dev_find_fmt
  choose_fmt-pixelformat f e h = elim (Option-cases (find_in (listed desc) f)) [
    | inl no' ↦ ground (arith, has.default, has.found)
    | inr (x, hx) ↦ ground (arith, find_in-pixelformat (listed desc) f x)
  ]

-- The width and the height that a request is brought to.
abbrev fit_width : ℕ → ℕ
fit_width w = align (clamp w img_min_width img_max_width) 4

abbrev fit_height : ℕ → ℕ
fit_height h = clamp h img_min_height img_max_height

fit_width_bounds :
    (w : ℕ)
    → (img_min_width ≤ fit_width w)
      × (fit_width w ≤ img_max_width)
      × (fit_width w % 4 ≡ 0)
      × (fit_width (fit_width w) ≡ fit_width w)
unfolding align clamp
fit_width_bounds w = ground arith

fit_height_bounds :
    (h : ℕ)
    → (img_min_height ≤ fit_height h)
      × (fit_height h ≤ img_max_height)
      × (fit_height (fit_height h) ≡ fit_height h)
unfolding clamp
fit_height_bounds h = ground arith

fit-fit :
    (node : NodeId) (f : Fourcc) (w h : ℕ)
    → fit node f (fit node f w h).width (fit node f w h).height ≡ fit node f w h
unfolding fit
fit-fit node f w h = rw ((fit_width_bounds w).3, (fit_height_bounds h).2)

mul_le : (a b c d : ℕ) → a ≤ c → b ≤ d → a * b ≤ c * d
mul_le a b c d h k = grind arith

-- How many samples a line of an output node has.
abbrev pub line_samples : NodeId → ℕ → ℕ
line_samples main_stream_out width = width
line_samples packed_bin_out width = samples width
line_samples _ width = 0

-- A format that the node can be given: a listed code, a size in range, a line of a whole number of
-- words that holds its samples and wastes less than 8 bytes, and an image size that did not wrap.
pub record IsFit (desc : NodeDesc) (r : PixMp) : Type 0 where
  pub entry : ImageFmt
  pub listed_code : mtk_cam_dev_find_fmt desc r.pixelformat ≡ some entry
  pub width_min : img_min_width ≤ r.width
  pub width_max : r.width ≤ img_max_width
  pub width_aligned : r.width % 4 ≡ 0
  pub height_min : img_min_height ≤ r.height
  pub height_max : r.height ≤ img_max_height
  pub line_aligned : r.bytesperline % 4 ≡ 0
  pub line_holds : line_samples desc.id r.width * get_pixel_bits r.pixelformat ≤ 8 * r.bytesperline
  pub line_tight :
      8 * r.bytesperline < line_samples desc.id r.width * get_pixel_bits r.pixelformat + 64
  pub image_size : r.sizeimage ≡ r.bytesperline * r.height
  pub one_plane : r.num_planes ≡ 1

record LineFits (node : NodeId) (bits width : ℕ) : Type 0 where
  aligned : bytes_per_line node bits width % 4 ≡ 0
  holds : line_samples node width * bits ≤ 8 * bytes_per_line node bits width
  tight : 8 * bytes_per_line node bits width < line_samples node width * bits + 64

bytes_per_line-LineFits :
    (node : NodeId) (bits width : ℕ) → bits ≤ 14 → width ≤ img_max_width → LineFits node bits width
unfolding bytes_per_line
bytes_per_line-LineFits main_stream_out bits width h k = omega (
  arith,
  bytes_per_line-main_stream_out bits width (omega (arith, mul_le width bits img_max_width 14 k h)),
)
bytes_per_line-LineFits packed_bin_out bits width h k =
    let small = mul_le (samples width) bits 8065 14 (omega arith) h in
    omega (arith, bytes_per_line-packed_bin_out bits width (omega arith) (omega arith))
bytes_per_line-LineFits _ bits width h k = omega arith

size_fits :
    (line height : ℕ) → 8 * line < 8065 * 14 + 64 → height ≤ img_max_height → line * height < 2 ^ 32
size_fits line height h k = omega (arith, mul_le line height 14122 img_max_height (omega arith) k)

line_samples-le :
    (node : NodeId) (width : ℕ) → width ≤ img_max_width → line_samples node width ≤ 8065
line_samples-le main_stream_out width h = omega arith
line_samples-le packed_bin_out width h = omega arith
line_samples-le _ width h = omega arith

module _ (desc : NodeDesc) (d : ImageFmt) (has : HasDefault desc d) where
  fit-IsFit :
      (f : Fourcc) (e : ImageFmt) (w h : ℕ)
      → mtk_cam_dev_find_fmt desc f ≡ some e
      → IsFit desc (fit desc.id f w h)
  unfolding fit
  fit-IsFit f e w h k =
      let (w_min, w_max, w_mod, _) = fit_width_bounds w in
      let (h_min, h_max, _) = fit_height_bounds h in
      let bits = get_pixel_bits f in
      let line = bytes_per_line-LineFits desc.id bits (fit_width w) (get_pixel_bits-le f) w_max in
      let most =
        mul_le (line_samples desc.id (fit_width w)) bits 8065 14
          (line_samples-le desc.id (fit_width w) w_max) (get_pixel_bits-le f) in
      let small =
        size_fits (bytes_per_line desc.id bits (fit_width w)) (fit_height h)
          (omega (arith, line.tight, most)) h_max in
      record {
        entry = e;
        listed_code = k;
        width_min = w_min;
        width_max = w_max;
        width_aligned = w_mod;
        height_min = h_min;
        height_max = h_max;
        line_aligned = line.aligned;
        line_holds = line.holds;
        line_tight = line.tight;
        image_size = omega (arith, small);
        one_plane = refl;
      }

  try_of_choose :
      (type : BufType) (mp : PixMp) (e : ImageFmt)
      → choose_fmt desc mp.pixelformat ≡ some e
      → mtk_cam_vidioc_try_fmt desc type mp
        ≡ some (record {
          buf_type = type;
          fmt = pix_mp (fit desc.id e.pixelformat mp.width mp.height);
        })
  unfolding mtk_cam_vidioc_try_fmt
  try_of_choose type mp e h = rw (h, mtk_cam_vidioc_try_fmt)

  -- For a node whose default entry is listed, `mtk_cam_vidioc_try_fmt` answers every request, and
  -- the answer keeps the buffer type and is a format fit for the node: its code is one of the
  -- node's, its width is a multiple of 4 in 80..5376 and its height in 60..4032, its line is a
  -- multiple of 4 bytes that holds the line's samples with less than 8 bytes to spare, and its
  -- size is the product of the line and the height, which does not overflow 32 bits.
  pub mtk_cam_vidioc_try_fmt-IsFit :
      (type : BufType) (mp : PixMp)
      → (r : PixMp) × (mtk_cam_vidioc_try_fmt desc type mp
          ≡ some (record { buf_type = type; fmt = pix_mp r }))
        × IsFit desc r
  mtk_cam_vidioc_try_fmt-IsFit type mp =
      let (e, chosen) = choose_fmt_total desc d has mp.pixelformat in
      (
        fit desc.id e.pixelformat mp.width mp.height,
        try_of_choose type mp e chosen,
        fit-IsFit e.pixelformat e mp.width mp.height
            (choose_fmt-pixelformat desc d has mp.pixelformat e chosen),
      )

  choose_fit :
      (f : Fourcc) (e : ImageFmt) (w h : ℕ)
      → mtk_cam_dev_find_fmt desc f ≡ some e
      → choose_fmt desc (fit desc.id f w h).pixelformat ≡ some e
  unfolding choose_fmt fit
  choose_fit f e w h found = rw (found, choose_fmt)

  try_fit :
      (type : BufType) (e : ImageFmt) (w h : ℕ)
      → mtk_cam_dev_find_fmt desc e.pixelformat ≡ some e
      → let r = fit desc.id e.pixelformat w h in
        mtk_cam_vidioc_try_fmt desc type r ≡ some (record { buf_type = type; fmt = pix_mp r })
  try_fit type e w h found =
      let r = fit desc.id e.pixelformat w h in
      cc (
        try_of_choose type r e (choose_fit e.pixelformat e w h found),
        fit-fit desc.id e.pixelformat w h,
      )

  -- For such a node, a format that `mtk_cam_vidioc_try_fmt` gave is given again when it is asked
  -- for, unchanged.
  pub mtk_cam_vidioc_try_fmt_idempotent :
      (type : BufType) (mp r : PixMp)
      → mtk_cam_vidioc_try_fmt desc type mp ≡ some (record { buf_type = type; fmt = pix_mp r })
      → mtk_cam_vidioc_try_fmt desc type r ≡ some (record { buf_type = type; fmt = pix_mp r })
  mtk_cam_vidioc_try_fmt_idempotent type mp r h =
      let (e, chosen) = choose_fmt_total desc d has mp.pixelformat in
      let found = choose_fmt-pixelformat desc d has mp.pixelformat e chosen in
      cc (try_of_choose type mp e chosen, try_fit type e mp.width mp.height found)
