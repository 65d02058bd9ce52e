-- ===== src/Format/Agree.antt =====
-- The `switch` tables of mtk_cam.c agree with one another.
use mt8183_kukui_pmos.Prelude.{
  ℕ, ◌+◌, ◌-◌, ◌*◌, ◌%◌, ◌≤◌, ◌≡◌, refl, ◌≢◌, ◌↔◌, ◌⊎◌, inl, inr, true, ◌||◌, List, [], ◌∷◌, ◌++◌,
  none, some, arith, All, Bool-cases,
}
use mt8183_kukui_pmos.Uapi.{Fourcc, same_fourcc, packed, full_g, standard8, MbusCode}
use mt8183_kukui_pmos.Format.Codes.{
  one_of, get_pixel_bits, get_img_fmt, img_fmt_unknown, raw_pxl_id_unknown, get_sensor_pixel_id,
  get_sensor_fmt, mtk_cam_fmt_to_mbus, mtk_cam_bayer_order,
}

pub one_of-append :
    (f : Fourcc) (xs ys : List Fourcc) → one_of f (xs ++ ys) ≡ (one_of f xs || one_of f ys)
unfolding one_of
one_of-append f [] ys = refl
one_of-append f (x ∷ xs) ys = ground (arith, one_of-append f xs ys)

pub same_fourcc→≡ : (f g : Fourcc) → same_fourcc f g ≡ true → f ≡ g
same_fourcc→≡ f g h = ground arith

-- What holds of all labels of a `switch` holds of a code that it takes.
pub one_of-All :
    (P : Fourcc → Type 0) (f : Fourcc) (xs : List Fourcc) → All P xs → one_of f xs ≡ true → P f
unfolding one_of
one_of-All P f [] ps h = absurd (cc)
one_of-All P f (x ∷ xs) ps h = elim (Bool-cases (same_fourcc f x)) [
  | inl e ↦ rw (same_fourcc→≡ f x e) ps.0
  | inr e ↦ one_of-All P f xs ps.1 (rw e at h)
]

-- Every code that the driver supports: the labels of `get_pixel_bits`.
abbrev pub supported : List Fourcc
supported =
    (packed b'8' ++ full_g b'8' ++ standard8)
    ++ (packed b'A' ++ full_g b'A')
    ++ (packed b'C' ++ full_g b'C')
    ++ (packed b'E' ++ full_g b'E')

-- A code is supported, or both tables answer 0.
pub supported_cases :
    (f : Fourcc)
    → (one_of f supported ≡ true) ⊎ ((get_pixel_bits f ≡ 0) × (get_img_fmt f ≡ img_fmt_unknown))
unfolding get_pixel_bits get_img_fmt
supported_cases f = ground (
  arith,
  one_of-append f (packed b'8' ++ full_g b'8' ++ standard8) (
      (packed b'A' ++ full_g b'A') ++ (packed b'C' ++ full_g b'C') ++ (packed b'E' ++ full_g b'E')),
  one_of-append f (packed b'A' ++ full_g b'A')
      ((packed b'C' ++ full_g b'C') ++ (packed b'E' ++ full_g b'E')),
  one_of-append f (packed b'C' ++ full_g b'C') (packed b'E' ++ full_g b'E'),
  one_of-append f (packed b'8') (full_g b'8' ++ standard8),
  one_of-append f (full_g b'8') standard8,
  one_of-append f (packed b'8') standard8,
  one_of-append f (packed b'A') (full_g b'A'),
  one_of-append f (packed b'C') (full_g b'C'),
  one_of-append f (packed b'E') (full_g b'E'),
)

-- The order of a code, or what stands for no order.
abbrev pub order_or : MbusCode → ℕ → ℕ
order_or c unknown = elim (mtk_cam_bayer_order c) [ none ↦ unknown | some n ↦ n ]

-- What the three tables say of one supported code.
record Consistent (f : Fourcc) : Type 0 where
  depth : get_pixel_bits f ≡ 8 + 2 * (get_img_fmt f % 4)
  known : 0x2200 ≤ get_img_fmt f
  bus_depth : get_sensor_fmt (mtk_cam_fmt_to_mbus f) ≡ 0x2200 + get_img_fmt f % 4
  bus_order : get_sensor_pixel_id (mtk_cam_fmt_to_mbus f) ≤ 3

supported-Consistent : All Consistent supported
unfolding get_pixel_bits get_img_fmt one_of get_sensor_fmt mtk_cam_fmt_to_mbus get_sensor_pixel_id
supported-Consistent = omega arith

-- The depth that `get_pixel_bits` gives a code and the number that `get_img_fmt` gives it agree:
-- both reject it with 0, or the number is an ISP format (0x2200 or more) whose two low bits count
-- the steps of two bits above a depth of 8.
pub get_pixel_bits-get_img_fmt :
    (f : Fourcc)
    → ((get_pixel_bits f ≡ 0) × (get_img_fmt f ≡ img_fmt_unknown))
      ⊎ ((get_pixel_bits f ≡ 8 + 2 * (get_img_fmt f % 4)) × (0x2200 ≤ get_img_fmt f))
get_pixel_bits-get_img_fmt f = elim (supported_cases f) [
  | inl yes' ↦
      let c = one_of-All Consistent f supported supported-Consistent yes' in inr (c.depth, c.known)
  | inr no' ↦ inl no'
]

-- For a code with a depth, the media bus code that `mtk_cam_fmt_to_mbus` derives from its letters
-- has a known pixel order, and `get_sensor_fmt` gives it the plain Bayer format of the same depth.
pub get_sensor_fmt-mtk_cam_fmt_to_mbus :
    (f : Fourcc)
    → get_pixel_bits f ≢ 0
    → (get_pixel_bits f ≡ 8 + 2 * (get_sensor_fmt (mtk_cam_fmt_to_mbus f) - 0x2200))
      × (0x2200 ≤ get_sensor_fmt (mtk_cam_fmt_to_mbus f))
      × (get_sensor_pixel_id (mtk_cam_fmt_to_mbus f) ≤ 3)
get_sensor_fmt-mtk_cam_fmt_to_mbus f h = elim (supported_cases f) [
  | inl yes' ↦
      let c = one_of-All Consistent f supported supported-Consistent yes' in
      (omega (arith, c.depth, c.bus_depth), omega (arith, c.bus_depth), c.bus_order)
  | inr no' ↦ absurd (h no'.0)
]

-- On media bus codes `get_sensor_pixel_id` is `mtk_cam_bayer_order`, with 4 for a code that has no
-- Bayer order; `get_sensor_fmt` knows exactly the codes that have one.
pub get_sensor_pixel_id-mtk_cam_bayer_order :
    (c : MbusCode)
    → (get_sensor_pixel_id c ≡ order_or c raw_pxl_id_unknown)
      × ((get_sensor_fmt c ≡ img_fmt_unknown) ↔ (mtk_cam_bayer_order c ≡ none))
unfolding get_sensor_pixel_id mtk_cam_bayer_order get_sensor_fmt
get_sensor_pixel_id-mtk_cam_bayer_order c = ground arith
