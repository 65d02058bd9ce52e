-- ===== src/Seninf/Negotiated.antt =====
-- Setting and getting the formats of the pads of camera/driver/seninf/mtk_seninf.c.
use mt8183_kukui_pmos.Prelude.{
  ℕ, ◌<◌, ◌≤◌, ◌≡◌, ◌≢◌, refl, ap, arith, Bool-cases, true, false, ltb, leb, ◌==◌, ◌&&◌, inl, inr,
  ◌^◌, ◌-◌,
}
use mt8183_kukui_pmos.Uapi.{MbusCode, other}
use mt8183_kukui_pmos.Seninf.State.{FrameFmt, num_pads, num_sensors, cam_mux_idx_min}
use mt8183_kukui_pmos.Seninf.Formats.{
  known_code, seninf_set_fmt, seninf_set_try_fmt, seninf_get_fmt, with_code, take_over, set_pad,
  set_sources,
}

-- A sink pad set and a source pad read back, in the active formats and in those of a state: the
-- source pad has the whole format that the call answered with, and the sink pad has its code, its
-- width and its height; the formats of the other sink pads stay as they are.
pub seninf_set_fmt-seninf_get_fmt :
    (pad q p : ℕ) (request : FrameFmt) (fmts : ℕ → FrameFmt)
    → pad < num_sensors
    → cam_mux_idx_min ≤ q
    → q < num_pads
    → p < num_sensors
    → p ≢ pad
    → (let (f, after) = seninf_set_fmt pad request fmts in
        let own = seninf_get_fmt pad after in
        (seninf_get_fmt q after ≡ f)
        × (own.code ≡ f.code)
        × (own.width ≡ f.width)
        × (own.height ≡ f.height)
        × (seninf_get_fmt p after ≡ seninf_get_fmt p fmts))
      × (let (f, after) = seninf_set_try_fmt pad request fmts in
          (seninf_get_fmt q after ≡ f)
          × (seninf_get_fmt pad after ≡ f)
          × (seninf_get_fmt p after ≡ seninf_get_fmt p fmts))
unfolding seninf_set_fmt seninf_set_try_fmt seninf_get_fmt
seninf_set_fmt-seninf_get_fmt pad q p request fmts h l m o differ =
    let is_sink : ltb pad num_sensors ≡ true = ground arith in
    let is_source : (leb cam_mux_idx_min q && ltb q num_pads) ≡ true = ground arith in
    let no_source : (leb cam_mux_idx_min pad && ltb pad num_pads) ≡ false = ground arith in
    let other_source : (leb cam_mux_idx_min p && ltb p num_pads) ≡ false = ground arith in
    let same : (pad == pad) ≡ true = ground arith in
    let other_pad : (p == pad) ≡ false = ground arith in
    rw is_sink (
      (
        rw is_source refl,
        rw (no_source, same) refl,
        rw (no_source, same) refl,
        rw (no_source, same) refl,
        rw (other_source, other_pad) refl,
      ),
      (rw is_source refl, rw (no_source, same) refl, rw (other_source, other_pad) refl),
    )

known_code_again : (c : MbusCode) → known_code (known_code c) ≡ known_code c
unfolding known_code
known_code_again (other n) = elim (Bool-cases (n == 2 ^ 32 - 1)) [
  | inl yes' ↦ rw yes' refl
  | inr no' ↦ rw no' (elim (Bool-cases (n == 0)) [
    | inl zero' ↦ rw zero' refl
    | inr some' ↦ rw some' (rw (no', some') refl)
  ])
]
known_code_again _ = refl

pad_again :
    (pad q : ℕ) (f : FrameFmt) (fmts : ℕ → FrameFmt)
    → (let own = set_pad pad (take_over f (fmts pad)) fmts in
        set_pad pad (take_over f (own pad)) own q ≡ own q)
pad_again pad q f fmts =
    let same : (pad == pad) ≡ true = ground arith in
    elim (Bool-cases (q == pad)) [ inl yes' ↦ rw (yes', same) refl | inr no' ↦ rw no' refl ]

sources_again :
    (pad q : ℕ) (f : FrameFmt) (fmts : ℕ → FrameFmt)
    → pad < num_sensors
    → (let own = set_sources f (set_pad pad (take_over f (fmts pad)) fmts) in
        set_sources f (set_pad pad (take_over f (own pad)) own) q ≡ own q)
sources_again pad q f fmts h =
    let no_source : (leb cam_mux_idx_min pad && ltb pad num_pads) ≡ false = ground arith in
    elim (Bool-cases (leb cam_mux_idx_min q && ltb q num_pads)) [
      | inl yes' ↦ rw yes' refl
      | inr no' ↦ rw (no', no_source) (pad_again pad q f fmts)
    ]

-- Asking for the format that a call answered with, once more on the same pad, answers with the same
-- format and leaves the formats of all pads as they are.
pub seninf_set_fmt_again :
    (pad q : ℕ) (request : FrameFmt) (fmts : ℕ → FrameFmt)
    → (let (f, after) = seninf_set_fmt pad request fmts in
        let (g, again) = seninf_set_fmt pad f after in
        (g ≡ f) × (seninf_get_fmt q again ≡ seninf_get_fmt q after))
unfolding seninf_set_fmt seninf_get_fmt
seninf_set_fmt_again pad q request fmts =
    let f = with_code request in
    (
      ap (λ c. record request { code = c }) (known_code_again request.code),
      elim (Bool-cases (ltb pad num_sensors)) [
        | inl yes' ↦
            rw (known_code_again request.code, yes') (sources_again pad q f fmts (ground arith))
        | inr no' ↦ rw (known_code_again request.code, no') (pad_again pad q f fmts)
      ],
    )
