-- ===== src/Egl/Advertised.antt =====
-- The string of extensions that gpu/tools/egl-gbm-shim.c advertises.
use mt8183_kukui_pmos.Prelude.{
  ℕ, ap, ◌≤◌, ◌+◌, ◌<◌, ◌≡◌, ◌⊎◌, refl, ◌∙◌, arith, ltb, ◌==◌, Bool, Bool-cases, Option-cases, true,
  false, not, ◌||◌, inl, inr, Option, none, some, List, [], ◌∷◌, ◌++◌, length, length-append,
}
use mt8183_kukui_pmos.Egl.Shim.{
  Name, Linker, Shim, next, egl_query_string, egl_extensions, gbm_platform_extensions,
  advertised_size, advertise, answer_query, query_string,
}

-- The buffer holds its string with the 0 at the end, and a string that is not empty is the driver's with
-- the shim's extensions behind it.
abbrev pub IsAdvertised : List ℕ → List ℕ → Type 0
IsAdvertised driver told =
    (length told + 1 < advertised_size) × ((told ≡ []) ⊎ (told ≡ driver ++ gbm_platform_extensions))

List-cases : (cs : List ℕ) → (cs ≡ []) ⊎ ((c : ℕ) × (rest : List ℕ) × (cs ≡ c ∷ rest))
List-cases [] = inl refl
List-cases (c ∷ cs) = inr (c, cs, refl)

advertise-IsAdvertised :
    (value : List ℕ) (s : Shim)
    → IsAdvertised value s.advertised
    → (let (after, answer) = advertise value s in IsAdvertised value after.advertised)
unfolding advertise
advertise-IsAdvertised value s told = elim (List-cases s.advertised) [
  | inr (c, cs, e) ↦ rw e (rw e at told)
  | inl e ↦
      rw e
        (elim (Bool-cases
          (ltb (length value + (length gbm_platform_extensions + 1)) advertised_size)) [
            | inl fits ↦
                let size = length-append value gbm_platform_extensions in
                rw fits (ground arith, inr refl)
            | inr long ↦ rw long (rw e at told)
          ])
]

advertise_again :
    (value : List ℕ) (s : Shim) → advertise value (advertise value s).0 ≡ advertise value s
unfolding advertise
advertise_again value s = elim (List-cases s.advertised) [
  | inr (c, cs, e) ↦ rw e refl
  | inl e ↦
      rw e
        (elim (Bool-cases
          (ltb (length value + (length gbm_platform_extensions + 1)) advertised_size)) [
            | inl fits ↦ rw fits (joined value s)
            | inr long ↦ rw (long, advertise, long) refl
          ])
]
  where
    joined :
        (value : List ℕ) (s : Shim)
        → advertise value (record s { advertised = value ++ gbm_platform_extensions }) ≡ (
          record s { advertised = value ++ gbm_platform_extensions },
          value ++ gbm_platform_extensions,
        )
    joined [] s = refl
    joined (c ∷ cs) s = refl

advertise_mali : (value : List ℕ) (s : Shim) → (advertise value s).0.mali ≡ s.mali
unfolding advertise
advertise_mali value s = elim (List-cases s.advertised) [
  | inr (c, cs, e) ↦ rw e refl
  | inl e ↦
      rw e
        (elim (Bool-cases
          (ltb (length value + (length gbm_platform_extensions + 1)) advertised_size)) [
            | inl fits ↦ rw fits refl
            | inr long ↦ rw long refl
          ])
]

or_again : (a b : Bool) → ((a || b) || b) ≡ (a || b)
or_again true b = refl
or_again false true = refl
or_again false false = refl

next_again :
    (k : Linker) (n : Name) (s t : Shim)
    → t.mali ≡ (s.mali || k.can_open)
    → next k n t ≡ (t, (next k n s).1)
unfolding next
next_again k n s t h =
    let e : (t.mali || k.can_open) ≡ t.mali = rw h (or_again s.mali k.can_open) in rw (e, h) refl

next_mali : (k : Linker) (n : Name) (s : Shim) → (next k n s).0.mali ≡ (s.mali || k.can_open)
unfolding next
next_mali k n s = refl

answer_query_mali :
    (dpy name : ℕ) (value : Option (List ℕ)) (s : Shim)
    → (answer_query dpy name value s).0.mali ≡ s.mali
unfolding answer_query
answer_query_mali dpy name value s =
    elim (Bool-cases (not (dpy == 0) || not (name == egl_extensions))) [
      | inl other ↦ rw other refl
      | inr own ↦ elim (Option-cases value) [
        | inl quiet ↦ rw (own, quiet) refl
        | inr (v, said) ↦ rw (own, said) (advertise_mali v s)
      ]
    ]

answer_query_again :
    (dpy name : ℕ) (value : Option (List ℕ)) (s : Shim)
    → answer_query dpy name value (answer_query dpy name value s).0 ≡ answer_query dpy name value s
unfolding answer_query
answer_query_again dpy name none s =
    elim (Bool-cases (not (dpy == 0) || not (name == egl_extensions))) [
      | inl other ↦ rw other refl
      | inr own ↦ rw own refl
    ]
answer_query_again dpy name (some v) s =
    elim (Bool-cases (not (dpy == 0) || not (name == egl_extensions))) [
      | inl other ↦ rw other refl
      | inr own ↦ rw (own, advertise_again v s) refl
    ]

answer_query-IsAdvertised :
    (driver : List ℕ) (dpy name : ℕ) (value : Option (List ℕ)) (s : Shim)
    → ((v : List ℕ) → dpy ≡ 0 → name ≡ egl_extensions → value ≡ some v → v ≡ driver)
    → IsAdvertised driver s.advertised
    → IsAdvertised driver (answer_query dpy name value s).0.advertised
unfolding answer_query
answer_query-IsAdvertised driver dpy name value s client told =
    elim (Bool-cases (not (dpy == 0) || not (name == egl_extensions))) [
      | inl other ↦ rw other told
      | inr own ↦ elim (Option-cases value) [
        | inl quiet ↦ rw (own, quiet) told
        | inr (v, said) ↦
            let same : v ≡ driver = client v (ground arith) (ground arith) said in
            rw (own, said, same) (advertise-IsAdvertised driver s told)
      ]
    ]

next_told :
    (driver : List ℕ) (k : Linker) (s : Shim)
    → IsAdvertised driver s.advertised
    → IsAdvertised driver (next k egl_query_string s).0.advertised
unfolding next
next_told driver k s told = told

-- What the driver tells, where its function is found.
told_by :
    (real : ℕ → ℕ → ℕ → Option (List ℕ)) (f : Option ℕ) (driver v : List ℕ) (dpy name : ℕ)
    → ((g : ℕ) → real g 0 egl_extensions ≡ some driver)
    → dpy ≡ 0
    → name ≡ egl_extensions
    → elim f [ none ↦ none | some g ↦ real g dpy name ] ≡ some v
    → v ≡ driver
told_by real none driver v dpy name client h k e = absurd (ground arith)
told_by real (some g) driver v dpy name client h k e =
    let said = client g in let same : some v ≡ some driver = cc in cc

-- The string for the client: the driver's with the extensions behind it, where it fits.
advertise_client :
    (driver : List ℕ) (s : Shim)
    → IsAdvertised driver s.advertised
    → ltb (length driver + (length gbm_platform_extensions + 1)) advertised_size ≡ true
    → (advertise driver s).1 ≡ driver ++ gbm_platform_extensions
unfolding advertise
advertise_client driver s told fits = elim (List-cases s.advertised) [
  | inl e ↦ rw (e, fits) refl
  | inr (c, cs, e) ↦ elim told.1 [
    | inl empty ↦ absurd (ground (arith, e, empty))
    | inr joined ↦ rw e (let same : c ∷ cs ≡ driver ++ gbm_platform_extensions = cc in same)
  ]
]

-- What a call for the client's extensions answers.
abbrev pub IsToldToClient : Linker → (ℕ → ℕ → ℕ → Option (List ℕ)) → List ℕ → Shim → Type 0
IsToldToClient k real driver s =
    ((next k egl_query_string s).1 ≡ none)
    ⊎ ((advertised_size ≤ length driver + (length gbm_platform_extensions + 1))
        ⊎ ((query_string k real 0 egl_extensions s).1 ≡ some (driver ++ gbm_platform_extensions)))

told_to_client :
    (k : Linker) (real : ℕ → ℕ → ℕ → Option (List ℕ)) (driver : List ℕ) (s : Shim)
    → ((g : ℕ) → real g 0 egl_extensions ≡ some driver)
    → IsAdvertised driver s.advertised
    → IsToldToClient k real driver s
unfolding query_string answer_query
told_to_client k real driver s client told = elim (Option-cases (next k egl_query_string s).1) [
  | inl absent ↦ inl absent
  | inr (g, found) ↦
      elim (Bool-cases
        (ltb (length driver + (length gbm_platform_extensions + 1)) advertised_size)) [
          | inr long ↦ inr (inl (ground arith))
          | inl fits ↦
              let answer =
                advertise_client driver (next k egl_query_string s).0 (next_told driver k s told)
                  fits in
              inr (inr (rw (found, client g) (ap some answer)))
        ]
]

-- Asking for a string, of a driver that tells `driver` for the client's extensions, from a buffer that
-- is empty or holds `driver` with the shim's four extensions behind it: so does the buffer afterwards,
-- with room for the 0 at its end; and asking again, with the same answers of the driver, answers the
-- same and changes nothing. Asking for the client's extensions answers `driver` with the four
-- extensions behind it, unless the driver's function is not found or the string does not fit.
pub query_string-IsAdvertised :
    (k : Linker) (real : ℕ → ℕ → ℕ → Option (List ℕ)) (driver : List ℕ) (dpy name : ℕ) (s : Shim)
    → ((g : ℕ) → real g 0 egl_extensions ≡ some driver)
    → IsAdvertised driver s.advertised
    → IsAdvertised driver (query_string k real dpy name s).0.advertised
      × ((query_string k real dpy name (query_string k real dpy name s).0
            ≡ query_string k real dpy name s)
          × IsToldToClient k real driver s)
unfolding query_string
query_string-IsAdvertised k real driver dpy name s client told =
    let (after, f) = next k egl_query_string s in
    let value : Option (List ℕ) = elim f [ none ↦ none | some g ↦ real g dpy name ] in
    let asked = (answer_query dpy name value after).0 in
    let kept : asked.mali ≡ (s.mali || k.can_open) =
      answer_query_mali dpy name value after ∙ next_mali k egl_query_string s in
    let again = next_again k egl_query_string s asked kept in
    (
      answer_query-IsAdvertised driver dpy name value after
          (λ v. λ h. λ l. λ e. told_by real f driver v dpy name client h l e)
          (next_told driver k s told),
      (
        rw again (answer_query_again dpy name value after),
        told_to_client k real driver s client told,
      ),
    )
