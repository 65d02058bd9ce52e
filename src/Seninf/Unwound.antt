-- ===== src/Seninf/Unwound.antt =====
-- What the registration of camera/driver/seninf/mtk_seninf.c leaves behind, and the ports of the
-- sensors it waits for.
use mt8183_kukui_pmos.Prelude.{
  ◌<◌, ◌≡◌, refl, arith, Bool-cases, Option-cases, ◌⊎◌, leb, true, false, List, [], ◌∷◌, Option,
  some, none, inl, inr,
}
use mt8183_kukui_pmos.Uapi.{Errno}
use mt8183_kukui_pmos.Seninf.State.{Seninf, num_sensors}
use mt8183_kukui_pmos.Seninf.Register.{
  Endpoint, parse_endpoint, SensorAsync, seninf_parse_fwnode, Held, nothing_held, Answers,
  seninf_initialize_controls, media_register_entity, mtk_seninf_media_register, seninf_probe,
}

-- Every connection has a sensor's port.
abbrev pub IsKnown : List SensorAsync → Type 0
IsKnown [] = Unit
IsKnown (c ∷ rest) = (c.port < num_sensors) × IsKnown rest

parse_endpoint-IsKnown :
    (e : Endpoint) (rest : Option Errno × List SensorAsync)
    → IsKnown rest.1
    → IsKnown (parse_endpoint e rest).1
unfolding parse_endpoint
parse_endpoint-IsKnown e (answer, connections) h = elim (Option-cases e.parse) [
  | inr (error, failed) ↦ rw failed tt
  | inl fine ↦ rw fine (elim (Bool-cases (leb num_sensors e.port)) [
    | inl far ↦ rw far h
    | inr near ↦ rw near (elim (Bool-cases e.is_csi2_dphy) [
      | inr alien ↦ rw alien h
      | inl dphy ↦ rw dphy (elim (Option-cases e.add) [
        | inr (error, failed) ↦ rw failed tt
        | inl added ↦ rw added (ground arith, h)
      ])
    ])
  ])
]

seninf_parse_fwnode-IsKnown : (es : List Endpoint) → IsKnown (seninf_parse_fwnode es).1
unfolding seninf_parse_fwnode
seninf_parse_fwnode-IsKnown [] = tt
seninf_parse_fwnode-IsKnown (e ∷ rest) =
    parse_endpoint-IsKnown e (seninf_parse_fwnode rest) (seninf_parse_fwnode-IsKnown rest)

-- What is held behind the result: all of it where the answer is 0, else neither the controls, nor
-- the entity, nor the subdevice.
abbrev pub IsUnwound : Option Errno → Held → Type 0
IsUnwound none h =
    (h.handler ≡ true) × (h.entity ≡ true) × (h.notifier ≡ true) × (h.subdev ≡ true) × (h.pm ≡ true)
IsUnwound (some e) h = (h.handler ≡ false) × (h.entity ≡ false) × (h.subdev ≡ false)

-- What an error leaves: connections only where an endpoint failed, and the notifier only where the
-- subdevice failed.
abbrev pub IsLeft : Answers → Option Errno → Held → Type 0
IsLeft a none h = Unit
IsLeft a (some e) h =
    ((h.connections ≡ []) ⊎ ((seninf_parse_fwnode a.endpoints).0 ≡ some e))
    × ((h.notifier ≡ false) ⊎ (a.register_subdev ≡ some e))

-- A state and a result of the registration; the flag of power management comes after it.
abbrev pub IsRegistered : Answers → Held × Option Errno → Type 0
IsRegistered a (h, answer) =
    let held = record h { pm = true } in
    IsKnown held.connections × (IsUnwound answer held × IsLeft a answer held)

media_register_entity-IsRegistered :
    (a : Answers)
    → IsRegistered a (media_register_entity a (record nothing_held { handler = true }))
unfolding media_register_entity
media_register_entity-IsRegistered a =
    let known = seninf_parse_fwnode-IsKnown a.endpoints in
    elim (Option-cases a.pads_init) [
      | inr (e, f) ↦ rw f (tt, ((refl, refl, refl), (inl refl, inl refl)))
      | inl f ↦ rw f (elim (Option-cases (seninf_parse_fwnode a.endpoints).0) [
        | inr (e, f1) ↦
            rw (f1, media_register_entity) (known, ((refl, refl, refl), (inr f1, inl refl)))
        | inl f1 ↦
            rw (f1, media_register_entity)
              (elim (Option-cases a.nf_register) [
                | inr (e, f2) ↦ rw f2 (tt, ((refl, refl, refl), (inl refl, inl refl)))
                | inl f2 ↦ rw f2 (elim (Option-cases a.register_subdev) [
                  | inr (e, f3) ↦ rw f3 (tt, ((refl, refl, refl), (inl refl, inr refl)))
                  | inl f3 ↦ rw f3 (known, ((refl, refl, refl, refl, refl), tt))
                ])
              ])
      ])
    ]

media_register-IsRegistered :
    (a : Answers) (s : Seninf) → IsRegistered a (mtk_seninf_media_register a s nothing_held).1
unfolding mtk_seninf_media_register seninf_initialize_controls
media_register-IsRegistered a s = elim (Option-cases a.handler_init) [
  | inr (e, f) ↦ rw f (tt, ((refl, refl, refl), (inl refl, inl refl)))
  | inl f ↦ rw f (elim (Option-cases a.handler_error) [
    | inr (e, f2) ↦ rw f2 (tt, ((refl, refl, refl), (inl refl, inl refl)))
    | inl f2 ↦ rw f2 (media_register_entity-IsRegistered a)
  ])
]

-- The probe of the interface, for any answers of the kernel and any endpoints: every connection that
-- it holds afterwards has one of the four sensors' ports; where it answers 0, the controls, the
-- entity, the notifier, the subdevice and power management are held, and where it answers with an
-- error, neither the controls, nor the entity, nor the subdevice. After an error, connections are
-- left only where an endpoint gave that error, and a registered notifier only where the registration
-- of the subdevice gave it.
pub seninf_probe-IsUnwound :
    (a : Answers) (s : Seninf)
    → (let (t, (h, answer)) = seninf_probe a s in
        IsKnown h.connections × (IsUnwound answer h × IsLeft a answer h))
unfolding seninf_probe
seninf_probe-IsUnwound a s = elim (Bool-cases a.kzalloc) [
  | inr f ↦ rw f (tt, ((refl, refl, refl), (inl refl, inl refl)))
  | inl f ↦ rw f (elim (Option-cases a.ioremap_base) [
    | inr (e, f1) ↦ rw f1 (tt, ((refl, refl, refl), (inl refl, inl refl)))
    | inl f1 ↦ rw f1 (elim (Option-cases a.ioremap_rx) [
      | inr (e, f2) ↦ rw f2 (tt, ((refl, refl, refl), (inl refl, inl refl)))
      | inl f2 ↦ rw f2 (elim (Bool-cases a.kcalloc) [
        | inr f3 ↦ rw f3 (tt, ((refl, refl, refl), (inl refl, inl refl)))
        | inl f3 ↦ rw f3 (elim (Option-cases a.clk_get) [
          | inr (e, f4) ↦ rw f4 (tt, ((refl, refl, refl), (inl refl, inl refl)))
          | inl f4 ↦ rw f4 (media_register-IsRegistered a s)
        ])
      ])
    ])
  ])
]
