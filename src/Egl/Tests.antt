-- ===== src/Egl/Tests.antt =====
-- Concrete calls of gpu/tools/egl-gbm-shim.c.
use mt8183_kukui_pmos.Prelude.{
  ◌+◌, ◌≡◌, refl, arith, true, false, ℕ, Option, some, none, List, [], ◌∷◌, inl,
}
use mt8183_kukui_pmos.Egl.Shim.{
  egl_query_string, own, egl_get_platform_display, Linker, Shim, next, egl_extensions,
  gbm_platform_extensions, platform_gbm_khr, default_display, get_platform_display, advertise,
  answer_query, query_string, get_proc_address, next_proc_address, driver_proc,
}
use mt8183_kukui_pmos.Egl.Advertised.{IsAdvertised, IsToldToClient, query_string-IsAdvertised}

-- A driver that can be opened and has all functions.
abbrev linker : Linker
linker = record { can_open = true; mali = λ name. some 5; rtld_next = λ name. none }

abbrev fresh : Shim
fresh = record { mali = false; advertised = [] }

-- The driver tells "EGL" for the client.
abbrev client_extensions : List ℕ
client_extensions = b'E' ∷ b'G' ∷ b'L' ∷ []

abbrev driver_string : ℕ → ℕ → ℕ → Option (List ℕ)
driver_string f dpy name = some client_extensions

asked :
    (query_string linker driver_string 0 egl_extensions fresh).1
    ≡ some (b'E' ∷ b'G' ∷ b'L' ∷ gbm_platform_extensions)
unfolding query_string answer_query advertise next
asked = refl

-- `eglQueryString` itself is looked up in the driver.
looked_up :
    ((get_proc_address linker (λ f. λ name. some 9) egl_query_string fresh).1
      ≡ some (driver_proc 9))
    × ((get_proc_address linker (λ f. λ name. some 9) egl_get_platform_display fresh).1
        ≡ some (own egl_get_platform_display))
unfolding get_proc_address next_proc_address next
looked_up = (refl, refl)

gbm_display :
    (get_platform_display egl_get_platform_display linker
      (λ f. f + 1)
      (λ f. λ p. 0)
      platform_gbm_khr
      fresh).1
    ≡ 6
unfolding get_platform_display default_display next
gbm_display = refl

query_string-IsAdvertised_example :
    (let told = (query_string linker driver_string 0 egl_extensions fresh).0 in
      IsAdvertised client_extensions told.advertised
      × ((query_string linker driver_string 0 egl_extensions told
            ≡ query_string linker driver_string 0 egl_extensions fresh)
          × IsToldToClient linker driver_string client_extensions fresh))
query_string-IsAdvertised_example =
    query_string-IsAdvertised linker driver_string client_extensions 0 egl_extensions fresh
      (λ g. refl) (omega arith, inl refl)
