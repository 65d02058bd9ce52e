-- ===== src/Egl/Shim.antt =====
-- gpu/tools/egl-gbm-shim.c: the functions that the shim puts in front of the driver's EGL. The dynamic
-- linker and the driver are arguments; a pointer to a function of theirs is a number.
use mt8183_kukui_pmos.Prelude.{
  ℕ, ◌+◌, ltb, ◌==◌, if◌then◌else◌, Bool, not, ◌||◌, Option, none, some, List, [], ◌∷◌, ◌++◌,
  length,
}

-- The names that the shim looks up and hands out, and any other one.
pub data Name : Type 0 where
  egl_get_display egl_get_platform_display_ext egl_get_platform_display : Name
  egl_query_string egl_query_display_attrib_ext egl_query_device_string_ext : Name
  egl_get_proc_address : Name
  other_name : ℕ → Name

-- Whether `dlopen` finds the driver, the driver's symbols, and those of `RTLD_NEXT`.
pub record Linker : Type 0 where
  pub can_open : Bool
  pub mali : Name → Option ℕ
  pub rtld_next : Name → Option ℕ

-- The static variables: whether `mali` is set, and the string in `advertised`.
pub record Shim : Type 0 where
  pub mali : Bool
  pub advertised : List ℕ

abbrev pub or_next : Option ℕ → Option ℕ → Option ℕ
or_next none f = f
or_next (some m) f = some m

unfoldable pub next : Linker → Name → Shim → Shim × Option ℕ
next k name s =
    let is_open = s.mali || k.can_open in
    (
      record s { mali = is_open },
      if is_open then or_next (k.mali name) (k.rtld_next name) else k.rtld_next name,
    )

abbrev pub platform_gbm_khr : ℕ
platform_gbm_khr = 0x31D7

abbrev pub egl_extensions : ℕ
egl_extensions = 0x3055

abbrev pub egl_device_ext : ℕ
egl_device_ext = 0x322C

abbrev pub drm_device_file_ext : ℕ
drm_device_file_ext = 0x3233

abbrev pub drm_render_node_file_ext : ℕ
drm_render_node_file_ext = 0x3377

-- A display is a number, and 0 is `EGL_NO_DISPLAY`. `get_display f` is what `f(NULL)` gives.
unfoldable pub default_display : Linker → (ℕ → ℕ) → Shim → Shim × ℕ
default_display k get_display s =
    let (after, f) = next k egl_get_display s in
    (after, elim f [ none ↦ 0 | some g ↦ get_display g ])

-- `eglGetPlatformDisplayEXT` and `eglGetPlatformDisplay`, by the name of the function; `real f` is
-- what `f` gives on the platform and the other arguments.
unfoldable pub get_platform_display : Name → Linker → (ℕ → ℕ) → (ℕ → ℕ → ℕ) → ℕ → Shim → Shim × ℕ
get_platform_display name k get_display real platform s =
    if platform == platform_gbm_khr
    then default_display k get_display s
    else let (after, f) = next k name s in (after, elim f [ none ↦ 0 | some g ↦ real g platform ])

-- " EGL_KHR_platform_gbm"
abbrev khr_platform_gbm : List ℕ
khr_platform_gbm =
    b' ' ∷ b'E' ∷ b'G' ∷ b'L' ∷ b'_' ∷ b'K' ∷ b'H' ∷ b'R' ∷ b'_' ∷ b'p' ∷ b'l' ∷ b'a' ∷ b't' ∷ b'f'
    ∷ b'o' ∷ b'r' ∷ b'm' ∷ b'_' ∷ b'g' ∷ b'b' ∷ b'm' ∷ []

-- " EGL_MESA_platform_gbm"
abbrev mesa_platform_gbm : List ℕ
mesa_platform_gbm =
    b' ' ∷ b'E' ∷ b'G' ∷ b'L' ∷ b'_' ∷ b'M' ∷ b'E' ∷ b'S' ∷ b'A' ∷ b'_' ∷ b'p' ∷ b'l' ∷ b'a' ∷ b't'
    ∷ b'f' ∷ b'o' ∷ b'r' ∷ b'm' ∷ b'_' ∷ b'g' ∷ b'b' ∷ b'm' ∷ []

-- " EGL_EXT_device_query"
abbrev ext_device_query : List ℕ
ext_device_query =
    b' ' ∷ b'E' ∷ b'G' ∷ b'L' ∷ b'_' ∷ b'E' ∷ b'X' ∷ b'T' ∷ b'_' ∷ b'd' ∷ b'e' ∷ b'v' ∷ b'i' ∷ b'c'
    ∷ b'e' ∷ b'_' ∷ b'q' ∷ b'u' ∷ b'e' ∷ b'r' ∷ b'y' ∷ []

-- " EGL_EXT_device_base"
abbrev ext_device_base : List ℕ
ext_device_base =
    b' ' ∷ b'E' ∷ b'G' ∷ b'L' ∷ b'_' ∷ b'E' ∷ b'X' ∷ b'T' ∷ b'_' ∷ b'd' ∷ b'e' ∷ b'v' ∷ b'i' ∷ b'c'
    ∷ b'e' ∷ b'_' ∷ b'b' ∷ b'a' ∷ b's' ∷ b'e' ∷ []

-- `GBM_PLATFORM_EXTENSIONS`, without the 0 at its end.
abbrev pub gbm_platform_extensions : List ℕ
gbm_platform_extensions =
    khr_platform_gbm ++ (mesa_platform_gbm ++ (ext_device_query ++ ext_device_base))

-- `sizeof(advertised)`
abbrev pub advertised_size : ℕ
advertised_size = 1024

-- The end of `eglQueryString`, for the client's extensions, which the driver gives as `value`.
-- `sizeof(GBM_PLATFORM_EXTENSIONS)` counts the 0 at the end.
unfoldable pub advertise : List ℕ → Shim → Shim × List ℕ
advertise value s = elim s.advertised [
  | c ∷ cs ↦ (s, c ∷ cs)
  | [] ↦
      let joined = value ++ gbm_platform_extensions in
      if ltb (length value + (length gbm_platform_extensions + 1)) advertised_size
      then (record s { advertised = joined }, joined)
      else (s, value)
]

-- `eglQueryString` from the driver's answer on.
unfoldable pub answer_query : ℕ → ℕ → Option (List ℕ) → Shim → Shim × Option (List ℕ)
answer_query dpy name value s =
    if not (dpy == 0) || not (name == egl_extensions) then (s, value) else elim value [
      | none ↦ (s, none)
      | some v ↦ let (told, answer) = advertise v s in (told, some answer)
    ]

-- `eglQueryString`; `real f` is what `f` gives on the display and the name.
unfoldable pub query_string :
    Linker → (ℕ → ℕ → ℕ → Option (List ℕ)) → ℕ → ℕ → Shim → Shim × Option (List ℕ)
query_string k real dpy name s =
    let (after, f) = next k egl_query_string s in
    answer_query dpy name (elim f [ none ↦ none | some g ↦ real g dpy name ]) after

-- A device: the shim's sentinel, or one of the driver's.
pub data Device : Type 0 where
  sentinel : Device
  driver_device : ℕ → Device

-- An attribute of a display: a device where the shim answers, else the driver's value.
pub data Attrib : Type 0 where
  device_attrib : Device → Attrib
  driver_attrib : ℕ → Attrib

-- `eglQueryDisplayAttribEXT`: the attribute, or `none` for EGL_FALSE.
unfoldable pub query_display_attrib_ext :
    Linker → (ℕ → ℕ → ℕ → Option ℕ) → ℕ → ℕ → Shim → Shim × Option Attrib
query_display_attrib_ext k real dpy attribute s =
    if attribute == egl_device_ext
    then (s, some (device_attrib sentinel))
    else let (after, f) = next k egl_query_display_attrib_ext s in
      (
        after,
        elim f [
          | none ↦ none
          | some g ↦ elim (real g dpy attribute) [ none ↦ none | some v ↦ some (driver_attrib v) ]
        ],
      )

-- What `eglQueryDeviceStringEXT` answers: one of its own two strings, or the driver's.
pub data DeviceString : Type 0 where
  own_extensions : DeviceString
  drm_node : DeviceString
  driver_string : ℕ → DeviceString

-- `drm_node` is MALI_EGL_DRM_NODE, or /dev/dri/card0.
unfoldable pub query_device_string_ext :
    Linker → (ℕ → ℕ → ℕ → Option ℕ) → Device → ℕ → Shim → Shim × Option DeviceString
query_device_string_ext k real sentinel name s =
    if name == egl_extensions
    then (s, some own_extensions)
    else if name == drm_device_file_ext
    then (s, some drm_node)
    else if name == drm_render_node_file_ext
    then (s, some drm_node)
    else (s, none)
query_device_string_ext k real (driver_device d) name s =
    let (after, f) = next k egl_query_device_string_ext s in
    (
      after,
      elim f [
        | none ↦ none
        | some g ↦ elim (real g d name) [ none ↦ none | some v ↦ some (driver_string v) ]
      ],
    )

-- A function pointer: one of the shim's, by its name, or the driver's.
pub data Proc : Type 0 where
  own : Name → Proc
  driver_proc : ℕ → Proc

-- What is behind the names of `eglGetProcAddress`.
unfoldable pub next_proc_address : Linker → (ℕ → Name → Option ℕ) → Name → Shim → Shim × Option Proc
next_proc_address k real name s =
    let (after, f) = next k egl_get_proc_address s in
    (
      after,
      elim f [
        | none ↦ none
        | some g ↦ elim (real g name) [ none ↦ none | some p ↦ some (driver_proc p) ]
      ],
    )

-- `eglGetProcAddress` of a name that is not NULL.
unfoldable pub get_proc_address : Linker → (ℕ → Name → Option ℕ) → Name → Shim → Shim × Option Proc
get_proc_address k real egl_get_platform_display_ext s =
    (s, some (own egl_get_platform_display_ext))
get_proc_address k real egl_get_platform_display s = (s, some (own egl_get_platform_display))
get_proc_address k real egl_query_display_attrib_ext s =
    (s, some (own egl_query_display_attrib_ext))
get_proc_address k real egl_query_device_string_ext s = (s, some (own egl_query_device_string_ext))
get_proc_address k real name s = next_proc_address k real name s
