-- ===== src/Present/Devices.antt =====
-- The list of devices of gpu/tools/vk-present-sync-layer.c as a finite map.
use mt8183_kukui_pmos.Prelude.{
  ℕ, ◌≡◌, refl, ap, ◌∙◌, arith, ◌==◌, if◌then◌else◌, Bool-cases, Bool, false, ◌&&◌, inl, inr, some,
  none, Option-cases, List, [], ◌∷◌,
}
use mt8183_kukui_pmos.Present.State.{DeviceData, Layer}
use mt8183_kukui_pmos.Present.Layer.{device_for, NewDevice, create_device, unlink, destroy_device}

-- No two devices of the list have the same key.
abbrev pub IsDistinct : List DeviceData → Type 0
IsDistinct [] = Unit
IsDistinct (d ∷ rest) = (device_for d.key rest ≡ none) × IsDistinct rest

device_for-unlink :
    (key other : ℕ) (ds : List DeviceData)
    → IsDistinct ds
    → device_for other (unlink key ds) ≡ (if other == key then none else device_for other ds)
unfolding device_for unlink
device_for-unlink key other [] h = elim (Bool-cases (other == key)) [
  | inl yes' ↦ rw yes' refl
  | inr no' ↦ rw no' refl
]
device_for-unlink key other (d ∷ rest) (fresh, h) = elim (Bool-cases (d.key == key)) [
  | inl own ↦ rw own (elim (Bool-cases (other == key)) [
    | inl yes' ↦ let same : other ≡ d.key = ground arith in rw (yes', same) fresh
    | inr no' ↦ let differ : (d.key == other) ≡ false = ground arith in rw (no', differ) refl
  ])
  | inr alien ↦ rw alien (elim (Bool-cases (d.key == other)) [
    | inl yes' ↦ let differ : (other == key) ≡ false = ground arith in rw (yes', differ) refl
    | inr no' ↦ rw no' (device_for-unlink key other rest h)
  ])
]

unlink-IsDistinct : (key : ℕ) (ds : List DeviceData) → IsDistinct ds → IsDistinct (unlink key ds)
unfolding unlink
unlink-IsDistinct key [] h = h
unlink-IsDistinct key (d ∷ rest) (fresh, h) = elim (Bool-cases (d.key == key)) [
  | inl own ↦ rw own h
  | inr alien ↦
      let gone = device_for-unlink key d.key rest h in
      rw alien ((gone ∙ rw (alien, fresh) refl), unlink-IsDistinct key rest h)
]

-- Whether `create_device` succeeds.
abbrev pub is_created : NewDevice → Bool
is_created a = elim a.failure [ none ↦ a.has_chain && a.memory | some e ↦ false ]

created_lem :
    (other : ℕ) (a : NewDevice) (l : Layer)
    → IsDistinct l.devices
    → device_for a.key l.devices ≡ none
    → (let made = (create_device a l).0 in
        (device_for other made.devices ≡ (
          if is_created a && (a.key == other)
          then some (record { key = a.key; next_functions = a.next_functions })
          else device_for other l.devices))
        × IsDistinct made.devices)
unfolding create_device device_for
created_lem other a l distinct new = elim (Bool-cases a.has_chain) [
  | inr none' ↦ rw none' (elim (Option-cases a.failure) [
    | inl fine ↦ rw fine (refl, distinct)
    | inr (e, failed) ↦ rw failed (refl, distinct)
  ])
  | inl linked ↦ rw linked (elim (Option-cases a.failure) [
    | inr (e, failed) ↦ rw failed (refl, distinct)
    | inl fine ↦ rw fine (elim (Bool-cases a.memory) [
      | inr full ↦ rw full (refl, distinct)
      | inl room ↦ rw room (refl, (new, distinct))
    ])
  ])
]

pub destroyed_lem :
    (key other : ℕ) (l : Layer)
    → IsDistinct l.devices
    → (let after = destroy_device key l in
        (device_for other after.devices
          ≡ (if other == key then none else device_for other l.devices))
        × IsDistinct after.devices)
unfolding destroy_device
destroyed_lem key other l distinct = elim (Option-cases (device_for key l.devices)) [
  | inr (d, found) ↦
      rw (found, destroy_device)
        (device_for-unlink key other l.devices distinct, unlink-IsDistinct key l.devices distinct)
  | inl absent ↦
      rw (absent, destroy_device)
        (elim (Bool-cases (other == key)) [
          | inr no' ↦ rw no' (refl, distinct)
          | inl yes' ↦
              let same : other ≡ key = ground arith in
              rw yes' (ap (λ k. device_for k l.devices) same ∙ absent, distinct)
        ])
]

-- The list of devices as a finite map, for a list without a key twice: a device created under a new
-- key is found under it, exactly where there is a link in the chain, the next layer succeeds and
-- memory is given; a destroyed device is not found any more; what is found under every other key
-- stays, and no key is in the list twice afterwards.
pub device_for_map :
    (key other : ℕ) (a : NewDevice) (l : Layer)
    → IsDistinct l.devices
    → device_for a.key l.devices ≡ none
    → (let made = (create_device a l).0 in
        let after = destroy_device key l in
        ((device_for other made.devices ≡ (
            if is_created a && (a.key == other)
            then some (record { key = a.key; next_functions = a.next_functions })
            else device_for other l.devices))
          × IsDistinct made.devices)
        × ((device_for other after.devices
              ≡ (if other == key then none else device_for other l.devices))
            × IsDistinct after.devices))
device_for_map key other a l distinct new =
    (created_lem other a l distinct new, destroyed_lem key other l distinct)
