-- ===== src/Present/Slots.antt =====
-- The entries of the swapchains in gpu/tools/vk-present-sync-layer.c.
use mt8183_kukui_pmos.Prelude.{
  ℕ, zero, suc, ◌+◌, ◌<◌, ◌≤◌, ◌≡◌, ◌≢◌, ◌⊎◌, refl, sym, ap, ◌∙◌, arith, ◌==◌, if◌then◌else◌,
  Bool-cases, false, ◌&&◌, inl, inr, some, none,
}
use mt8183_kukui_pmos.Present.State.{paced_swapchains}
use mt8183_kukui_pmos.Present.Pace.{search, entry_for}

-- Where the loop stops, and the free entry.
abbrev IsFound : ℕ → (ℕ → ℕ) → ℕ → ℕ × ℕ → Type 0
IsFound key swapchain from (i, slot) =
    (((i < paced_swapchains) × (swapchain i ≡ key))
      ⊎ ((i ≡ paced_swapchains) × ((k : ℕ) → from ≤ k → k < paced_swapchains → swapchain k ≢ key)))
    × ((slot ≡ paced_swapchains) ⊎ ((slot < paced_swapchains) × (swapchain slot ≡ 0)))

absent_from :
    (key : ℕ) (swapchain : ℕ → ℕ) (i : ℕ)
    → (swapchain i == key) ≡ false
    → ((k : ℕ) → i + 1 ≤ k → k < paced_swapchains → swapchain k ≢ key)
    → (k : ℕ) → i ≤ k
    → k < paced_swapchains
    → swapchain k ≢ key
absent_from key swapchain i there absent k l m own = elim (Bool-cases (k == i)) [
  | inl same ↦
      let e : k ≡ i = ground arith in
      let own_i : swapchain i ≡ key = ap swapchain (sym e) ∙ own in absurd (ground arith)
  | inr behind ↦ absent k (ground arith) m own
]

-- What the two tests after the loop choose.
chosen :
    (j slot i : ℕ)
    → (if j == paced_swapchains
        then (if slot == paced_swapchains then none else some slot)
        else some j)
      ≡ some i
    → ((j ≢ paced_swapchains) × (j ≡ i))
      ⊎ ((j ≡ paced_swapchains) × ((slot ≢ paced_swapchains) × (slot ≡ i)))
chosen j slot i h = elim (Bool-cases (j == paced_swapchains)) [
  | inr found ↦ let e : some j ≡ some i = rw found at h in inl (ground arith, cc)
  | inl over ↦ elim (Bool-cases (slot == paced_swapchains)) [
    | inl full ↦ let e : none ≡ some i = rw (over, full) at h in absurd (cc)
    | inr free ↦
        let e : some slot ≡ some i = rw (over, free) at h in inr (ground arith, (ground arith, cc))
  ]
]

search-IsFound :
    (key : ℕ) (swapchain : ℕ → ℕ) (rounds i slot : ℕ)
    → i + rounds ≡ paced_swapchains
    → (slot ≡ paced_swapchains) ⊎ ((slot < paced_swapchains) × (swapchain slot ≡ 0))
    → IsFound key swapchain i (search key swapchain rounds i slot)
unfolding search
search-IsFound key swapchain zero i slot h s =
    (inr (omega arith, λ k. λ l. λ m. absurd (omega arith)), s)
search-IsFound key swapchain (suc r) i slot h s = elim (Bool-cases (swapchain i == key)) [
  | inl here ↦ rw here (inl (omega arith, ground arith), s)
  | inr there ↦
      let free = (swapchain i == 0) && (slot == paced_swapchains) in
      let next = if free then i else slot in
      let vacant : (next ≡ paced_swapchains) ⊎ ((next < paced_swapchains) × (swapchain next ≡ 0)) =
        elim (Bool-cases free) [
          | inl yes' ↦ rw yes' (inr (omega arith, ground arith))
          | inr no' ↦ rw no' s
        ] in
      let (place, entry) = search-IsFound key swapchain r (i + 1) next (omega arith) vacant in
      rw there (
        elim place [
          | inl at ↦ inl at
          | inr (e, absent) ↦ inr (e, absent_from key swapchain i there absent)
        ],
        entry,
      )
]

-- The entry for a swapchain is in the array and is its own, or is free and no entry is its own.
pub entry_for_lem :
    (key i : ℕ) (swapchain : ℕ → ℕ)
    → entry_for key swapchain ≡ some i
    → (i < paced_swapchains)
      × ((swapchain i ≡ key)
          ⊎ ((swapchain i ≡ 0) × ((k : ℕ) → k < paced_swapchains → swapchain k ≢ key)))
unfolding entry_for
entry_for_lem key i swapchain h =
    let (place, entry) =
      search-IsFound key swapchain paced_swapchains 0 paced_swapchains refl (inl refl) in
    elim (chosen (search key swapchain paced_swapchains 0 paced_swapchains).0
      (search key swapchain paced_swapchains 0 paced_swapchains).1 i h) [
        | inl (inside, e) ↦ elim place [
          | inl (lt, own) ↦ (omega arith, inl (ap swapchain (sym e) ∙ own))
          | inr (past, absent) ↦ absurd (inside past)
        ]
        | inr (past, (free, e)) ↦ elim place [
          | inl (lt, own) ↦ absurd (omega arith)
          | inr (over, absent) ↦ elim entry [
            | inl none' ↦ absurd (free none')
            | inr (lt, empty) ↦ (
              omega arith,
              inr (ap swapchain (sym e) ∙ empty, λ k. λ l. absent k (omega arith) l),
            )
          ]
        ]
      ]
