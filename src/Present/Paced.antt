-- ===== src/Present/Paced.antt =====
-- The pace that gpu/tools/vk-present-sync-layer.c keeps.
use mt8183_kukui_pmos.Prelude.{
  ℕ, ◌+◌, ◌-◌, ◌*◌, ◌<◌, ◌≤◌, ◌≡◌, ◌≢◌, ◌⊎◌, refl, sym, ◌∙◌, arith, ◌==◌, ltb, leb, if◌then◌else◌,
  Bool-cases, true, false, ◌&&◌, not, inl, inr, some, Option-cases,
}
use mt8183_kukui_pmos.Present.State.{
  paced_swapchains, trace_window, Timespec, elapsed_us, Seen, Layer,
}
use mt8183_kukui_pmos.Present.Pace.{PaceInput, entry_for, pace, pace_entry, trace_present, set_at}
use mt8183_kukui_pmos.Present.Slots.{entry_for_lem}

trace_present-seen : (key us : ℕ) (l : Layer) → (trace_present key us l).seen ≡ l.seen
unfolding trace_present
trace_present-seen key us l = elim (Option-cases (entry_for key (λ k. (l.traced k).swapchain))) [
  | inl none' ↦ rw (none', trace_present) refl
  | inr (i, e) ↦
      rw (e, trace_present)
        (elim (Bool-cases (ltb ((l.traced i).n + 1) trace_window)) [
          | inl yes' ↦ rw yes' refl
          | inr no' ↦ rw no' refl
        ])
]

-- A reading of the clock in nanoseconds.
abbrev pub ns : Timespec → ℕ
ns t = t.sec * 1000000000 + t.nsec

-- The elapsed time is rounded up by less than a microsecond.
elapsed_us-ns :
    (now last : Timespec)
    → now.nsec < 1000000000
    → last.nsec < 1000000000
    → ns last ≤ ns now
    → ns last + elapsed_us now last * 1000 < ns now + 1000
unfolding elapsed_us
elapsed_us-ns now last h k l = elim (Bool-cases (leb last.nsec now.nsec)) [
  | inl yes' ↦ rw yes' (ground arith)
  | inr no' ↦ rw no' (ground arith)
]

-- What pacing leaves in the entries: the swapchain's own with its reading of the clock.
abbrev reading : PaceInput → Timespec → Timespec
reading p last =
    if last.sec == 0
    then p.now
    else if ltb (elapsed_us p.now last) p.interval
    then p.later
    else p.now

pace_entry-seen :
    (p : PaceInput) (key i : ℕ) (l : Layer)
    → (pace_entry p key i l).seen
      ≡ set_at i (record { swapchain = key; last = reading p (l.seen i).last }) l.seen
unfolding pace_entry
pace_entry-seen p key i l =
    let waited = elapsed_us p.now (l.seen i).last in
    elim (Bool-cases ((l.seen i).last.sec == 0)) [
      | inl first ↦ rw (first, pace_entry) refl
      | inr again ↦
          rw (again, pace_entry)
            (elim (Bool-cases (ltb waited p.interval)) [
              | inl sleeps ↦ rw sleeps (elim (Bool-cases p.debug) [
                | inl on ↦ rw (on, trace_present-seen key waited l) refl
                | inr off ↦ rw off refl
              ])
              | inr late ↦ rw late (elim (Bool-cases p.debug) [
                | inl on ↦ rw (on, trace_present-seen key waited l) refl
                | inr off ↦ rw off refl
              ])
            ])
    ]

-- A present of a swapchain that was presented before, with its entry found, an interval, readings of
-- the clock that do not go back and a sleep that lasts as long as it is asked to: the time recorded
-- for the swapchain is less than a microsecond short of the interval after the time recorded before,
-- and the entries of all other swapchains stay as they are.
pub pace-interval :
    (p : PaceInput) (count key i k : ℕ) (l : Layer)
    → count ≢ 0
    → p.interval ≢ 0
    → entry_for key (λ j. (l.seen j).swapchain) ≡ some i
    → k ≢ i
    → (l.seen i).last.sec ≢ 0
    → p.now.nsec < 1000000000
    → (l.seen i).last.nsec < 1000000000
    → ns (l.seen i).last ≤ ns p.now
    → ns p.now + (p.interval - elapsed_us p.now (l.seen i).last) * 1000 ≤ ns p.later
    → (let after = (pace p count key l).seen in
        ((after i).swapchain ≡ key)
        × ((ns (l.seen i).last + p.interval * 1000 < ns ((after i).last) + 1000)
            × (after k ≡ l.seen k)))
unfolding pace
pace-interval p count key i k l some_count some_interval found other before h1 h2 h3 slept =
    let counted : (count == 0) ≡ false = ground arith in
    let paced : (p.interval == 0) ≡ false = ground arith in
    let own : (i == i) ≡ true = ground arith in
    let alien : (k == i) ≡ false = ground arith in
    let again : ((l.seen i).last.sec == 0) ≡ false = ground arith in
    let near = elapsed_us-ns p.now (l.seen i).last h1 h2 h3 in
    let waited = elapsed_us p.now (l.seen i).last in
    let read = if ltb waited p.interval then p.later else p.now in
    let time : ns (l.seen i).last + p.interval * 1000 < ns read + 1000 =
      elim (Bool-cases (ltb waited p.interval)) [
        | inl short ↦ rw short (ground arith)
        | inr long' ↦ rw long' (ground arith)
      ] in
    rw (counted, paced, found, pace_entry-seen p key i l, own, alien, again, pace)
      (refl, (time, refl))

-- No swapchain has two entries.
abbrev pub IsTable : (ℕ → Seen) → Type 0
IsTable seen =
    (i k : ℕ)
    → i < paced_swapchains
    → k < paced_swapchains
    → (seen i).swapchain ≡ (seen k).swapchain
    → ((seen i).swapchain ≡ 0) ⊎ (i ≡ k)

set_at-IsTable :
    (key at : ℕ) (last : Timespec) (seen : ℕ → Seen)
    → IsTable seen
    → entry_for key (λ j. (seen j).swapchain) ≡ some at
    → IsTable (set_at at (record { swapchain = key; last = last }) seen)
set_at-IsTable key at last seen h found i k li lk =
    let (inside, place) = entry_for_lem key at (λ j. (seen j).swapchain) found in
    elim (Bool-cases (i == at)) [
      | inl yes_i ↦ rw yes_i (elim (Bool-cases (k == at)) [
        | inl yes_k ↦ rw yes_k (λ e. inr (ground arith))
        | inr no_k ↦ rw no_k (λ e. elim place [
          | inl own ↦ elim (h at k inside lk (own ∙ e)) [
            | inl empty ↦ inl (sym own ∙ empty)
            | inr same ↦ absurd (ground arith)
          ]
          | inr (empty, absent) ↦ absurd (absent k lk (sym e))
        ])
      ])
      | inr no_i ↦ rw no_i (elim (Bool-cases (k == at)) [
        | inl yes_k ↦ rw yes_k (λ e. elim place [
          | inl own ↦ elim (h i at li inside (e ∙ sym own)) [
            | inl empty ↦ inl empty
            | inr same ↦ absurd (ground arith)
          ]
          | inr (empty, absent) ↦ absurd (absent i li e)
        ])
        | inr no_k ↦ rw no_k (h i k li lk)
      ])
    ]

-- Pacing keeps the entries apart: where no swapchain has two entries, none has two after a present.
pub pace-IsTable :
    (p : PaceInput) (count key : ℕ) (l : Layer) → IsTable l.seen → IsTable (pace p count key l).seen
unfolding pace
pace-IsTable p count key l h = elim (Bool-cases (count == 0)) [
  | inl none' ↦ rw none' h
  | inr some' ↦ rw some' (elim (Bool-cases ((p.interval == 0) && not p.debug)) [
    | inl off ↦ rw off h
    | inr on ↦ rw on (elim (Option-cases (entry_for key (λ j. (l.seen j).swapchain))) [
      | inl full ↦ rw (full, pace) h
      | inr (i, found) ↦
          rw (found, pace, pace_entry-seen p key i l)
            (set_at-IsTable key i (reading p (l.seen i).last) l.seen h found)
    ])
  ])
]
