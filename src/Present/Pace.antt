-- ===== src/Present/Pace.antt =====
-- gpu/tools/vk-present-sync-layer.c: note_wait, trace_present and pace.
use mt8183_kukui_pmos.Prelude.{
  ℕ, zero, suc, ◌+◌, ◌-◌, ◌*◌, ◌==◌, ltb, if◌then◌else◌, Bool, ◌&&◌, not, Option, some, none, [],
  ◌∷◌, ◌++◌, u32,
}
use mt8183_kukui_pmos.Present.State.{
  Timespec, elapsed_us, Traced, paced_swapchains, trace_window, sleep_ns, Layer,
}

unfoldable pub note_wait : ℕ → Layer → Layer
note_wait us l = record l {
  wait_total = l.wait_total + us;
  wait_n = u32 (l.wait_n + 1);
  wait_max = if ltb l.wait_max us then us else l.wait_max;
}

-- The loop over an array of swapchains, from `i` on: where it stops, and the first free entry.
unfoldable pub search : ℕ → (ℕ → ℕ) → ℕ → ℕ → ℕ → ℕ × ℕ
search key swapchain zero i slot = (i, slot)
search key swapchain (suc rounds) i slot =
    let free = (swapchain i == 0) && (slot == paced_swapchains) in
    let rest = search key swapchain rounds (i + 1) (if free then i else slot) in
    if swapchain i == key then (i, slot) else rest

-- The entry for a swapchain: its own, or the first free one; `none` where neither exists.
unfoldable pub entry_for : ℕ → (ℕ → ℕ) → Option ℕ
unfolding search
entry_for key swapchain =
    let (i, slot) = search key swapchain paced_swapchains 0 paced_swapchains in
    if i == paced_swapchains then (if slot == paced_swapchains then none else some slot) else some i

abbrev pub set_at {ℓ} : {A : Type ℓ} → ℕ → A → (ℕ → A) → ℕ → A
set_at i new array k = if k == i then new else array k

-- `trace_present`; what it prints is left out.
unfoldable pub trace_present : ℕ → ℕ → Layer → Layer
trace_present key delta_us l = elim (entry_for key (λ k. (l.traced k).swapchain)) [
  | none ↦ l
  | some i ↦
      let old = l.traced i in
      let n = old.n + 1 in
      let new : Traced = record { swapchain = key; d = set_at old.n delta_us old.d; n = n } in
      if ltb n trace_window then record l { traced = set_at i new l.traced } else record l {
        traced = set_at i (record new { n = 0 }) l.traced;
        wait_total = 0;
        wait_max = 0;
        wait_n = 0;
      }
]

-- What `pace` reads: the interval of `pace_interval_us`, a negative one as 0, whether
-- `MALI_PRESENT_DEBUG` is set, and the clock before and after a sleep.
pub record PaceInput : Type 0 where
  pub interval : ℕ
  pub debug : Bool
  pub now : Timespec
  pub later : Timespec

-- `pace` behind the search for an entry.
unfoldable pub pace_entry : PaceInput → ℕ → ℕ → Layer → Layer
pace_entry p key i l =
    let last = (l.seen i).last in
    let waited = elapsed_us p.now last in
    let traced = if p.debug then trace_present key waited l else l in
    let sleeps = ltb waited p.interval in
    if last.sec == 0
    then record l { seen = set_at i (record { swapchain = key; last = p.now }) l.seen }
    else if sleeps
    then record traced {
      seen = set_at i (record { swapchain = key; last = p.later }) traced.seen;
      events = traced.events ++ sleep_ns ((p.interval - waited) * 1000) ∷ [];
    }
    else record traced { seen = set_at i (record { swapchain = key; last = p.now }) traced.seen }

-- `pace`, of the first of `count` swapchains.
unfoldable pub pace : PaceInput → ℕ → ℕ → Layer → Layer
pace p count key l =
    if count == 0
    then l
    else if (p.interval == 0) && not p.debug
    then l
    else elim (entry_for key (λ k. (l.seen k).swapchain)) [
      | none ↦ l
      | some i ↦ pace_entry p key i l
    ]
