-- ===== src/Present/State.antt =====
-- gpu/tools/vk-present-sync-layer.c: the state of the layer.
use mt8183_kukui_pmos.Prelude.{ℕ, ◌+◌, ◌-◌, ◌*◌, ◌/◌, leb, if◌then◌else◌, Bool, List}

-- `struct timespec`
pub record Timespec : Type 0 where
  pub sec : ℕ
  pub nsec : ℕ

-- `(now.tv_sec - last.tv_sec) * 1000000 + (now.tv_nsec - last.tv_nsec) / 1000` of two readings of a
-- clock that does not go back; the division of a negative difference rounds to zero.
unfoldable pub elapsed_us : Timespec → Timespec → ℕ
elapsed_us now last =
    let seconds = (now.sec - last.sec) * 1000000 in
    if leb last.nsec now.nsec
    then seconds + (now.nsec - last.nsec) / 1000
    else seconds - (last.nsec - now.nsec) / 1000

-- An entry of `seen`. The name of a swapchain is its handle; 0 is `VK_NULL_HANDLE`.
pub record Seen : Type 0 where
  pub swapchain : ℕ
  pub last : Timespec

-- An entry of `t` in `trace_present`.
pub record Traced : Type 0 where
  pub swapchain : ℕ
  pub d : ℕ → ℕ
  pub n : ℕ

abbrev pub paced_swapchains : ℕ
paced_swapchains = 16

abbrev pub trace_window : ℕ
trace_window = 120

-- The members of `struct device_data` that tell devices apart: the other ones are the next layer's
-- functions for it.
pub record DeviceData : Type 0 where
  pub key : ℕ
  pub next_functions : ℕ

-- What the layer does to the layers below it.
pub data Event : Type 0 where
  wait_idle : (queue : ℕ) → Event
  sleep_ns : ℕ → Event
  present : (queue : ℕ) → Event
  destroy : (device : ℕ) → Event

-- The variables of the file. Arrays are functions of their index.
pub record Layer : Type 0 where
  pub devices : List DeviceData
  pub announced : Bool
  pub seen : ℕ → Seen
  pub traced : ℕ → Traced
  pub wait_total : ℕ
  pub wait_max : ℕ
  pub wait_n : ℕ
  pub events : List Event
