-- ===== src/Present/Layer.antt =====
-- gpu/tools/vk-present-sync-layer.c: the functions that the layer puts in front of a device's.
use mt8183_kukui_pmos.Prelude.{
  ℕ, ◌==◌, if◌then◌else◌, Bool, true, not, Option, some, none, List, [], ◌∷◌, ◌++◌,
}
use mt8183_kukui_pmos.Present.State.{
  Timespec, elapsed_us, DeviceData, wait_idle, present, destroy, Layer,
}
use mt8183_kukui_pmos.Present.Pace.{note_wait, PaceInput, pace}

-- `VkResult`, as far as the layer tells its values apart; `next_result` is one of the next layer.
pub data VkResult : Type 0 where
  success : VkResult
  error_initialization_failed : VkResult
  error_out_of_host_memory : VkResult
  next_result : ℕ → VkResult

-- `device_for`, by the key that `dispatch_key` reads through the handle of an object that is alive.
unfoldable pub device_for : ℕ → List DeviceData → Option DeviceData
device_for key [] = none
device_for key (d ∷ rest) = if d.key == key then some d else device_for key rest

-- What `create_device` gets: whether the chain has a link, the next layer's failure, the key of the
-- new device and whether `calloc` gave memory.
pub record NewDevice : Type 0 where
  pub has_chain : Bool
  pub failure : Option ℕ
  pub key : ℕ
  pub next_functions : ℕ
  pub memory : Bool

unfoldable pub create_device : NewDevice → Layer → Layer × VkResult
create_device a l = if not a.has_chain then (l, error_initialization_failed) else elim a.failure [
  | some e ↦ (l, next_result e)
  | none ↦ if not a.memory then (l, error_out_of_host_memory) else (
    record l { devices = record { key = a.key; next_functions = a.next_functions } ∷ l.devices },
    success,
  )
]

-- The loop of `destroy_device`, which takes off the entry that `device_for` found.
unfoldable pub unlink : ℕ → List DeviceData → List DeviceData
unlink key [] = []
unlink key (d ∷ rest) = if d.key == key then rest else d ∷ unlink key rest

unfoldable pub destroy_device : ℕ → Layer → Layer
unfolding device_for unlink
destroy_device key l = elim (device_for key l.devices) [
  | none ↦ l
  | some d ↦ record l { devices = unlink key l.devices; events = l.events ++ destroy key ∷ [] }
]

-- What `queue_present` reads: `MALI_PRESENT_NO_WAIT`, the clock around the wait, and what `pace` does.
pub record PresentInput : Type 0 where
  pub no_wait : Bool
  pub before : Timespec
  pub after : Timespec
  pub pace_input : PaceInput
  pub result : ℕ

-- `queue_present` of a queue with its dispatch key.
unfoldable pub queue_present : PresentInput → ℕ → ℕ → ℕ → ℕ → Layer → Layer × VkResult
unfolding device_for
queue_present p key queue count swapchain l = elim (device_for key l.devices) [
  | none ↦ (l, error_initialization_failed)
  | some d ↦
      let announced = record l { announced = true } in
      let waited =
        if p.no_wait
        then announced
        else note_wait (elapsed_us p.after p.before)
            (record announced { events = announced.events ++ wait_idle queue ∷ [] }) in
      let paced = pace p.pace_input count swapchain waited in
      (record paced { events = paced.events ++ present queue ∷ [] }, next_result p.result)
]
