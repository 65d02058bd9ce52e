-- ===== src/Present/Procs.antt =====
-- gpu/tools/vk-present-sync-layer.c: which functions the layer hands out by their names, and the
-- creation of a swapchain.
use mt8183_kukui_pmos.Prelude.{ℕ, Bool, false, Option, some, none}
use mt8183_kukui_pmos.Present.State.{Layer}
use mt8183_kukui_pmos.Present.Layer.{VkResult, error_initialization_failed, next_result, device_for}

-- The functions of the layer, which stand for the names they are handed out under too.
pub data Hook : Type 0 where
  hook_get_instance_proc hook_create_instance hook_create_device : Hook
  hook_get_device_proc hook_queue_present hook_create_swapchain hook_destroy_device : Hook

-- `pName`: the name of one of the layer's functions, or another one.
pub data Name : Type 0 where
  name_of : Hook → Name
  other_name : ℕ → Name

-- A function pointer: NULL, one of the layer, or the one that a `get_proc` below gives for a name.
pub data Proc : Type 0 where
  null : Proc
  own : Hook → Proc
  below : (get_proc : ℕ) → Name → Proc

-- The last two lines of `get_device_proc`; `none` is a NULL handle.
unfoldable pub next_device_proc : Option ℕ → Name → Layer → Proc
unfolding device_for
next_device_proc none name l = null
next_device_proc (some key) name l = elim (device_for key l.devices) [
  | none ↦ null
  | some d ↦ below d.next_functions name
]

-- `get_device_proc`; `is_off` is whether MALI_PRESENT_SYNC is "0".
unfoldable pub get_device_proc : (is_off : Bool) → Option ℕ → Name → Layer → Proc
get_device_proc is_off device (name_of hook_get_device_proc) l = own hook_get_device_proc
get_device_proc is_off device (name_of hook_destroy_device) l = own hook_destroy_device
get_device_proc is_off device (name_of hook_create_swapchain) l = own hook_create_swapchain
get_device_proc false device (name_of hook_queue_present) l = own hook_queue_present
get_device_proc is_off device name l = next_device_proc device name l

-- `get_instance_proc`, with the `get_instance_proc` below as `create_instance` left it.
unfoldable pub get_instance_proc : Option ℕ → Name → Proc
get_instance_proc next (name_of hook) = own hook
get_instance_proc none (other_name n) = null
get_instance_proc (some next) (other_name n) = below next (other_name n)

-- `VkSwapchainCreateInfoKHR`, with the fields that the layer passes on as one.
pub record SwapchainInfo : Type 0 where
  pub min_image_count : ℕ
  pub present_mode : ℕ
  pub rest : ℕ

-- `atoi` of MALI_SWAPCHAIN_IMAGES and of MALI_PRESENT_MODE, where they are set; a negative number is
-- its 32 bits.
pub record SwapchainEnv : Type 0 where
  pub images : Option ℕ
  pub mode : Option ℕ

abbrev pub or_else : Option ℕ → ℕ → ℕ
or_else none n = n
or_else (some m) n = m

-- `create_swapchain`: what the device's own `vkCreateSwapchainKHR` is called with, by the device's
-- functions, and the result.
unfoldable pub create_swapchain :
    (ℕ → SwapchainInfo → ℕ)
    → SwapchainEnv
    → ℕ
    → SwapchainInfo
    → Layer
    → Option (ℕ × SwapchainInfo) × VkResult
unfolding device_for
create_swapchain next env device info l = elim (device_for device l.devices) [
  | none ↦ (none, error_initialization_failed)
  | some d ↦
      let deeper = record info {
        min_image_count = or_else env.images info.min_image_count;
        present_mode = or_else env.mode info.present_mode;
      } in
      (some (d.next_functions, deeper), next_result (next d.next_functions deeper))
]
