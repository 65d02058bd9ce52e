-- ===== src/Present/Tests.antt =====
-- Concrete presents of gpu/tools/vk-present-sync-layer.c.
use mt8183_kukui_pmos.Prelude.{
  ◌+◌, ◌*◌, ◌<◌, ◌≤◌, ◌-◌, ◌≡◌, refl, arith, ◌==◌, ◌&&◌, if◌then◌else◌, true, false, some, none,
  List, [], ◌∷◌,
}
use mt8183_kukui_pmos.Present.State.{Layer, elapsed_us}
use mt8183_kukui_pmos.Present.Pace.{PaceInput, pace, entry_for, search}
use mt8183_kukui_pmos.Present.Layer.{
  NewDevice, device_for, create_device, destroy_device, next_result,
}
use mt8183_kukui_pmos.Present.Chain.{
  Entry, loader_device_create_info, loader_instance_create_info, create_instance,
}
use mt8183_kukui_pmos.Present.Linked.{advanced, create_instance-advanced}
use mt8183_kukui_pmos.Present.Paced.{ns, pace-interval}
use mt8183_kukui_pmos.Present.Devices.{IsDistinct, is_created, device_for_map}

-- Two devices, and the swapchains 7 and 9, of which 7 was presented at 5 s.
abbrev running : Layer
running = record {
  devices = record { key = 3; next_functions = 30 } ∷ record { key = 4; next_functions = 40 } ∷ [];
  announced = true;
  seen = λ i. record {
    swapchain = if i == 0 then 7 else if i == 1 then 9 else 0;
    last = record { sec = if i == 0 then 5 else 0; nsec = 0 };
  };
  traced = λ i. record { swapchain = 0; d = λ j. 0; n = 0 };
  wait_total = 0;
  wait_max = 0;
  wait_n = 0;
  events = [];
}

-- A present 4 ms later, with an interval of 16 ms and a sleep of 12 ms.
abbrev early : PaceInput
early = record {
  interval = 16000;
  debug = false;
  now = record { sec = 5; nsec = 4000000 };
  later = record { sec = 5; nsec = 16000500 };
}

found_7 : entry_for 7 (λ j. (running.seen j).swapchain) ≡ some 0
unfolding entry_for search
found_7 = refl

slept_12 :
    ns early.now + (early.interval - elapsed_us early.now (running.seen 0).last) * 1000
    ≤ ns early.later
unfolding elapsed_us
slept_12 = omega arith

pace-interval_example :
    (let after = (pace early 1 7 running).seen in
      ((after 0).swapchain ≡ 7)
      × ((ns (running.seen 0).last + 16000 * 1000 < ns ((after 0).last) + 1000)
          × (after 1 ≡ running.seen 1)))
pace-interval_example =
    pace-interval early 1 7 0 1 running (omega arith) (omega arith) found_7 (omega arith)
      (omega arith) (omega arith) (omega arith) (omega arith) slept_12

abbrev third : NewDevice
third = record { has_chain = true; failure = none; key = 5; next_functions = 50; memory = true }

device_for_map_example :
    (let made = (create_device third running).0 in
      let after = destroy_device 3 running in
      ((device_for 4 made.devices ≡ (
          if is_created third && (5 == 4)
          then some (record { key = 5; next_functions = 50 })
          else device_for 4 running.devices))
        × IsDistinct made.devices)
      × ((device_for 4 after.devices ≡ (if 4 == 3 then none else device_for 4 running.devices))
          × IsDistinct after.devices))
unfolding device_for
device_for_map_example = device_for_map 3 4 third running (refl, (refl, tt)) refl

-- A chain with an entry for devices and one for instances, of three layers.
abbrev three_layers : List Entry
three_layers =
    record { s_type = loader_device_create_info; is_link_info = true; layer_info = [] }
    ∷ record {
      s_type = loader_instance_create_info;
      is_link_info = true;
      layer_info =
          record { next_get_instance_proc = 11; next_get_device_proc = 21 }
          ∷ record { next_get_instance_proc = 12; next_get_device_proc = 22 }
          ∷ record { next_get_instance_proc = 13; next_get_device_proc = 23 }
          ∷ [];
    }
    ∷ []

create_instance-advanced_example :
    create_instance
      (λ f. λ chain. next_result f)
      (advanced 1 loader_instance_create_info three_layers)
      none
    ≡ some (some 12, next_result 12)
create_instance-advanced_example =
    create_instance-advanced 1 (λ f. λ chain. next_result f) three_layers none
      (record { next_get_instance_proc = 12; next_get_device_proc = 22 }) refl
