-- ===== src/Present/Chain.antt =====
-- gpu/tools/vk-present-sync-layer.c: the link of the layer in the chain that the loader passes down,
-- and the creation of an instance and a device along it.
use mt8183_kukui_pmos.Prelude.{
  ℕ, ltb, if◌then◌else◌, Bool, true, false, ◌&&◌, Option, some, none, List, [], ◌∷◌,
}
use mt8183_kukui_pmos.Present.State.{Layer}
use mt8183_kukui_pmos.Present.Layer.{VkResult, success, error_initialization_failed, create_device}

-- `VkStructureType` of an entry of a `pNext` chain, as far as the layer tells its values apart.
pub data StructureType : Type 0 where
  loader_instance_create_info loader_device_create_info : StructureType
  structure_type : ℕ → StructureType

-- `VkLayerInstanceLink` or `VkLayerDeviceLink`: the next layer's functions, by their names.
pub record LayerLink : Type 0 where
  pub next_get_instance_proc : ℕ
  pub next_get_device_proc : ℕ

-- An entry of the chain: whether its `function` is `VK_LAYER_LINK_INFO`, and then its list of links.
pub record Entry : Type 0 where
  pub s_type : StructureType
  pub is_link_info : Bool
  pub layer_info : List LayerLink

-- The head of a list of links, and the links below it.
abbrev pub first_link : List LayerLink → Option LayerLink
first_link [] = none
first_link (l ∷ ls) = some l

abbrev pub next_links : List LayerLink → List LayerLink
next_links [] = []
next_links (l ∷ ls) = ls

abbrev pub same_type : StructureType → StructureType → Bool
same_type loader_instance_create_info loader_instance_create_info = true
same_type loader_device_create_info loader_device_create_info = true
same_type _ _ = false

-- The loop of `instance_chain` and `device_chain`: the chain from the entry found on; `[]` is NULL.
unfoldable pub find_link : StructureType → List Entry → List Entry
find_link t [] = []
find_link t (e ∷ rest) =
    if same_type e.s_type t && e.is_link_info then e ∷ rest else find_link t rest

unfoldable pub instance_chain : List Entry → List Entry
instance_chain chain = find_link loader_instance_create_info chain

unfoldable pub device_chain : List Entry → List Entry
device_chain chain = find_link loader_device_create_info chain

-- `chain->u.pLayerInfo = chain->u.pLayerInfo->pNext` on the entry that is found, in its chain.
unfoldable pub advance : StructureType → List Entry → List Entry
advance t [] = []
advance t (e ∷ rest) =
    if same_type e.s_type t && e.is_link_info
    then record e { layer_info = next_links e.layer_info } ∷ rest
    else e ∷ advance t rest

-- The layer's own link: `none` where there is no entry, and where the list of links is empty.
abbrev pub own_link : List Entry → Option LayerLink
own_link [] = none
own_link (e ∷ rest) = first_link e.layer_info

-- What `create_instance` calls: `vkCreateInstance` of the layer with a `get_instance_proc`, on the
-- chain with its links advanced.
abbrev pub NextInstance : Type 0
NextInstance = ℕ → List Entry → VkResult

-- `create_instance`: the value of `next_instance_proc` afterwards and the result. Outside, `none` is
-- the undefined behaviour of a NULL list of links.
unfoldable pub create_instance : NextInstance → List Entry → Option ℕ → Option (Option ℕ × VkResult)
create_instance next chain next_instance_proc = elim (instance_chain chain) [
  | [] ↦ some (next_instance_proc, error_initialization_failed)
  | e ∷ rest ↦ elim (own_link (e ∷ rest)) [
    | none ↦ none
    | some l ↦ some (
      some l.next_get_instance_proc,
      next l.next_get_instance_proc (advance loader_instance_create_info chain),
    )
  ]
]

-- What the next layer's `vkCreateDevice` gives on a chain: its failure or the new device's key; and
-- whether `calloc` gives memory then.
pub record NextDevice : Type 0 where
  pub failure : ℕ → List Entry → Option ℕ
  pub key : ℕ
  pub memory : Bool

-- `create_device` from the chain on; the rest of it is `create_device` of Present/Layer.
unfoldable pub create_device_on : NextDevice → List Entry → Layer → Option (Layer × VkResult)
create_device_on next chain l = elim (device_chain chain) [
  | [] ↦ some (l, error_initialization_failed)
  | e ∷ rest ↦ elim (own_link (e ∷ rest)) [
    | none ↦ none
    | some link ↦ some (
        create_device
          (record {
            has_chain = true;
            failure =
                next.failure link.next_get_instance_proc (advance loader_device_create_info chain);
            key = next.key;
            next_functions = link.next_get_device_proc;
            memory = next.memory;
          })
          l)
  ]
]

-- `vkNegotiateLoaderLayerInterfaceVersion`: the version agreed on, which the loader passes in.
unfoldable pub negotiate : ℕ → ℕ × VkResult
negotiate version = if ltb version 2 then (version, error_initialization_failed) else (2, success)
