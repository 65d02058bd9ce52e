-- ===== src/Present/Linked.antt =====
-- The links that the layers of a chain take in gpu/tools/vk-present-sync-layer.c.
use mt8183_kukui_pmos.Prelude.{
  ℕ, zero, suc, ◌≡◌, refl, ap, ◌∙◌, if◌then◌else◌, Bool-cases, ◌&&◌, inl, inr, Option, some, sym,
  get_elem?, List, [], ◌∷◌,
}
use mt8183_kukui_pmos.Present.Chain.{
  StructureType, LayerLink, Entry, first_link, next_links, same_type, find_link, advance, own_link,
  loader_instance_create_info, instance_chain, NextInstance, create_instance,
}

-- The chain as `n` layers leave it that take their links.
abbrev pub advanced : ℕ → StructureType → List Entry → List Entry
advanced zero t chain = chain
advanced (suc n) t chain = advanced n t (advance t chain)

-- The links of the first entry for layers.
abbrev pub links : StructureType → List Entry → List LayerLink
links t [] = []
links t (e ∷ rest) = if same_type e.s_type t && e.is_link_info then e.layer_info else links t rest

first_link_lem : (ls : List LayerLink) → first_link ls ≡ get_elem? ls 0
first_link_lem [] = refl
first_link_lem (l ∷ ls) = refl

own_link-find_link :
    (t : StructureType) (chain : List Entry)
    → own_link (find_link t chain) ≡ get_elem? (links t chain) 0
unfolding find_link
own_link-find_link t [] = refl
own_link-find_link t (e ∷ rest) = elim (Bool-cases (same_type e.s_type t && e.is_link_info)) [
  | inl yes' ↦ rw yes' (first_link_lem e.layer_info)
  | inr no' ↦ rw no' (own_link-find_link t rest)
]

links-advance :
    (t : StructureType) (chain : List Entry)
    → links t (advance t chain) ≡ next_links (links t chain)
unfolding advance
links-advance t [] = refl
links-advance t (e ∷ rest) = elim (Bool-cases (same_type e.s_type t && e.is_link_info)) [
  | inl yes' ↦ rw (yes', advance, yes') refl
  | inr no' ↦ rw (no', advance, no') (links-advance t rest)
]

get_elem?-next_links :
    (n : ℕ) (ls : List LayerLink) → get_elem? (next_links ls) n ≡ get_elem? ls (suc n)
get_elem?-next_links n [] = refl
get_elem?-next_links n (l ∷ ls) = refl

own_link-advanced :
    (n : ℕ) (t : StructureType) (chain : List Entry)
    → own_link (find_link t (advanced n t chain)) ≡ get_elem? (links t chain) n
own_link-advanced zero t chain = own_link-find_link t chain
own_link-advanced (suc n) t chain =
    own_link-advanced n t (advance t chain)
    ∙ (ap (λ ls. get_elem? ls n) (links-advance t chain) ∙ get_elem?-next_links n (links t chain))

advance-advanced :
    (n : ℕ) (t : StructureType) (chain : List Entry)
    → advance t (advanced n t chain) ≡ advanced (suc n) t chain
advance-advanced zero t chain = refl
advance-advanced (suc n) t chain = advance-advanced n t (advance t chain)

own_link-cons :
    (chain : List Entry) (link : LayerLink)
    → own_link chain ≡ some link
    → (e : Entry) × (rest : List Entry) × (chain ≡ e ∷ rest)
own_link-cons [] link h = absurd (cc)
own_link-cons (e ∷ rest) link h = (e, rest, refl)

-- The layers of a chain, each of which takes the link it finds and passes the chain on with that
-- link taken off: `create_instance` of the `n`-th of them, where the first entry for layers has an
-- `n`-th link, keeps the next layer's lookup function of just that link, calls the instance creation
-- of that layer on the chain with one link less, and answers what that answers.
pub create_instance-advanced :
    (n : ℕ) (next : NextInstance) (chain : List Entry) (before : Option ℕ) (link : LayerLink)
    → get_elem? (links loader_instance_create_info chain) n ≡ some link
    → create_instance next (advanced n loader_instance_create_info chain) before
      ≡ some (
        some link.next_get_instance_proc,
        next link.next_get_instance_proc (advanced (suc n) loader_instance_create_info chain),
      )
unfolding create_instance instance_chain
create_instance-advanced n next chain before link h =
    let here = advanced n loader_instance_create_info chain in
    let found : own_link (find_link loader_instance_create_info here) ≡ some link =
      own_link-advanced n loader_instance_create_info chain ∙ h in
    let (e, rest, split) = own_link-cons (find_link loader_instance_create_info here) link found in
    let linked : own_link (e ∷ rest) ≡ some link = ap own_link (sym split) ∙ found in
    let down = advance-advanced n loader_instance_create_info chain in
    rw (create_instance, instance_chain, split, linked, down) refl
