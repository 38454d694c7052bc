-- ===== src/Memory/Map/Filled.antt =====
-- The map against the list of what was reported.
use ikaros.Base.{
  ℕ, zero, suc, ◌+◌, ◌-◌, ◌≤◌, ◌≡◌, refl, sym, ap, ◌∙◌, List, [], ◌∷◌, ◌++◌, ◌==◌, if◌then◌else◌,
  arith, length, length-append, take, Bool-cases, inl, inr,
}
use mathlib.Core.List.{append_assoc, append-nil}
use ikaros.Memory.Map.{
  MapEntry, MemoryMap, memory_map_initialize, memory_map_add_region, add_regions,
}

-- The entries of the available memory, in order.
abbrev pub available_of : List MapEntry → List MapEntry
available_of [] = []
available_of (e ∷ es) = let rest = available_of es in if e.type == 1 then e ∷ rest else rest

available_of-append :
    (xs ys : List MapEntry) → available_of (xs ++ ys) ≡ available_of xs ++ available_of ys
available_of-append [] ys = refl
available_of-append (x ∷ xs) ys = ground (arith, available_of-append xs ys)

available_of-snoc :
    (e : MapEntry) (es : List MapEntry)
    → (if e.type == 1 then available_of es ++ e ∷ [] else available_of es)
      ≡ available_of (es ++ e ∷ [])
available_of-snoc e es = elim (Bool-cases (e.type == 1)) [
  | inl yes_type ↦ rw yes_type (sym (available_of-append es (e ∷ []) ∙ rw yes_type refl))
  | inr other ↦
      rw other (sym (available_of-append es (e ∷ []) ∙ rw other (append-nil (available_of es))))
]

-- The map that holds `es`.
abbrev pub map_of : List MapEntry → MemoryMap
map_of es = record { entries = es; available = available_of es }

add_region-map_of :
    (e : MapEntry) (es : List MapEntry)
    → memory_map_add_region e (map_of es)
      ≡ (if length es == 32 then map_of es else map_of (es ++ e ∷ []))
unfolding memory_map_add_region
add_region-map_of e es = elim (Bool-cases (length es == 32)) [
  | inl full ↦ rw full refl
  | inr room ↦ rw room (
      ap {B = MemoryMap} (λ x. record { entries = es ++ e ∷ []; available = x })
        (available_of-snoc e es))
]

take-nil : (n : ℕ) → take {A = MapEntry} n [] ≡ []
take-nil zero = refl
take-nil (suc n) = refl

add_regions-map_of :
    (es fs : List MapEntry)
    → length fs ≤ 32
    → add_regions es (map_of fs) ≡ map_of (fs ++ take (32 - length fs) es)
unfolding add_regions
add_regions-map_of [] fs h =
    ap map_of (sym (append-nil fs) ∙ ap (λ x. fs ++ x) (sym (take-nil (32 - length fs))))
add_regions-map_of (e ∷ es) fs h = elim (Bool-cases (length fs == 32)) [
  | inl full ↦
      let none_left : 32 - length fs ≡ 0 = ground (arith, full) in
      let ih = add_regions-map_of es fs h in
      rw (add_region-map_of e fs) (rw full (ih ∙ rw none_left refl))
  | inr room ↦
      let size : length (fs ++ e ∷ []) ≡ length fs + 1 = length-append fs (e ∷ []) in
      let left : 32 - length fs ≡ suc (32 - (length fs + 1)) = ground (arith, room) in
      let ih = add_regions-map_of es (fs ++ e ∷ []) (ground (arith, size, room)) in
      rw (add_region-map_of e fs) (
        rw room (
          ih
          ∙ rw (size, left)
              (ap map_of (append_assoc fs (e ∷ []) (take (32 - (length fs + 1)) es)))))
]

-- After any number of reports from the empty map, the map holds the first 32 of them, and the entries
-- of available memory among those, in order.
pub add_regions-take :
    (es : List MapEntry) → add_regions es memory_map_initialize ≡ map_of (take 32 es)
unfolding memory_map_initialize
add_regions-take es = add_regions-map_of es [] (omega arith)
