-- ===== src/Memory/Region/Pages.antt =====
-- `memory_region_alloc_page` and `memory_region_dealloc_page`.
use ikaros.Base.{
  ℕ, zero, suc, ◌+◌, ◌<◌, ◌≡◌, refl, subst, inl, inr, none, some, List, [], ◌∷◌, ◌++◌, arith, ◌==◌,
  Bool-cases, length, All, take, drop,
}
use ikaros.Memory.Region.{
  Region, State, Found, found, null, fault, find_and_set, Alloc, page, from_root, from_last,
  alloc_page,
}
use ikaros.Memory.Region.Walk.{IsRegion, HitAt, AreFull, FirstFitAt, FoundLem, find_and_set_lem}

pub record IsState (s : State) : Type 0 where
  pub regions : All IsRegion s.chain
  pub points : s.last_free < length s.chain

FirstFitAt-HitAt :
    (chain chain' : List Region) (k p : ℕ) → FirstFitAt chain chain' k p → HitAt chain chain' k p
FirstFitAt-HitAt [] chain' k p f = f
FirstFitAt-HitAt (r ∷ rs) [] k p f = f
FirstFitAt-HitAt (r ∷ rs) (r' ∷ rs') zero p (h, same, _) = (h, same)
FirstFitAt-HitAt (r ∷ rs) (r' ∷ rs') (suc k) p (same, f, _) = (same, FirstFitAt-HitAt rs rs' k p f)

-- A hit behind the first `l` regions is a hit in the whole chain.
HitAt-take :
    (l : ℕ) (chain rs : List Region) (k p : ℕ)
    → HitAt (drop l chain) rs k p
    → HitAt chain (take l chain ++ rs) (l + k) p
HitAt-take zero chain rs k p h = let e : 0 + k ≡ k = omega arith in rw e h
HitAt-take (suc l) [] rs k p h = absurd h
HitAt-take (suc l) (r ∷ chain) rs k p h =
    let e : suc l + k ≡ suc (l + k) = omega arith in rw e (refl, HitAt-take l chain rs k p h)

HitAt-regions :
    (chain chain' : List Region) (k p : ℕ)
    → All IsRegion chain
    → HitAt chain chain' k p
    → All IsRegion chain'
HitAt-regions [] chain' k p is h = absurd h
HitAt-regions (r ∷ rs) [] k p is h = tt
HitAt-regions (r ∷ rs) (r' ∷ rs') zero p (is, rest) (h, same) = (
  record {
    bytes = h.takes.bytes;
    room = omega (arith, is.room, h.same_length, h.takes.same_length);
    bounded = omega (arith, is.bounded, h.same_length, h.same_base);
  },
  rw same rest,
)
HitAt-regions (r ∷ rs) (r' ∷ rs') (suc k) p (is, rest) (same, h) =
    (rw same is, HitAt-regions rs rs' k p rest h)

HitAt-lt : (chain chain' : List Region) (k p : ℕ) → HitAt chain chain' k p → k < length chain'
HitAt-lt [] chain' k p h = absurd h
HitAt-lt (r ∷ rs) [] k p h = absurd h
HitAt-lt (r ∷ rs) (r' ∷ rs') zero p h = omega arith
HitAt-lt (r ∷ rs) (r' ∷ rs') (suc k) p (same, h) = omega (arith, HitAt-lt rs rs' k p h)

AreFull-join :
    (l : ℕ) (chain : List Region)
    → AreFull (drop l chain) none
    → AreFull chain (some l)
    → AreFull chain none
AreFull-join zero chain f g = f
AreFull-join (suc l) [] f g = tt
AreFull-join (suc l) (r ∷ rs) f (full, g) = (full, AreFull-join l rs f g)

-- The contract of `alloc_page`.
abbrev pub AllocLem : State → Alloc → Type 0
AllocLem s (page s' p) =
    HitAt s.chain s'.chain s'.last_free p
    × IsState s'
    × (s.last_free ≡ 0 → FirstFitAt s.chain s'.chain s'.last_free p)
AllocLem s Alloc.minus_one = AreFull s.chain none
AllocLem s Alloc.fault = ⊥

module _ (s : State) (is : IsState s) where
  from_root_lem :
      (f : Found)
      → AreFull (drop s.last_free s.chain) none
      → FoundLem s.chain (some s.last_free) f
      → AllocLem s (from_root s f)
  unfolding from_root
  from_root_lem (found rs k p) tail fit =
      let h = FirstFitAt-HitAt s.chain rs k p fit in
      (
        h,
        record {
          regions = HitAt-regions s.chain rs k p is.regions h;
          points = HitAt-lt s.chain rs k p h;
        },
        λ _. fit,
      )
  from_root_lem null tail full = AreFull-join s.last_free s.chain tail full
  from_root_lem fault tail never = never

  All-drop : (l : ℕ) (chain : List Region) → All IsRegion chain → All IsRegion (drop l chain)
  All-drop zero chain h = h
  All-drop (suc l) [] h = tt
  All-drop (suc l) (r ∷ rs) (_, h) = All-drop l rs h

  at_root :
      (rs : List Region) (k p : ℕ) (l : ℕ)
      → l ≡ 0
      → FirstFitAt (drop l s.chain) rs k p
      → FirstFitAt s.chain (take l s.chain ++ rs) (l + k) p
  at_root rs k p zero e fit = let e' : 0 + k ≡ k = omega arith in rw e' fit
  at_root rs k p (suc l) e fit = absurd (omega arith)

  from_last_lem :
      (f : Found) → FoundLem (drop s.last_free s.chain) none f → AllocLem s (from_last s f)
  unfolding from_last
  from_last_lem (found rs k p) fit =
      let chain' = take s.last_free s.chain ++ rs in
      let h =
        HitAt-take s.last_free s.chain rs k p
          (FirstFitAt-HitAt (drop s.last_free s.chain) rs k p fit) in
      (
        h,
        record {
          regions = HitAt-regions s.chain chain' (s.last_free + k) p is.regions h;
          points = HitAt-lt s.chain chain' (s.last_free + k) p h;
        },
        λ e. at_root rs k p s.last_free e fit,
      )
  from_last_lem null tail = elim (Bool-cases (s.last_free == 0)) [
    | inl root ↦ rw root (
        let e : s.last_free ≡ 0 = ground arith in subst (λ l. AreFull (drop l s.chain) none) e tail)
    | inr later ↦ rw later (
        from_root_lem (find_and_set s.chain (some s.last_free)) tail
          (find_and_set_lem s.chain (some s.last_free) is.regions))
  ]
  from_last_lem fault never = never

  -- In a state of well-formed regions an allocation takes one clear page of the region that becomes
  -- the last free one, sets its digit and changes no other, and the state is well formed again; when
  -- the search begins at the root, it is the lowest such page of the first region that has one. If it
  -- answers -1, all the pages of whole words are taken in every region. It never leaves a bitmap.
  pub alloc_page_lem : AllocLem s (alloc_page s)
  unfolding alloc_page
  alloc_page_lem =
      from_last_lem (find_and_set (drop s.last_free s.chain) none)
        (find_and_set_lem (drop s.last_free s.chain) none (All-drop s.last_free s.chain is.regions))
