-- ===== src/Heap/Backed.antt =====
-- The memory behind the heap: the pages that are mapped while it grows.
use ikaros.Base.{
  ℕ, ◌+◌, ◌*◌, ◌/◌, ◌%◌, ◌^◌, ◌≤◌, ◌<◌, ◌≡◌, ◌⊎◌, inl, inr, refl, ◌∙◌, List, [], ◌∷◌, ◌++◌, arith,
  ltb, length, length-append, Bool-cases, Bool,
}
use ikaros.Memory.Region.{State, page, alloc_page}
use ikaros.Memory.Region.Supply.{Gives, Gives-append, IsOneOf, IsOneOf-left, IsOneOf-right}
use ikaros.Memory.Paging.{Space, mapped, mm_get_physaddr}
use ikaros.Memory.Paging.Mapped.{HasTable, MappingLem, MappingLem-Gives}

-- An address that is read in the frame of one of the pages `ps`.
abbrev pub ReadIn : List ℕ → Space → ℕ → Type 0
ReadIn ps sp v =
    HasTable sp v × (p : ℕ) × IsOneOf p ps × (mm_get_physaddr v sp ≡ p % 2 ^ 20 * 4096 + v % 4096)

-- From `sp` to `sp'` the allocator gave the pages `ps`, at most two for each page of addresses, the
-- addresses from `a` up to `b` are read in them, and every other address that had a table is read as
-- before.
pub record Backed (sp : Space) (a b : ℕ) (ps : List ℕ) (sp' : Space) : Type 0 where
  pub given : Gives sp.allocator ps sp'.allocator
  pub few : a + length ps * 2048 ≤ b
  pub read : (v : ℕ) → a ≤ v → v < b → ReadIn ps sp' v
  pub others :
      (v : ℕ)
      → v < 1023 * 2 ^ 22
      → (v < a) ⊎ (b ≤ v)
      → HasTable sp v
      → HasTable sp' v × (mm_get_physaddr v sp' ≡ mm_get_physaddr v sp)

pub Backed-refl : (sp : Space) (a : ℕ) → Backed sp a a [] sp
Backed-refl sp a = record {
  given = refl;
  few = omega arith;
  read = λ v from below. absurd (omega arith);
  others = λ v hv out has. (has, refl);
}

pub Backed-trans :
    (sp sp1 sp2 : Space) (a b c : ℕ) (ps qs : List ℕ)
    → b ≤ 1023 * 2 ^ 22
    → Backed sp a b ps sp1
    → Backed sp1 b c qs sp2
    → Backed sp a c (ps ++ qs) sp2
Backed-trans sp sp1 sp2 a b c ps qs low one more = record {
  given = Gives-append sp.allocator sp1.allocator sp2.allocator ps qs one.given more.given;
  few = omega (arith, one.few, more.few, length-append ps qs);
  read = λ v from below. elim (Bool-cases (ltb v b)) [
    | inl first ↦
        let (has, p, is, at) = one.read v from (ground (arith, first)) in
        let (has2, same) =
          more.others v (ground (arith, first)) (inl (ground (arith, first))) has in
        (has2, p, IsOneOf-left p ps qs is, same ∙ at)
    | inr second ↦
        let (has, p, is, at) = more.read v (ground (arith, second)) below in
        (has, p, IsOneOf-right p ps qs is, at)
  ];
  others = λ v hv out has.
      let (has1, same1) = one.others v hv (ground (arith, out, more.few)) has in
      let (has2, same2) = more.others v hv (ground (arith, out, one.few)) has1 in
      (has2, same2 ∙ same1);
}

-- One page that the allocator gave, and the call of `mm_map_page` for it.
pub MappingLem-Backed :
    (sp sp1 : Space) (s : State) (p v : ℕ) (warned : Bool)
    → alloc_page sp.allocator ≡ page s p
    → v % 4096 ≡ 0
    → MappingLem (p % 2 ^ 20) v (record sp { allocator = s }) (mapped sp1 warned)
    → (ps : List ℕ) × Backed sp v (v + 4096) ps sp1
unfolding mm_get_physaddr
MappingLem-Backed sp sp1 s p v warned run start lem =
    let (qs, given, few) =
      MappingLem-Gives (p % 2 ^ 20) v (record sp { allocator = s }) sp1 warned lem in
    let (_, has, here, away, _, _) = lem in
    (
      p ∷ qs,
      record {
        given = (s, run, given);
        few = omega (arith, few);
        read = λ w from below.
            let e : w / 4096 ≡ v / 4096 = omega (arith, start) in
            let t : w / 2 ^ 22 ≡ v / 2 ^ 22 = omega arith in (rw t has, p, inl refl, here w e);
        others = λ w hw out has0. away w hw (ground (arith, out, start)) has0;
      },
    )
