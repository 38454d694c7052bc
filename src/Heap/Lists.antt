-- ===== src/Heap/Lists.antt =====
-- The free list as a list of its entries, and `free` on it.
use ikaros.Base.{
  ℕ, ◌+◌, ◌^◌, ◌≤◌, ◌<◌, ◌≡◌, ◌≢◌, ◌⊎◌, ◌∙◌, Option, none, some, List, [], ◌∷◌, arith, ◌==◌,
  if◌then◌else◌, All,
}
use ikaros.Heap.{size_of, next_of, set_next, set_size, header_size}
use ikaros.Heap.Words.{load_apart}

-- The address and the size of an entry.
pub record Entry : Type 0 where
  pub at : ℕ
  pub size : ℕ

abbrev pub top : Entry → ℕ
top e = e.at + e.size + header_size

-- The entries that a walk from `block` meets in the memory.
abbrev pub Chain : (ℕ → ℕ) → ℕ → List Entry → Type 0
Chain m block [] = block ≡ 0
Chain m block (e ∷ es) =
    (block ≡ e.at)
    × (e.at ≢ 0)
    × (top e < 2 ^ 32)
    × (size_of e.at m ≡ e.size)
    × Chain m (next_of e.at m) es

-- The headers at two addresses do not share a byte.
abbrev pub Apart : ℕ → ℕ → Type 0
Apart a a' = (a + 8 ≤ a') ⊎ (a' + 8 ≤ a)

abbrev pub ApartFrom : ℕ → List Entry → Type 0
ApartFrom a = All (λ e. Apart a e.at)

abbrev pub AllApart : List Entry → Type 0
AllApart [] = Unit
AllApart (e ∷ es) = ApartFrom e.at es × AllApart es

-- The block joined with the first entry next to it.
unfoldable pub join : Entry → List Entry → Option (List Entry)
join b [] = none
join b (e ∷ es) =
    if top b == e.at
    then some (record b { size = b.size + (header_size + e.size) } ∷ es)
    else if b.at == top e
    then some (record e { size = e.size + (header_size + b.size) } ∷ es)
    else elim (join b es) [ none ↦ none | some es' ↦ some (e ∷ es') ]

-- `free` on the entries: the block is joined, or else put in front.
unfoldable pub free_entries : Entry → List Entry → List Entry
unfolding join
free_entries b es = elim (join b es) [ none ↦ b ∷ es | some es' ↦ es' ]

-- The header at `a` is the same in both memories.
abbrev pub SameHeader : ℕ → (ℕ → ℕ) → (ℕ → ℕ) → Type 0
SameHeader a m' m = (next_of a m' ≡ next_of a m) × (size_of a m' ≡ size_of a m)

module _ (a c v : ℕ) (m : ℕ → ℕ) (apart : Apart a c) where
  pub set_next-SameHeader : SameHeader a (set_next c v m) m
  set_next-SameHeader =
      (load_apart c a v m (ground (arith, apart)), load_apart c (a + 4) v m (ground (arith, apart)))

  pub set_size-SameHeader : SameHeader a (set_size c v m) m
  set_size-SameHeader = (
    load_apart (c + 4) a v m (ground (arith, apart)),
    load_apart (c + 4) (a + 4) v m (ground (arith, apart)),
  )

pub trans-SameHeader :
    (a : ℕ) (m m' m'' : ℕ → ℕ) → SameHeader a m'' m' → SameHeader a m' m → SameHeader a m'' m
trans-SameHeader a m m' m'' (n2, s2) (n1, s1) = (n2 ∙ n1, s2 ∙ s1)

pub Chain-SameHeader :
    (m m' : ℕ → ℕ) (x : ℕ) (es : List Entry)
    → Chain m x es
    → All (λ e. SameHeader e.at m' m) es
    → Chain m' x es
Chain-SameHeader m m' x [] c same = c
Chain-SameHeader m m' x (e ∷ es) (here, real, bound, sized, rest) (same, sames) = (
  here,
  real,
  bound,
  same.1 ∙ sized,
  rw (same.0) (Chain-SameHeader m m' (next_of e.at m) es rest sames),
)

pub ApartFrom-map :
    (P : ℕ → Type 0) (a : ℕ) (es : List Entry)
    → ((a' : ℕ) → Apart a a' → P a')
    → ApartFrom a es
    → All (λ e. P e.at) es
ApartFrom-map P a [] f apart = tt
ApartFrom-map P a (e ∷ es) f (one, more) = (f e.at one, ApartFrom-map P a es f more)

pub Apart-sym : (a a' : ℕ) → Apart a a' → Apart a' a
Apart-sym a a' apart = ground (arith, apart)

pub Chain-bound : (m : ℕ → ℕ) (x : ℕ) (es : List Entry) → Chain m x es → x < 2 ^ 32
Chain-bound m x [] c = omega arith
Chain-bound m x (e ∷ es) (here, real, bound, _, _) = omega arith
