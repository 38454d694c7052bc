-- ===== src/Heap/Release.antt =====
-- `free` does on the free list in memory what `free_entries` does on its entries.
use ikaros.Base.{
  ℕ, zero, suc, ◌+◌, ◌-◌, ◌%◌, ◌^◌, ◌≤◌, ◌<◌, ◌≡◌, ◌≢◌, inl, inr, refl, ◌∙◌, subst, true, false,
  Option, none, some, List, [], ◌∷◌, arith, ◌==◌, Bool-cases, All, length,
}
use ikaros.Heap.{
  Heap, size_of, next_of, set_next, set_size, header_size, relink, merge_after, merge_before, push,
  end_of, Freed, freed, free_loop, free,
}
use ikaros.Heap.Words.{load-store, load_apart}
use ikaros.Heap.Lists.{
  Entry, top, Chain, Apart, ApartFrom, AllApart, join, free_entries, SameHeader,
  set_next-SameHeader, set_size-SameHeader, trans-SameHeader, Chain-SameHeader, Chain-bound,
  ApartFrom-map, Apart-sym,
}

-- The link that `prev` spells holds `x`.
abbrev Linked : ℕ → ℕ → Heap → Type 0
Linked prev x h = (prev ≡ 0 → h.freelist ≡ x) × (prev ≢ 0 → next_of prev h.memory ≡ x)

-- The entries from the link on are now `es'`; other headers are as before.
record Joined (b : Entry) (prev : ℕ) (es es' : List Entry) (h h' : Heap) : Type 0 where
  link : ℕ
  chain : Chain h'.memory link es'
  linked : Linked prev link h'
  kept : prev ≢ 0 → (h'.freelist ≡ h.freelist) × (size_of prev h'.memory ≡ size_of prev h.memory)
  frame :
      (a : ℕ)
      → Apart a b.at
      → ApartFrom a es
      → (prev ≢ 0 → Apart a prev)
      → SameHeader a h'.memory h.memory

abbrev JoinLem : Entry → ℕ → List Entry → Heap → Freed → Option (List Entry) → Type 0
JoinLem b prev es h r none = r ≡ freed (push b.at h)
JoinLem b prev es h r (some es') = (h' : Heap) × (r ≡ freed h') × Joined b prev es es' h h'

-- `relink` writes the link and nothing else.
record Relinked (prev x : ℕ) (h h' : Heap) : Type 0 where
  linked : Linked prev x h'
  kept : prev ≢ 0 → (h'.freelist ≡ h.freelist) × (size_of prev h'.memory ≡ size_of prev h.memory)
  frame : (a : ℕ) → (prev ≢ 0 → Apart a prev) → SameHeader a h'.memory h.memory

relink-Relinked : (prev x : ℕ) (h : Heap) → x < 2 ^ 32 → Relinked prev x h (relink prev x h)
unfolding relink
relink-Relinked prev x h bound = elim (Bool-cases (prev == 0)) [
  | inl front ↦
      let e : prev ≡ 0 = ground (arith, front) in
      rw front (record {
        linked = (λ _. refl, λ not. absurd (not e));
        kept = λ not. absurd (not e);
        frame = λ a apart. (refl, refl);
      })
  | inr behind ↦
      let e : prev ≢ 0 = ground (arith, behind) in
      rw behind (record {
        linked = (λ is. absurd (e is), λ _. load-store prev x h.memory bound);
        kept = λ _. (refl, load_apart prev (prev + 4) x h.memory (inr (omega arith)));
        frame = λ a apart. set_next-SameHeader a prev x h.memory (apart e);
      })
]

module _ (b : Entry) (prev : ℕ) (e : Entry) (es : List Entry) (h : Heap) (real : b.at ≢ 0)
    (bound : top b < 2 ^ 32) (sized : size_of b.at h.memory ≡ b.size)
    (apart : ApartFrom b.at (e ∷ es)) (all : AllApart (e ∷ es))
    (before : prev ≢ 0 → Apart prev b.at × ApartFrom prev (e ∷ es))
    (chain : Chain h.memory e.at (e ∷ es)) where
  abbrev sum : ℕ
  sum = (size_of b.at h.memory + (header_size + size_of e.at h.memory)) % 2 ^ 32

  abbrev sized_memory : ℕ → ℕ
  sized_memory = set_size b.at sum h.memory

  abbrev joined_memory : ℕ → ℕ
  joined_memory = set_next b.at (next_of e.at sized_memory) sized_memory

  abbrev joined_heap : Heap
  joined_heap = relink prev b.at (record h { memory = joined_memory })

  relinked : Relinked prev b.at (record h { memory = joined_memory }) joined_heap
  relinked = relink-Relinked prev b.at (record h { memory = joined_memory }) (omega (arith, bound))

  joined_away : (a : ℕ) → Apart a b.at → SameHeader a joined_memory h.memory
  joined_away a away =
      trans-SameHeader a h.memory sized_memory joined_memory
        (set_next-SameHeader a b.at (next_of e.at sized_memory) sized_memory away)
        (set_size-SameHeader a b.at sum h.memory away)

  link_kept : next_of e.at sized_memory ≡ next_of e.at h.memory
  link_kept = (set_size-SameHeader e.at b.at sum h.memory (Apart-sym b.at e.at apart.0)).0

  joined_next : next_of b.at joined_memory ≡ next_of e.at h.memory
  joined_next =
      let small = Chain-bound h.memory (next_of e.at h.memory) es chain.4 in
      load-store b.at (next_of e.at sized_memory) sized_memory (rw link_kept small) ∙ link_kept

  joined_size : size_of b.at joined_memory ≡ sum
  joined_size =
      load_apart b.at (b.at + 4) (next_of e.at sized_memory) sized_memory (inr (omega arith))
      ∙ load-store (b.at + 4) sum h.memory (omega arith)

  joined_frame :
      (a : ℕ) → Apart a b.at → (prev ≢ 0 → Apart a prev) → SameHeader a joined_heap.memory h.memory
  joined_frame a away behind =
      trans-SameHeader a h.memory joined_memory joined_heap.memory (relinked.frame a behind)
        (joined_away a away)

  -- The header of the block, after the links are written.
  joined_block : SameHeader b.at joined_heap.memory joined_memory
  joined_block = relinked.frame b.at (λ some. Apart-sym prev b.at (before some).0)

  tail_frame :
      (es' : List Entry)
      → ApartFrom b.at es'
      → (prev ≢ 0 → ApartFrom prev es')
      → All (λ e'. SameHeader e'.at joined_heap.memory h.memory) es'
  tail_frame [] from_b from_prev = tt
  tail_frame (e' ∷ es') (away, more) from_prev = (
    joined_frame e'.at (Apart-sym b.at e'.at away)
        (λ some. Apart-sym prev e'.at (from_prev some).0),
    tail_frame es' more (λ some. (from_prev some).1),
  )

  after-Joined :
      top b ≡ e.at
      → Joined b prev
          (e ∷ es)
          (record b { size = b.size + (header_size + e.size) } ∷ es)
          h
          (merge_after b.at prev e.at h)
  unfolding merge_after
  after-Joined next =
      let (_, _, below, size_e, rest) = chain in
      let link : next_of b.at joined_heap.memory ≡ next_of e.at h.memory =
        joined_block.0 ∙ joined_next in
      let tail =
        Chain-SameHeader h.memory joined_heap.memory (next_of e.at h.memory) es rest
          (tail_frame es apart.1 (λ some. (before some).1.1)) in
      record {
        link = b.at;
        chain = (
          refl,
          real,
          omega (arith, below, next),
          omega (arith, joined_block.1, joined_size, sized, size_e, below, next),
          rw link tail,
        );
        linked = relinked.linked;
        kept = λ some.
            ((relinked.kept some).0, (relinked.kept some).1 ∙ (joined_away prev (before some).0).1);
        frame = λ a from_b _ from_prev. joined_frame a from_b from_prev;
      }

  before-Joined :
      b.at ≡ top e
      → Linked prev e.at h
      → Joined b prev
          (e ∷ es)
          (record e { size = e.size + (header_size + b.size) } ∷ es)
          h
          (merge_before b.at e.at h)
  unfolding merge_before
  before-Joined next (front, behind) =
      let (_, real_e, below, size_e, rest) = chain in
      let v : ℕ = (size_of e.at h.memory + (header_size + size_of b.at h.memory)) % 2 ^ 32 in
      let m' = set_size e.at v h.memory in
      let away : (a : ℕ) → Apart a e.at → SameHeader a m' h.memory =
        λ a from_e. set_size-SameHeader a e.at v h.memory from_e in
      let same_next : next_of e.at m' ≡ next_of e.at h.memory =
        load_apart (e.at + 4) e.at v h.memory (inl (omega arith)) in
      let new_size = load-store (e.at + 4) v h.memory (omega arith) in
      let tail = Chain-SameHeader h.memory m' (next_of e.at h.memory) es rest (
        ApartFrom-map (λ a. SameHeader a m' h.memory) e.at es
          (λ a from_e. away a (Apart-sym e.at a from_e)) all.0) in
      record {
        link = e.at;
        chain = (
          refl,
          real_e,
          omega (arith, bound, next),
          omega (arith, new_size, sized, size_e, bound, next),
          rw same_next tail,
        );
        linked = (front, λ some. (away prev (before some).1.0).0 ∙ behind some);
        kept = λ some. (refl, (away prev (before some).1.0).1);
        frame = λ a _ from_es _. away a from_es.0;
      }

  -- The entry is passed: what follows it is joined.
  passed-Joined :
      (es' : List Entry) (h' : Heap)
      → Linked prev e.at h
      → Joined b e.at es es' h h'
      → Joined b prev (e ∷ es) (e ∷ es') h h'
  passed-Joined es' h' (front, behind) j =
      let (_, real_e, below, size_e, rest) = chain in
      let (same_list, same_size) = j.kept real_e in
      let at_prev : prev ≢ 0 → SameHeader prev h'.memory h.memory =
        λ some. j.frame prev (before some).0 (before some).1.1 (λ _. (before some).1.0) in
      record {
        link = e.at;
        chain = (refl, real_e, below, same_size ∙ size_e, rw (j.linked.1 real_e) j.chain);
        linked = (λ first. same_list ∙ front first, λ some. (at_prev some).0 ∙ behind some);
        kept = λ some. (same_list, (at_prev some).1);
        frame = λ a from_b from_es _. j.frame a from_b from_es.1 (λ _. from_es.0);
      }

  passed_lem :
      Linked prev e.at h
      → (r : Freed) (o : Option (List Entry)) → JoinLem b e.at es h r o
      → JoinLem b prev (e ∷ es) h r (elim o [ none ↦ none | some es' ↦ some (e ∷ es') ])
  passed_lem linked r none lem = lem
  passed_lem linked r (some es') (h', run, j) = (h', run, passed-Joined es' h' linked j)

module _ (b : Entry) (h : Heap) (real : b.at ≢ 0) (bound : top b < 2 ^ 32)
    (sized : size_of b.at h.memory ≡ b.size) where
  free_loop_lem :
      (fuel prev other : ℕ) (es : List Entry)
      → length es ≤ fuel
      → ApartFrom b.at es
      → AllApart es
      → (prev ≢ 0 → Apart prev b.at × ApartFrom prev es)
      → Chain h.memory other es
      → Linked prev other h
      → JoinLem b prev es h (free_loop fuel b.at prev other h) (join b es)
  unfolding free_loop join
  free_loop_lem zero prev other [] enough apart all before last linked = rw last refl
  free_loop_lem (suc fuel) prev other [] enough apart all before last linked =
      rw (last, free_loop) refl
  free_loop_lem zero prev other (e ∷ es) enough apart all before chain linked = absurd (omega arith)
  free_loop_lem (suc fuel) prev other (e ∷ es) enough apart all before chain linked =
      let (here, real_e, below, size_e, rest) = chain in
      let chain' : Chain h.memory e.at (e ∷ es) = (refl, real_e, below, size_e, rest) in
      let linked' : Linked prev e.at h = subst (λ x. Linked prev x h) here linked in
      let some : (e.at == 0) ≡ false = ground (arith, real_e) in
      let b_end : end_of b.at h.memory ≡ top b = omega (arith, sized, bound) in
      let e_end : end_of e.at h.memory ≡ top e = omega (arith, size_e, below) in
      elim (Bool-cases (top b == e.at)) [
        | inl next ↦
            rw (here, some, b_end, next)
              (
                _,
                refl,
                after-Joined b prev e es h real bound sized apart all before chain'
                    (ground (arith, next)),
              )
        | inr apart1 ↦ elim (Bool-cases (b.at == top e)) [
          | inl next ↦
              rw (here, some, b_end, apart1, e_end, next)
                (
                  _,
                  refl,
                  before-Joined b prev e es h real bound sized apart all before chain'
                      (ground (arith, next)) linked',
                )
          | inr apart2 ↦
              rw (here, some, b_end, apart1, e_end, apart2)
                (passed_lem b prev e es h real bound sized apart all before chain' linked' _
                  (join b es)
                  (free_loop_lem fuel e.at (next_of e.at h.memory) es (omega arith) apart.1 all.1
                    (λ _. (Apart-sym b.at e.at apart.0, all.0)) rest
                    ((λ zero_e. absurd (real_e zero_e)), λ _. refl)))
        ]
      ]

push-Chain :
    (b : Entry) (es : List Entry) (h : Heap)
    → b.at ≢ 0
    → top b < 2 ^ 32
    → size_of b.at h.memory ≡ b.size
    → ApartFrom b.at es
    → Chain h.memory h.freelist es
    → Chain (push b.at h).memory (push b.at h).freelist (b ∷ es)
unfolding push
push-Chain b es h real bound sized apart chain =
    let m' = set_next b.at h.freelist h.memory in
    let next : next_of b.at m' ≡ h.freelist =
      load-store b.at h.freelist h.memory (Chain-bound h.memory h.freelist es chain) in
    let rest = Chain-SameHeader h.memory m' h.freelist es chain (
      ApartFrom-map (λ a. SameHeader a m' h.memory) b.at es
        (λ a away. set_next-SameHeader a b.at h.freelist h.memory (Apart-sym b.at a away)) apart) in
    (
      refl,
      real,
      bound,
      load_apart b.at (b.at + 4) h.freelist h.memory (inr (omega arith)) ∙ sized,
      rw next rest,
    )

-- `free` of a block whose size is a multiple of 16, where the free list is a list of entries with
-- headers apart from each other and from the block's: the walk ends after at most one
-- round for each entry, and the list is then the one that `free_entries` says, the
-- block joined with the first entry that lies next to it, or in front of the list.
pub free-free_entries :
    (fuel : ℕ) (b : Entry) (es : List Entry) (h : Heap)
    → b.at ≢ 0
    → top b < 2 ^ 32
    → size_of b.at h.memory ≡ b.size
    → b.size % 16 ≡ 0
    → length es ≤ fuel
    → ApartFrom b.at es
    → AllApart es
    → Chain h.memory h.freelist es
    → (h' : Heap) × (free fuel (b.at + header_size) h ≡ freed h')
      × Chain h'.memory h'.freelist (free_entries b es)
unfolding free free_entries
free-free_entries fuel b es h real bound sized whole enough apart all chain =
    let address : (2 ^ 32 + (b.at + header_size) - header_size) % 2 ^ 32 ≡ b.at =
      omega (arith, bound) in
    let flags : (size_of b.at h.memory % 16 == 0) ≡ true = ground (arith, sized, whole) in
    rw (address, flags, free)
      (finish (join b es) (
        free_loop_lem b h real bound sized fuel 0 h.freelist es enough apart all
          (λ some. absurd (some refl)) chain ((λ _. refl), λ some. absurd (some refl))))
  where
    finish :
        (o : Option (List Entry))
        → JoinLem b 0 es h (free_loop fuel b.at 0 h.freelist h) o
        → (h' : Heap) × (free_loop fuel b.at 0 h.freelist h ≡ freed h')
          × Chain h'.memory h'.freelist (elim o [ none ↦ b ∷ es | some es' ↦ es' ])
    finish none run = (push b.at h, run, push-Chain b es h real bound sized apart chain)
    finish (some es') (h', run, j) = (h', run, rw (j.linked.0 refl) j.chain)
