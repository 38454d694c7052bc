-- ===== src/Memory/Boot/Taken.antt =====
-- The allocator as the boot code leaves it: the last candidate of the map, less the kernel.
use ikaros.Base.{
  ℕ, ◌+◌, ◌-◌, ◌*◌, ◌/◌, ◌%◌, ◌^◌, ◌≤◌, ◌<◌, ◌≡◌, refl, ◌∙◌, true, false, some, List, [], ◌∷◌, ◌++◌,
  arith, ltb, if◌then◌else◌, All, Bool-cases, inl, inr, replicate,
}
use ikaros.Memory.Region.{Region, State, early_init, memory_bitmap_size}
use ikaros.Memory.Region.Pages.{IsState}
use ikaros.Memory.Region.Order.{
  Filled, alloc_pages, pages_from, alloc_pages-Filled, early_init-Filled,
}
use ikaros.Memory.Map.{MapEntry}
use ikaros.Memory.Boot.{
  is_candidate, pages_of, init_regions, mark_regions, mark_kernel, boot_memory, page_size,
}
use ikaros.Memory.Boot.Reserved.{
  Reserved, AllOutside, Overlapped, mark_overlap-Overlapped, alloc_pages-Reserved,
}

init_regions-none :
    (es : List MapEntry) (s : State) → All (λ e. is_candidate e ≡ false) es → init_regions es s ≡ s
unfolding init_regions
init_regions-none [] s _ = refl
init_regions-none (e ∷ es) s (not, nots) = rw (not, init_regions) (init_regions-none es s nots)

init_regions-last :
    (es post : List MapEntry) (e : MapEntry) (s : State)
    → is_candidate e ≡ true
    → All (λ e'. is_candidate e' ≡ false) post
    → init_regions (es ++ e ∷ post) s ≡ early_init (e.addr / page_size) (pages_of e)
unfolding init_regions
init_regions-last [] post e s is nots = rw (is, init_regions) (init_regions-none post _ nots)
init_regions-last (e' ∷ es) post e s is nots = init_regions-last es post e _ is nots

-- The first page of the kernel, and the one at which the boot code stops.
abbrev pub kernel_page : ℕ → ℕ
kernel_page address = (2 ^ 32 + address - 3221225472) % 2 ^ 32 / page_size

module _ (base len lo hi : ℕ) (fits : len ≤ 8 * memory_bitmap_size)
    (bounded : base + len < 2 ^ 32) where
  abbrev fresh : Region
  fresh = record { base = base; length = len; bitmap = replicate memory_bitmap_size 0 }

  early_chain : early_init base len ≡ record { chain = fresh ∷ []; last_free = 0 }
  unfolding early_init
  early_chain =
      let plain : (if ltb (memory_bitmap_size * 32) len then memory_bitmap_size * 32 else len)
          ≡ len =
        ground arith in
      rw plain refl

  start_Filled : Filled base len 0 (record { chain = fresh ∷ []; last_free = 0 })
  start_Filled = early_init-Filled memory_bitmap_size base len fits bounded

  marked_lem :
      (r : Region) × (mark_regions 1 lo hi (fresh ∷ []) ≡ some (r ∷ [])) × Overlapped fresh lo hi r
  unfolding mark_regions
  marked_lem =
      let (r, run, o) = mark_overlap-Overlapped lo hi fresh [] start_Filled.valid.regions.0 in
      (r, rw (run, mark_regions) refl, o)

  Overlapped-IsState :
      (r : Region) → Overlapped fresh lo hi r → IsState (record { chain = r ∷ []; last_free = 0 })
  Overlapped-IsState r o = record { regions = (o.valid, tt); points = omega arith }

  Overlapped-Reserved : (r : Region) → Overlapped fresh lo hi r → Reserved lo hi r
  Overlapped-Reserved r o p above below from upto =
      ground (arith, o.digits (p - base), o.same_base, o.same_length)

  -- The kernel at the front of the region.
  Overlapped-Filled :
      (r : Region)
      → Overlapped fresh lo hi r
      → lo ≡ base
      → base ≤ hi
      → hi ≤ base + len
      → Filled base len (hi - base) (record { chain = r ∷ []; last_free = 0 })
  Overlapped-Filled r o front above below = record {
    valid = Overlapped-IsState r o;
    at_root = refl;
    region = r;
    alone = refl;
    same_base = o.same_base;
    same_length = o.same_length;
    digits = λ q. elim (Bool-cases (ltb q len)) [
      | inl inside ↦ ground (arith, o.digits q, start_Filled.digits q)
      | inr outside ↦ ground (arith, o.beyond q, start_Filled.digits q)
    ];
  }

module _ (es post : List MapEntry) (e : MapEntry) (start end : ℕ) (s0 : State)
    (is : is_candidate e ≡ true) (nots : All (λ e'. is_candidate e' ≡ false) post)
    (low : e.addr < 2 ^ 32) where
  abbrev base : ℕ
  base = e.addr / page_size

  fits : pages_of e ≤ 8 * memory_bitmap_size
  unfolding pages_of
  fits = ground arith

  bounded : base + pages_of e < 2 ^ 32
  bounded = omega (arith, fits)

  boot_lem :
      (r : Region) × (boot_memory (es ++ e ∷ post) start end s0
        ≡ some (record { chain = r ∷ []; last_free = 0 }))
      × Overlapped
          (fresh base (pages_of e) (kernel_page start) (kernel_page end) fits bounded)
          (kernel_page start)
          (kernel_page end)
          r
  unfolding boot_memory mark_kernel
  boot_lem =
      let (r, run, o) =
        marked_lem base (pages_of e) (kernel_page start) (kernel_page end) fits bounded in
      let chain =
        early_chain base (pages_of e) (kernel_page start) (kernel_page end) fits bounded in
      let e1 = init_regions-last es post e s0 is nots ∙ chain in
      (r, rw (e1, boot_memory) (rw (run, mark_kernel) refl), o)

  -- After the boot code, whose map has a last candidate with an address below 2^32, no allocation
  -- gives a page of the kernel: none from the page where it starts up to, and without, the page of
  -- its end.
  pub boot_memory-Outside :
      (s : State) × (boot_memory (es ++ e ∷ post) start end s0 ≡ some s)
      × IsState s
      × ((n : ℕ) (ps : List ℕ)
          → alloc_pages n s ≡ some ps
          → AllOutside (kernel_page start) (kernel_page end) ps)
  boot_memory-Outside =
      let (r, run, o) = boot_lem in
      let lo = kernel_page start in
      let hi = kernel_page end in
      let is' = Overlapped-IsState base (pages_of e) lo hi fits bounded r o in
      let kept = Overlapped-Reserved base (pages_of e) lo hi fits bounded r o in
      (_, run, is', λ n ps done. alloc_pages-Reserved lo hi n _ ps is' (kept, tt) done)

  -- Where the kernel starts on the first page of that region and ends inside of it, the pages after
  -- the boot code are those from the page of the kernel's end on, in order.
  pub boot_memory-pages_from :
      kernel_page start ≡ base
      → kernel_page start ≤ kernel_page end
      → (n : ℕ) → kernel_page end + n ≤ base + pages_of e / 32 * 32
      → (s : State) × (boot_memory (es ++ e ∷ post) start end s0 ≡ some s)
        × (alloc_pages n s ≡ some (pages_from (kernel_page end) n))
  boot_memory-pages_from front order n enough =
      let (r, run, o) = boot_lem in
      let lo = kernel_page start in
      let hi = kernel_page end in
      let f =
        Overlapped-Filled base (pages_of e) lo hi fits bounded r o front (omega arith)
          (omega arith) in
      let sum : base + (hi - base) ≡ hi = omega arith in
      (_, run, rw sum at (alloc_pages-Filled n base (pages_of e) (hi - base) _ f (omega arith)))
