-- ===== src/Memory/Directory/Kernel.antt =====
-- The address space behind `paging_earlyinit`.
use ikaros.Base.{
  ℕ, suc, ◌+◌, ◌-◌, ◌*◌, ◌/◌, ◌%◌, ◌^◌, ◌≤◌, ◌<◌, ◌≡◌, ◌≢◌, ◌∙◌, refl, Option, none, some, true,
  false, arith, ltb, leb, ◌&&◌, ◌==◌, if◌then◌else◌, Bool-cases, inl, inr,
}
use ikaros.Memory.Region.{State}
use ikaros.Memory.Region.Order.{Filled, Filled-Next}
use ikaros.Memory.Directory.{
  Machine, done, frame_of, kernel_page, kernel_entry, with_page, paging_init_kernel_space,
  paging_earlyinit,
}
use ikaros.Memory.Directory.Stores.{entry_lem, with_words}
use ikaros.Memory.Directory.Space.{Spaced, need_tables-Spaced}
use ikaros.Memory.Directory.Built.{
  Booted, Opened, high, map_new_pages-Opened, fill_new_pages-protected, protected,
  protected-directory, protected-low,
}

-- The page of an address in the new space: the low memory and the kernel, 3 GB up.
abbrev pub kernel_frame : ℕ → ℕ → Option ℕ
kernel_frame pages vaddr =
    if leb 3221225472 vaddr && ltb ((vaddr - 3221225472) / 4096) pages
    then some ((vaddr - 3221225472) / 4096)
    else none

-- What `paging_earlyinit` comes to, where the kernel has its end in page `pages - 1`.
pub record KernelSpace (base len count dir pages : ℕ) (m : Machine) : Type 0 where
  pub in_use : m.cr3 ≡ dir
  pub mapped :
      (vaddr : ℕ) → vaddr < 4290772992 → frame_of m.words m.cr3 vaddr ≡ kernel_frame pages vaddr
  pub itself : m.words (dir * 1024 + 1023) ≡ dir * 4096 + 3
  pub tables :
      (i : ℕ)
      → 768 < i
      → i < 1023
      → m.words (dir * 1024 + i) ≡ (base + count + (i - 769)) * 4096 + 3
  pub taken : Filled base len (count + 254) m.allocator

kernel_entry_lem :
    (s e i : ℕ) → s ≤ e → i < 1024 → kernel_entry s e i ≡ (if ltb i e then i * 4096 + 3 else 0)
unfolding kernel_entry
kernel_entry_lem s e i le h = ground (arith, entry_lem i 3 (omega arith) (omega arith))

frame_of_entries :
    (words : ℕ → ℕ) (cr3 vaddr pde pte : ℕ)
    → words (cr3 * 1024 + vaddr / 2 ^ 22) ≡ pde
    → words (pde / 4096 * 1024 + vaddr / 2 ^ 12 % 1024) ≡ pte
    → frame_of words cr3 vaddr
      ≡ (if pde % 2 == 0 then none else if pte % 2 == 0 then none else some (pte / 4096))
unfolding frame_of
frame_of_entries words cr3 vaddr pde pte e1 e2 = rw e1 (rw e2 refl)

module _ (base len k old table kernel_start kernel_end : ℕ) (m : Machine) (in_use : m.cr3 ≡ old)
    (booted : Booted m.words old table) (free : Filled base len k m.allocator)
    (old_low : old < 1022) (table_low : table < 1022) (apart : old ≢ table)
    (old_taken : old < base + k) (table_taken : table < base + k) (room : k + 256 ≤ len / 32 * 32)
    (bounded : base + len ≤ 2 ^ 20) (from : 3221225472 ≤ kernel_start)
    (ordered : kernel_start ≤ kernel_end) (below : kernel_end < 3225419776)
    (inside : old ≤ kernel_page kernel_end) where
  abbrev dir : ℕ
  dir = base + k

  abbrev low : ℕ
  low = base + suc k

  abbrev pages : ℕ
  pages = kernel_page kernel_end + 1

  abbrev lows : ℕ → ℕ
  lows x = if x == old then old * 4096 + 1 else kernel_entry (kernel_page kernel_start) pages x

  pages_bound : (kernel_page kernel_start ≤ pages) × (pages ≤ 1024)
  pages_bound = (omega arith, omega arith)

  lows_page :
      (x : ℕ)
      → x < 1024
      → (if lows x % 2 == 0 then none else some (lows x / 4096))
        ≡ (if ltb x pages then some x else none)
  lows_page x h =
      let e = kernel_entry_lem (kernel_page kernel_start) pages x pages_bound.0 h in
      elim (Bool-cases (x == old)) [
        | inl here ↦
            let same : x ≡ old = ground (arith, here) in
            let in_kernel : ltb old pages ≡ true = ground arith in
            let odd : ((old * 4096 + 1) % 2 == 0) ≡ false = ground arith in
            let half : (old * 4096 + 1) / 4096 ≡ old = omega arith in
            rw (here) (rw (odd, half) (rw (same, in_kernel) refl))
        | inr away ↦ rw away (
            rw e (elim (Bool-cases (ltb x pages)) [
              | inl inner ↦
                  let odd : ((x * 4096 + 3) % 2 == 0) ≡ false = ground arith in
                  let half : (x * 4096 + 3) / 4096 ≡ x = omega arith in
                  rw inner (rw (odd, half) refl)
              | inr outer ↦ rw outer refl
            ]))
      ]

  abbrev Last : Machine → Type 0
  Last m' =
      Spaced base len (k + 2) dir low lows (omega arith) (omega arith) (omega arith) (omega arith)
        bounded 1024 m'

  frame_of-Last :
      (m' : Machine)
      → Last m'
      → (vaddr : ℕ) → vaddr < 4290772992
      → frame_of m'.words dir vaddr ≡ kernel_frame pages vaddr
  frame_of-Last m' is vaddr h =
      let i = vaddr / 2 ^ 22 in
      let x = vaddr / 2 ^ 12 % 1024 in
      elim (Bool-cases (ltb i 768)) [
        | inl user ↦
            let out : kernel_frame pages vaddr ≡ none = ground arith in
            let empty = is.user i (ground (arith, user)) in
            rw (frame_of_entries m'.words dir vaddr 0 _ empty refl) (rw out refl)
        | inr above ↦ elim (Bool-cases (i == 768)) [
          | inl kernel ↦
              let e : i ≡ 768 = ground (arith, kernel) in
              let pde : m'.words (dir * 1024 + i) ≡ low * 4096 + 3 = rw e is.first in
              let at_low : (low * 4096 + 3) / 4096 ≡ low = omega arith in
              let pte : m'.words ((low * 4096 + 3) / 4096 * 1024 + x) ≡ lows x =
                rw at_low (is.kernel x (omega arith)) in
              let odd : ((low * 4096 + 3) % 2 == 0) ≡ false = ground arith in
              let in_page : (vaddr - 3221225472) / 4096 ≡ x = omega arith in
              let upper : leb 3221225472 vaddr ≡ true = ground arith in
              rw (frame_of_entries m'.words dir vaddr (low * 4096 + 3) (lows x) pde pte)
                (rw odd (lows_page x (omega arith) ∙ rw (upper, in_page) refl))
          | inr later ↦
              let after : 768 < i = ground (arith, above, later) in
              let q = base + (k + 2) + (i - 769) in
              let pde = is.tables i after (omega arith) (omega arith) in
              let at_q : (q * 4096 + 3) / 4096 ≡ q = omega arith in
              let pte : m'.words ((q * 4096 + 3) / 4096 * 1024 + x) ≡ 0 =
                rw at_q (is.empty i x after (omega arith) (omega arith) (omega arith)) in
              let odd : ((q * 4096 + 3) % 2 == 0) ≡ false = ground arith in
              let out : kernel_frame pages vaddr ≡ none = ground (arith, after, pages_bound) in
              rw (frame_of_entries m'.words dir vaddr (q * 4096 + 3) 0 pde pte) (rw (odd, out) refl)
        ]
      ]

  Last-KernelSpace : (m' : Machine) → Last m' → KernelSpace base len (k + 2) dir pages m'
  Last-KernelSpace m' is = record {
    in_use = is.cr3;
    mapped = λ vaddr h. rw (is.cr3) (frame_of-Last m' is vaddr h);
    itself = is.self;
    tables = λ i after before. is.tables i after (omega arith) before;
    taken = is.free;
  }

  module _ (words : ℕ → ℕ) (o : Opened words old table dir low) (s : State)
      (left : Filled base len (k + 2) s) where
    abbrev new_words : ℕ → ℕ
    new_words =
        protected old table dir low old_low table_low apart (omega arith) (omega arith)
          (omega arith) (omega arith) (omega arith) (omega arith) (omega arith) words o
          (kernel_page kernel_start) pages

    directory_lem :
        (i : ℕ)
        → i < 1024
        → new_words (dir * 1024 + i)
          ≡ (if i == 768 then low * 4096 + 3 else if i == 1023 then dir * 4096 + 3 else 0)
    directory_lem =
        protected-directory old table dir low old_low table_low apart (omega arith) (omega arith)
          (omega arith) (omega arith) (omega arith) (omega arith) (omega arith) words o
          (kernel_page kernel_start) pages

    start_Spaced :
        Spaced base len
          (k + 2)
          dir
          low
          lows
          (omega arith)
          (omega arith)
          (omega arith)
          (omega arith)
          bounded
          768
          (record { words = new_words; cr3 = dir; allocator = s })
    start_Spaced = record {
      cr3 = refl;
      self = directory_lem 1023 (omega arith);
      first = directory_lem 768 (omega arith);
      free = let same : k + 2 + 0 ≡ k + 2 = omega arith in rw same left;
      user = λ i h. directory_lem i (omega arith) ∙ ground arith;
      tables = λ i above below' last. absurd (omega arith);
      empty = λ i x above below' last h. absurd (omega arith);
      missing = λ i above from' last. directory_lem i (omega arith) ∙ ground arith;
      kernel =
          protected-low old table dir low old_low table_low apart (omega arith) (omega arith)
            (omega arith) (omega arith) (omega arith) (omega arith) (omega arith) words o
            (kernel_page kernel_start) pages;
    }

  -- The tables of the boot code map the page of the directory and that of the table at 3 GB and up, the
  -- kernel ends below 3 GB + 4 MB and holds them, and the region has its first `k` pages taken, those
  -- two among them, and 256 more. Then `paging_earlyinit` returns: cr3 is a new directory that maps
  -- itself. Below its window it maps the addresses from 3 GB to the end of the kernel's last page to
  -- the memory from 0 on, and no other; every further table of the kernel's part has a page of its
  -- own. The region has 256 pages more taken.
  pub paging_earlyinit_lem :
      (m' : Machine) × (paging_earlyinit (high old) (high table) kernel_start kernel_end m
        ≡ done m')
      × KernelSpace base len (k + 2) dir pages m'
  unfolding paging_earlyinit with_page paging_init_kernel_space
  paging_earlyinit_lem =
      let (s1, run1, free1) = Filled-Next base len k m.allocator free (omega arith) in
      let (s2, run2, free2) = Filled-Next base len (suc k) s1 free1 (omega arith) in
      let left : Filled base len (k + 2) s2 =
        let same : suc (suc k) ≡ k + 2 = omega arith in rw same at free2 in
      let m2 = record m { allocator = s2 } in
      let (words, run3, o) =
        map_new_pages-Opened old table dir low old_low table_low apart (omega arith) (omega arith)
          (omega arith) (omega arith) (omega arith) (omega arith) (omega arith) m2 in_use booted in
      let run4 =
        fill_new_pages-protected old table dir low old_low table_low apart (omega arith)
          (omega arith) (omega arith) (omega arith) (omega arith) (omega arith) (omega arith) words
          o (kernel_page kernel_start) pages (with_words words m2) in_use refl in
      let (m', run5, is) =
        need_tables-Spaced base len (k + 2) dir low lows (omega arith) (omega arith) (omega arith)
          (omega arith) bounded 256 768 _ (start_Spaced words o s2 left) (omega arith)
          (omega arith) in
      (
        m',
        rw (run1, with_page) (rw (run2, with_page) (rw run3 (rw run4 run5))),
        Last-KernelSpace m' is,
      )
