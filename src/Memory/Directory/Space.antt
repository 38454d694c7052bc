-- ===== src/Memory/Directory/Space.antt =====
-- The tables that `paging_init_kernel_space` makes for the kernel's part of the addresses.
use ikaros.Base.{
  ℕ, zero, suc, ◌+◌, ◌-◌, ◌*◌, ◌/◌, ◌%◌, ◌^◌, ◌≤◌, ◌<◌, ◌≡◌, ◌≢◌, ◌∙◌, refl, true, false, arith,
  ltb, leb, ◌&&◌, ◌==◌, if◌then◌else◌, Bool-cases, inl, inr, ◌⊎◌,
}
use ikaros.Memory.Region.{State}
use ikaros.Memory.Region.Order.{Filled, Filled-Next}
use ikaros.Memory.Directory.{
  Machine, done, write_word, clear_page, entry, directory_word, table_page, with_page, need_table,
  need_tables,
}
use ikaros.Memory.Directory.Stores.{
  entry_lem, Maps, with_words, store-Maps, load-Maps, filled, store_each-filled,
}

-- The tables made before round `start`: none for 768 and 1023, which the directory has.
abbrev pub made : ℕ → ℕ
made start = if leb start 1023 then start - 769 else 254

-- The directory is page `dir` and maps itself, the table of 0xC0000000 is page `low` with the entries
-- `lows`, and `count` pages of the region were taken before.
module _ (base len count dir low : ℕ) (lows : ℕ → ℕ) (dir_taken : dir < base + count)
    (low_taken : low < base + count) (apart : dir ≢ low) (room : count + 254 ≤ len / 32 * 32)
    (bounded : base + len ≤ 2 ^ 20) where
  -- Before round `start` of the loop.
  pub record Spaced (start : ℕ) (m : Machine) : Type 0 where
    pub cr3 : m.cr3 ≡ dir
    pub self : m.words (dir * 1024 + 1023) ≡ dir * 4096 + 3
    pub first : m.words (dir * 1024 + 768) ≡ low * 4096 + 3
    pub free : Filled base len (count + made start) m.allocator
    pub user : (i : ℕ) → i < 768 → m.words (dir * 1024 + i) ≡ 0
    pub tables :
        (i : ℕ)
        → 768 < i
        → i < start
        → i < 1023
        → m.words (dir * 1024 + i) ≡ (base + count + (i - 769)) * 4096 + 3
    pub empty :
        (i x : ℕ)
        → 768 < i
        → i < start
        → i < 1023
        → x < 1024
        → m.words ((base + count + (i - 769)) * 1024 + x) ≡ 0
    pub missing : (i : ℕ) → 768 < i → start ≤ i → i < 1023 → m.words (dir * 1024 + i) ≡ 0
    pub kernel : (x : ℕ) → x < 1024 → m.words (low * 1024 + x) ≡ lows x

  self-Maps :
      (start : ℕ) (m : Machine)
      → m.cr3 ≡ dir
      → m.words (dir * 1024 + 1023) ≡ dir * 4096 + 3
      → start < 1024
      → Maps m.words m.cr3 (directory_word start) dir dir
  self-Maps start m cr3 self h =
      let high : directory_word start / 2 ^ 22 ≡ 1023 = omega arith in
      let table : directory_word start / 2 ^ 12 % 1024 ≡ 1023 = omega arith in
      record { pde = rw (cr3, high) self; pte = rw table self }

  directory_index : (start : ℕ) → start < 1024 → directory_word start % 4096 / 4 ≡ start
  directory_index start h = omega arith

  need_table-present :
      (start q : ℕ) (m : Machine)
      → m.cr3 ≡ dir
      → m.words (dir * 1024 + 1023) ≡ dir * 4096 + 3
      → start < 1024
      → m.words (dir * 1024 + start) ≡ q * 4096 + 3
      → need_table start m ≡ done m
  unfolding need_table
  need_table-present start q m cr3 self h there =
      let run = load-Maps (directory_word start) m dir dir (self-Maps start m cr3 self h) in
      let present : ((q * 4096 + 3) % 2 == 0) ≡ false = ground arith in
      rw (run, need_table) (rw (directory_index start h, there) (rw present refl))

  -- The words behind a round that makes table `start` on page `p`.
  abbrev with_table : ℕ → ℕ → (ℕ → ℕ) → ℕ → ℕ
  with_table start p words =
      filled p 0 1024 (λ i. 0) (write_word (dir * 1024 + start) (p * 4096 + 3) words)

  clear_table :
      (start p : ℕ) (m : Machine)
      → m.cr3 ≡ dir
      → m.words (dir * 1024 + 1023) ≡ dir * 4096 + 3
      → start < 1023
      → p ≢ dir
      → clear_page
          (table_page start)
          (with_words (write_word (dir * 1024 + start) (p * 4096 + 3) m.words) m)
        ≡ done (with_words (with_table start p m.words) m)
  unfolding clear_page
  clear_table start p m cr3 self h off =
      let words1 = write_word (dir * 1024 + start) (p * 4096 + 3) m.words in
      let high : table_page start / 2 ^ 22 ≡ 1023 = omega arith in
      let index : table_page start / 2 ^ 12 % 1024 ≡ start = omega arith in
      let other : (dir * 1024 + 1023 == dir * 1024 + start) ≡ false = ground arith in
      let here : (dir * 1024 + start == dir * 1024 + start) ≡ true = ground arith in
      let maps : Maps words1 m.cr3 (table_page start) dir p = record {
        pde = rw (cr3, high) (rw other self);
        pte = rw index (rw here refl);
      } in
      store_each-filled 1024 0 (table_page start) (λ i. 0) (with_words words1 m) dir p (omega arith)
        (omega arith) (omega arith) (rw cr3 off) off maps

  need_table-missing :
      (start : ℕ) (m : Machine)
      → Spaced start m
      → 768 < start
      → start < 1023
      → (s : State) × (need_table start m
          ≡ done (record m {
            words = with_table start (base + count + (start - 769)) m.words;
            allocator = s;
          }))
        × Filled base len (count + (start + 1 - 769)) s
  unfolding need_table with_page
  need_table-missing start m is lo hi =
      let p = base + count + (start - 769) in
      let same : made start ≡ start - 769 = ground arith in
      let now : Filled base len (count + (start - 769)) m.allocator = rw same at is.free in
      let (s, run, next) =
        Filled-Next base len (count + (start - 769)) m.allocator now (omega (arith, room)) in
      let at_p : base + (count + (start - 769)) ≡ p = omega arith in
      let after : suc (count + (start - 769)) ≡ count + (start + 1 - 769) = omega arith in
      let m1 = record m { allocator = s } in
      let loaded =
        load-Maps (directory_word start) m dir dir
          (self-Maps start m is.cr3 is.self (omega arith)) in
      let stored =
        store-Maps (directory_word start) (entry p 3) m1 dir dir
          (self-Maps start m1 is.cr3 is.self (omega arith)) in
      let value : entry p 3 ≡ p * 4096 + 3 =
        entry_lem p 3 (omega (arith, room, bounded)) (omega arith) in
      let cleared = clear_table start p m1 is.cr3 is.self hi (omega (arith, dir_taken)) in
      (
        s,
        rw (loaded, need_table)
            (rw (directory_index start (omega arith), is.missing start lo (omega arith) hi)
              (rw (run, with_page)
                (rw at_p (rw stored (rw (directory_index start (omega arith), value) cleared))))),
        rw after at next,
      )

  with_table-off :
      (start p k : ℕ) (words : ℕ → ℕ)
      → k / 1024 ≢ p
      → k ≢ dir * 1024 + start
      → with_table start p words k ≡ words k
  with_table-off start p k words off_page off_word =
      let out : (leb (p * 1024 + 0) k && ltb k (p * 1024 + 0 + 1024)) ≡ false = ground arith in
      rw out (ground arith)

  with_table-here :
      (start p : ℕ) (words : ℕ → ℕ)
      → p ≢ dir
      → start < 1024
      → with_table start p words (dir * 1024 + start) ≡ p * 4096 + 3
  with_table-here start p words off h = ground arith

  with_table-page :
      (start p x : ℕ) (words : ℕ → ℕ) → x < 1024 → with_table start p words (p * 1024 + x) ≡ 0
  with_table-page start p x words h = ground arith

  missing-Spaced :
      (start : ℕ) (m : Machine) (s : State)
      → Spaced start m
      → 768 < start
      → start < 1023
      → Filled base len (count + (start + 1 - 769)) s
      → Spaced (start + 1) (record m {
        words = with_table start (base + count + (start - 769)) m.words;
        allocator = s;
      })
  missing-Spaced start m s is lo hi free =
      let p = base + count + (start - 769) in
      let off : p ≢ dir = omega (arith, dir_taken) in
      let keep : (k : ℕ)
          → k / 1024 ≢ p
          → k ≢ dir * 1024 + start
          → with_table start p m.words k ≡ m.words k =
        λ k. with_table-off start p k m.words in
      record {
        cr3 = is.cr3;
        self = keep (dir * 1024 + 1023) (omega arith) (omega arith) ∙ is.self;
        first = keep (dir * 1024 + 768) (omega arith) (omega arith) ∙ is.first;
        free = let same : made (start + 1) ≡ start + 1 - 769 = ground arith in rw same free;
        user = λ i h. keep (dir * 1024 + i) (omega arith) (omega arith) ∙ is.user i h;
        tables = λ i above below last. elim (Bool-cases (i == start)) [
          | inl now ↦
              let e : i ≡ start = ground (arith, now) in
              rw e (with_table-here start p m.words off (omega arith))
          | inr before ↦
              keep (dir * 1024 + i) (omega arith) (ground (arith, before))
              ∙ is.tables i above (ground (arith, before)) last
        ];
        empty = λ i x above below last h. elim (Bool-cases (i == start)) [
          | inl now ↦
              let e : i ≡ start = ground (arith, now) in rw e (with_table-page start p x m.words h)
          | inr before ↦
              let less : i < start = ground (arith, before) in
              keep ((base + count + (i - 769)) * 1024 + x) (omega arith) (omega (arith, dir_taken))
              ∙ is.empty i x above less last h
        ];
        missing = λ i above below last.
            keep (dir * 1024 + i) (omega arith) (omega arith)
            ∙ is.missing i above (omega arith) last;
        kernel = λ x h.
            keep (low * 1024 + x) (omega (arith, low_taken)) (omega (arith, apart)) ∙ is.kernel x h;
      }

  -- Rounds 768 and 1023 change nothing.
  present-Spaced :
      (start : ℕ) (m : Machine)
      → Spaced start m
      → (start ≡ 768) ⊎ (start ≡ 1023)
      → Spaced (start + 1) m
  present-Spaced start m is there = record {
    cr3 = is.cr3;
    self = is.self;
    first = is.first;
    free = let same : made (start + 1) ≡ made start = ground arith in rw same is.free;
    user = is.user;
    tables = λ i above below last. is.tables i above (ground arith) last;
    empty = λ i x above below last h. is.empty i x above (ground arith) last h;
    missing = λ i above below last. is.missing i above (omega arith) last;
    kernel = is.kernel;
  }

  need_table-Spaced :
      (start : ℕ) (m : Machine)
      → Spaced start m
      → 768 ≤ start
      → start < 1024
      → (m' : Machine) × (need_table start m ≡ done m') × Spaced (start + 1) m'
  need_table-Spaced start m is from below = elim (Bool-cases (start == 768)) [
    | inl at_first ↦
        let e : start ≡ 768 = ground (arith, at_first) in
        (
          m,
          need_table-present start low m is.cr3 is.self below (rw e is.first),
          present-Spaced start m is (inl e),
        )
    | inr later ↦ elim (Bool-cases (start == 1023)) [
      | inl at_last ↦
          let e : start ≡ 1023 = ground (arith, at_last) in
          (
            m,
            need_table-present start dir m is.cr3 is.self below (rw e is.self),
            present-Spaced start m is (inr e),
          )
      | inr between ↦
          let above : 768 < start = ground (arith, later) in
          let before : start < 1023 = ground (arith, between) in
          let (s, run, free) = need_table-missing start m is above before in
          (_, run, missing-Spaced start m s is above before free)
    ]
  ]

  pub need_tables-Spaced :
      (n start : ℕ) (m : Machine)
      → Spaced start m
      → 768 ≤ start
      → start + n ≤ 1024
      → (m' : Machine) × (need_tables n start m ≡ done m') × Spaced (start + n) m'
  unfolding need_tables
  need_tables-Spaced zero start m is from fits =
      let same : start + 0 ≡ start = omega arith in (m, refl, rw same is)
  need_tables-Spaced (suc n) start m is from fits =
      let (m1, run1, is1) = need_table-Spaced start m is from (omega arith) in
      let (m2, run2, is2) = need_tables-Spaced n (start + 1) m1 is1 (omega arith) (omega arith) in
      let same : start + suc n ≡ start + 1 + n = omega arith in
      (m2, rw (run1, need_tables) run2, rw same is2)
