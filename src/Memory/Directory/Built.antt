-- ===== src/Memory/Directory/Built.antt =====
-- The stores of `paging_earlyinit` before cr3 is loaded.
use ikaros.Base.{
  ℕ, ◌+◌, ◌-◌, ◌*◌, ◌/◌, ◌%◌, ◌^◌, ◌<◌, ◌≡◌, ◌≢◌, ◌∙◌, refl, false, arith, ltb, leb, ◌&&◌, ◌==◌,
  if◌then◌else◌,
}
use ikaros.Memory.Directory.{
  Machine, done, write_word, clear_page, entry, directory_word, kernel_page, kernel_entry,
  map_new_pages, fill_new_pages,
}
use ikaros.Memory.Directory.Stores.{
  entry_lem, Maps, with_words, store-Maps, filled, store_each-filled,
}

-- The tables of the boot code: directory `old` and table `table`, both mapped at 0xC0000000 and up.
pub record Booted (words : ℕ → ℕ) (old table : ℕ) : Type 0 where
  pub kernel : words (old * 1024 + 768) ≡ table * 4096 + 3
  pub directory : words (table * 1024 + old) ≡ old * 4096 + 3
  pub itself : words (table * 1024 + table) ≡ table * 4096 + 3

-- The two new pages at 0xFFFFF000 and 0xFFFFE000.
pub record Opened (words : ℕ → ℕ) (old table dir low : ℕ) : Type 0 where
  pub window : words (old * 1024 + 1023) ≡ table * 4096 + 3
  pub directory : words (table * 1024 + 1023) ≡ dir * 4096 + 3
  pub kernel : words (table * 1024 + 1022) ≡ low * 4096 + 3

abbrev pub high : ℕ → ℕ
high p = 3221225472 + p * 4096

module _ (old table dir low : ℕ) (old_low : old < 1022) (table_low : table < 1022)
    (apart : old ≢ table) (dir_ne_old : dir ≢ old) (dir_ne_table : dir ≢ table)
    (low_ne_old : low ≢ old) (low_ne_table : low ≢ table) (dir_ne_low : dir ≢ low)
    (dir_bound : dir < 2 ^ 20) (low_bound : low < 2 ^ 20) where
  high-Maps :
      (words : ℕ → ℕ) (p i : ℕ)
      → p < 1022
      → i < 1024
      → words (old * 1024 + 768) ≡ table * 4096 + 3
      → words (table * 1024 + p) ≡ p * 4096 + 3
      → Maps words old (high p + 4 * i) table p
  high-Maps words p i h hi upper own =
      let at_d : (high p + 4 * i) / 2 ^ 22 ≡ 768 = omega arith in
      let at_t : (high p + 4 * i) / 2 ^ 12 % 1024 ≡ p = omega arith in
      record { pde = rw at_d upper; pte = rw at_t own }

  abbrev opened_words : (ℕ → ℕ) → ℕ → ℕ
  opened_words words = write_word (old * 1024 + 1023) (table * 4096 + 3) (
      write_word (table * 1024 + 1022) (low * 4096 + 3)
        (write_word (table * 1024 + 1023) (dir * 4096 + 3) words))

  opened_words-Opened : (words : ℕ → ℕ) → Opened (opened_words words) old table dir low
  opened_words-Opened words = record {
    window = ground arith;
    directory = ground arith;
    kernel = ground arith;
  }

  pub map_new_pages-Opened :
      (m : Machine)
      → m.cr3 ≡ old
      → Booted m.words old table
      → (words : ℕ → ℕ) × (map_new_pages (high old) (high table) dir low m
          ≡ done (with_words words m))
        × Opened words old table dir low
  unfolding map_new_pages
  map_new_pages-Opened m cr3 b =
      let w1 = write_word (table * 1024 + 1023) (dir * 4096 + 3) m.words in
      let w2 = write_word (table * 1024 + 1022) (low * 4096 + 3) w1 in
      let maps0 = high-Maps m.words table 1023 table_low (omega arith) b.kernel b.itself in
      let maps1 =
        high-Maps w1 table 1022 table_low (omega arith) (ground (arith, b.kernel))
          (ground (arith, b.itself)) in
      let maps2 =
        high-Maps w2 old 1023 old_low (omega arith) (ground (arith, b.kernel))
          (ground (arith, b.directory)) in
      let run0 = store-Maps (high table + 4 * 1023) (entry dir 3) m table table (rw cr3 maps0) in
      let run1 =
        store-Maps (high table + 4 * 1022) (entry low 3) (with_words w1 m) table table
          (rw cr3 maps1) in
      let run2 =
        store-Maps (high old + 4 * 1023) (entry (kernel_page (high table)) 3) (with_words w2 m)
          table old (rw cr3 maps2) in
      let at0 : (high table + 4 * 1023) % 4096 / 4 ≡ 1023 = omega arith in
      let at1 : (high table + 4 * 1022) % 4096 / 4 ≡ 1022 = omega arith in
      let at2 : (high old + 4 * 1023) % 4096 / 4 ≡ 1023 = omega arith in
      let page_of : kernel_page (high table) ≡ table = omega arith in
      let e0 = entry_lem dir 3 dir_bound (omega arith) in
      let e1 = entry_lem low 3 low_bound (omega arith) in
      let e2 = entry_lem table 3 (omega arith) (omega arith) in
      (
        opened_words m.words,
        rw run0 (rw (at0, e0) (rw run1 (rw (at1, e1) (rw run2 (rw (page_of, at2) (rw e2 refl)))))),
        opened_words-Opened m.words,
      )

  module _ (words : ℕ → ℕ) (o : Opened words old table dir low) (s e : ℕ) where
    abbrev pub zeros : ℕ → ℕ
    zeros i = 0

    abbrev pub cleared_low : ℕ → ℕ
    cleared_low = filled low 0 1024 zeros words

    abbrev pub cleared_both : ℕ → ℕ
    cleared_both = filled dir 0 1024 zeros cleared_low

    abbrev pub with_self : ℕ → ℕ
    with_self = write_word (dir * 1024 + 1023) (dir * 4096 + 3) cleared_both

    abbrev pub with_low : ℕ → ℕ
    with_low = write_word (dir * 1024 + 768) (low * 4096 + 3) with_self

    abbrev pub with_entries : ℕ → ℕ
    with_entries = filled low 0 1024 (kernel_entry s e) with_low

    abbrev pub protected : ℕ → ℕ
    protected = write_word (low * 1024 + old) (old * 4096 + 1) with_entries

    -- Only the two new pages are written.
    abbrev Agrees : (ℕ → ℕ) → Type 0
    Agrees other = (k : ℕ) → k / 1024 ≢ dir → k / 1024 ≢ low → other k ≡ words k

    filled-low-Agrees :
        (other value : ℕ → ℕ) → Agrees other → Agrees (filled low 0 1024 value other)
    filled-low-Agrees other value same k off_d off_l =
        let out : (leb (low * 1024 + 0) k && ltb k (low * 1024 + 0 + 1024)) ≡ false =
          ground arith in
        rw out (same k off_d off_l)

    filled-dir-Agrees :
        (other value : ℕ → ℕ) → Agrees other → Agrees (filled dir 0 1024 value other)
    filled-dir-Agrees other value same k off_d off_l =
        let out : (leb (dir * 1024 + 0) k && ltb k (dir * 1024 + 0 + 1024)) ≡ false =
          ground arith in
        rw out (same k off_d off_l)

    write_dir-Agrees :
        (other : ℕ → ℕ) (i x : ℕ)
        → i < 1024
        → Agrees other
        → Agrees (write_word (dir * 1024 + i) x other)
    write_dir-Agrees other i x h same k off_d off_l =
        let out : (k == dir * 1024 + i) ≡ false = ground arith in rw out (same k off_d off_l)

    -- Where only those pages are written, they stay at their two addresses.
    directory-Maps :
        (other : ℕ → ℕ)
        → Agrees other
        → (i : ℕ) → i < 1024
        → Maps other old (directory_word i) table dir
    directory-Maps other same i h =
        let at_d : directory_word i / 2 ^ 22 ≡ 1023 = omega arith in
        let at_t : directory_word i / 2 ^ 12 % 1024 ≡ 1023 = omega arith in
        record {
          pde = rw at_d (same (old * 1024 + 1023) (omega arith) (omega arith) ∙ o.window);
          pte = rw at_t (same (table * 1024 + 1023) (omega arith) (omega arith) ∙ o.directory);
        }

    low-Maps :
        (other : ℕ → ℕ)
        → Agrees other
        → (i : ℕ) → i < 1024
        → Maps other old (4294959104 + i * 4) table low
    low-Maps other same i h =
        let at_d : (4294959104 + i * 4) / 2 ^ 22 ≡ 1023 = omega arith in
        let at_t : (4294959104 + i * 4) / 2 ^ 12 % 1024 ≡ 1022 = omega arith in
        record {
          pde = rw at_d (same (old * 1024 + 1023) (omega arith) (omega arith) ∙ o.window);
          pte = rw at_t (same (table * 1024 + 1022) (omega arith) (omega arith) ∙ o.kernel);
        }

    pub protected-directory :
        (i : ℕ)
        → i < 1024
        → protected (dir * 1024 + i)
          ≡ (if i == 768 then low * 4096 + 3 else if i == 1023 then dir * 4096 + 3 else 0)
    protected-directory i h = ground arith

    pub protected-low :
        (x : ℕ)
        → x < 1024
        → protected (low * 1024 + x) ≡ (if x == old then old * 4096 + 1 else kernel_entry s e x)
    protected-low x h =
        let offset : low * 1024 + x - low * 1024 ≡ x = omega arith in ground (arith, offset)

    pub fill_new_pages-protected :
        (m : Machine)
        → m.cr3 ≡ old
        → m.words ≡ words
        → fill_new_pages (high old) s e dir low m ≡ done (with_words protected m)
    unfolding fill_new_pages clear_page
    fill_new_pages-protected m cr3 same_words =
        let agree0 : Agrees words = λ k off_d off_l. refl in
        let agree1 = filled-low-Agrees words zeros agree0 in
        let agree2 = filled-dir-Agrees cleared_low zeros agree1 in
        let agree3 = write_dir-Agrees cleared_both 1023 (dir * 4096 + 3) (omega arith) agree2 in
        let agree4 = write_dir-Agrees with_self 768 (low * 4096 + 3) (omega arith) agree3 in
        let agree5 = filled-low-Agrees with_low (kernel_entry s e) agree4 in
        let at = λ (w : ℕ → ℕ). with_words w m in
        let run1 =
          store_each-filled 1024 0 4294959104 zeros (at words) table low (omega arith) (omega arith)
            (omega arith) (rw cr3 low_ne_old) low_ne_table
            (rw cr3 (low-Maps words agree0 0 (omega arith))) in
        let run2 =
          store_each-filled 1024 0 4294963200 zeros (at cleared_low) table dir (omega arith)
            (omega arith) (omega arith) (rw cr3 dir_ne_old) dir_ne_table
            (rw cr3 (directory-Maps cleared_low agree1 0 (omega arith))) in
        let run3 =
          store-Maps (directory_word 1023) (entry dir 3) (at cleared_both) table dir
            (rw cr3 (directory-Maps cleared_both agree2 1023 (omega arith))) in
        let run4 =
          store-Maps (directory_word 768) (entry low 3) (at with_self) table dir
            (rw cr3 (directory-Maps with_self agree3 768 (omega arith))) in
        let run5 =
          store_each-filled 1024 0 4294959104 (kernel_entry s e) (at with_low) table low
            (omega arith) (omega arith) (omega arith) (rw cr3 low_ne_old) low_ne_table
            (rw cr3 (low-Maps with_low agree4 0 (omega arith))) in
        let page_of : kernel_page (high old) ≡ old = omega arith in
        let run6 =
          store-Maps (4294959104 + old * 4) (entry old 1) (at with_entries) table low
            (rw cr3 (low-Maps with_entries agree5 old (omega arith))) in
        let index6 : (4294959104 + old * 4) % 4096 / 4 ≡ old = omega arith in
        let e1 = entry_lem dir 3 dir_bound (omega arith) in
        let e2 = entry_lem low 3 low_bound (omega arith) in
        let e3 = entry_lem old 1 (omega arith) (omega arith) in
        rw (same_words) (
          rw run1 (
            rw run2 (
              rw run3
                (rw e1 (rw run4 (rw e2 (rw run5 (rw page_of (rw run6 (rw (index6, e3) refl))))))))))
