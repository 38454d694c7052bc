-- ===== src/Memory/Paging/Mapped.antt =====
-- What `mm_map_page` does to the addresses: the new page, and all others.
use ikaros.Base.{
  ℕ, ◌+◌, ◌*◌, ◌/◌, ◌%◌, ◌^◌, ◌≤◌, ◌<◌, ◌≡◌, ◌≢◌, inl, inr, refl, ap, bit_or, false, not, arith,
  ◌==◌, Bool-cases, Bool, List, [], ◌∷◌, length,
}
use ikaros.Base.Fields.{bit_or_add, bit_or-one}
use ikaros.Memory.Region.{State, Alloc, page, alloc_page}
use ikaros.Memory.Region.Pages.{IsState, AllocLem, alloc_page_lem}
use ikaros.Memory.Region.Supply.{Gives}
use ikaros.Memory.Paging.{
  Space, pd, pt, pdindex_of, write_entry, clear_table, mm_get_physaddr, Mapping, mapped, Table,
  table, need_table, mm_map_page,
}

-- The directory has a table for the address.
abbrev pub HasTable : Space → ℕ → Type 0
HasTable sp vaddr = sp.entries (pd (pdindex_of vaddr)) ≢ 0

-- An entry for frame `frame` with flags below 4096.
entry_frame : (frame flags : ℕ) → bit_or (bit_or (frame * 4096) (flags % 4096)) 1 / 4096 ≡ frame
entry_frame frame flags =
    rw (bit_or_add 12 frame (flags % 4096) (omega arith), bit_or-one (frame * 4096 + flags % 4096))
      (omega arith)

present_word : (p : ℕ) → bit_or (p * 4096 % 2 ^ 32) 3 ≡ p % 2 ^ 20 * 4096 + 3
present_word p =
    let e : p * 4096 % 2 ^ 32 ≡ p % 2 ^ 20 * 4096 = omega arith in
    rw e (bit_or_add 12 (p % 2 ^ 20) 3 (omega arith))

entry_present : (p : ℕ) → bit_or (p * 4096 % 2 ^ 32) 3 ≢ 0
entry_present p empty = omega (arith, present_word p, empty)

-- A table that was made: its page is one that the allocator gave, and its entries are 0.
pub record NewTable (sp : Space) (pdindex : ℕ) (sp' : Space) : Type 0 where
  pub frame : ℕ
  pub given : alloc_page sp.allocator ≡ page sp'.allocator frame
  pub entered : sp'.entries (pd pdindex) ≡ frame % 2 ^ 20 * 4096 + 3
  pub cleared : (k : ℕ) → k / 1024 ≡ pdindex → sp'.entries k ≡ 0

-- The space `sp'` has table `pdindex`, and agrees with `sp` on every page that had a table.
pub record Tabled (sp : Space) (pdindex : ℕ) (sp' : Space) : Type 0 where
  pub valid : IsState sp'.allocator
  pub has : sp'.entries (pd pdindex) ≢ 0
  pub same : sp.entries (pd pdindex) ≢ 0 → sp' ≡ sp
  pub made : sp.entries (pd pdindex) ≡ 0 → NewTable sp pdindex sp'
  pub kept_tables :
      (i : ℕ) → i < 1023 → sp.entries (pd i) ≢ 0 → sp'.entries (pd i) ≡ sp.entries (pd i)
  pub kept_pages :
      (k : ℕ) → k < 1023 * 1024 → sp.entries (pd (k / 1024)) ≢ 0 → sp'.entries k ≡ sp.entries k

abbrev pub TableLem : Space → ℕ → Table → Type 0
TableLem sp pdindex (table sp') = Tabled sp pdindex sp'
TableLem sp pdindex Table.uninitialised =
    (sp.entries (pd pdindex) ≡ 0) × (alloc_page sp.allocator ≡ Alloc.minus_one)
TableLem sp pdindex Table.fault = ⊥

module _ (pdindex : ℕ) (sp : Space) (low : pdindex < 1023) (is : IsState sp.allocator) where
  new_table : State → ℕ → Space
  new_table s p = record {
    entries =
        clear_table pdindex (write_entry (pd pdindex) (bit_or (p * 4096 % 2 ^ 32) 3) sp.entries);
    allocator = s;
  }

  new_table-Tabled :
      (s : State) (p : ℕ)
      → IsState s
      → alloc_page sp.allocator ≡ page s p
      → sp.entries (pd pdindex) ≡ 0
      → Tabled sp pdindex (new_table s p)
  unfolding new_table
  new_table-Tabled s p valid run missing = record {
    valid = valid;
    same = λ has. absurd (has missing);
    made = λ zero. record {
      frame = p;
      given = run;
      entered = ground (arith, present_word p);
      cleared = λ k here. ground (arith, here);
    };
    has = λ zero. ground (arith, entry_present p, zero);
    kept_tables = λ i hi has. ground (arith, has, missing);
    kept_pages = λ k hk has. elim (Bool-cases (k / 1024 == pdindex)) [
      | inl here ↦ let e : k / 1024 ≡ pdindex = ground arith in absurd (has (rw e missing))
      | inr away ↦ ground (arith, away)
    ];
  }

  made_lem :
      (a : Alloc)
      → alloc_page sp.allocator ≡ a
      → AllocLem sp.allocator a
      → sp.entries (pd pdindex) ≡ 0
      → TableLem sp pdindex (elim a [
        | page s p ↦ table (new_table s p)
        | Alloc.minus_one ↦ Table.uninitialised
        | Alloc.fault ↦ Table.fault
      ])
  made_lem (page s p) run lem missing = new_table-Tabled s p lem.1 run missing
  made_lem Alloc.minus_one run lem missing = (missing, run)
  made_lem Alloc.fault run lem missing = lem

  need_table_lem : TableLem sp pdindex (need_table pdindex sp)
  unfolding need_table new_table
  need_table_lem = elim (Bool-cases (sp.entries (pd pdindex) == 0)) [
    | inl missing ↦
        rw missing
          (made_lem (alloc_page sp.allocator) refl (alloc_page_lem sp.allocator is) (ground arith))
    | inr there ↦ rw there (record {
      valid = is;
      has = ground arith;
      same = λ has. refl;
      made = λ zero. absurd (ground (arith, there));
      kept_tables = λ i hi has. refl;
      kept_pages = λ k hk has. refl;
    })
  ]

pt_page : (v : ℕ) → pt v ≡ v / 4096
pt_page v = omega arith

-- The table was made for the address: its page is one that the allocator gave, and the entries of the
-- other pages in it are 0.
pub record MadeFor (vaddr : ℕ) (sp sp' : Space) : Type 0 where
  pub frame : ℕ
  pub given : alloc_page sp.allocator ≡ page sp'.allocator frame
  pub entered : sp'.entries (pd (pdindex_of vaddr)) ≡ frame % 2 ^ 20 * 4096 + 3
  pub cleared :
      (v : ℕ) → pdindex_of v ≡ pdindex_of vaddr → v / 4096 ≢ vaddr / 4096 → sp'.entries (pt v) ≡ 0

abbrev pub MappingLem : ℕ → ℕ → Space → Mapping → Type 0
MappingLem frame vaddr sp (mapped sp' warned) =
    IsState sp'.allocator
    × HasTable sp' vaddr
    × ((v : ℕ) → v / 4096 ≡ vaddr / 4096 → mm_get_physaddr v sp' ≡ frame * 4096 + v % 4096)
    × ((v : ℕ)
        → v < 1023 * 2 ^ 22
        → v / 4096 ≢ vaddr / 4096
        → HasTable sp v
        → HasTable sp' v × (mm_get_physaddr v sp' ≡ mm_get_physaddr v sp))
    × (HasTable sp vaddr
        → (warned ≡ not (sp.entries (pt vaddr) == 0)) × (sp'.allocator ≡ sp.allocator))
    × (sp.entries (pd (pdindex_of vaddr)) ≡ 0 → (warned ≡ false) × MadeFor vaddr sp sp')
MappingLem frame vaddr sp Mapping.uninitialised =
    (sp.entries (pd (pdindex_of vaddr)) ≡ 0) × (alloc_page sp.allocator ≡ Alloc.minus_one)
MappingLem frame vaddr sp Mapping.fault = ⊥

module _ (frame vaddr flags : ℕ) (sp : Space) (range : frame < 2 ^ 20)
    (low : vaddr < 1023 * 2 ^ 22) where
  entry : ℕ
  entry = bit_or (bit_or (frame * 4096) (flags % 4096)) 1

  kept_has : (v : ℕ) → HasTable sp v → sp.entries (pd (pt v / 1024)) ≢ 0
  kept_has v has = let e : pt v / 1024 ≡ pdindex_of v = omega arith in rw e has

  kept_physaddr :
      (sp1 : Space) (v : ℕ)
      → v / 4096 ≢ vaddr / 4096
      → sp1.entries (pt v) ≡ sp.entries (pt v)
      → mm_get_physaddr v (record sp1 { entries = write_entry (pt vaddr) entry sp1.entries })
        ≡ mm_get_physaddr v sp
  unfolding mm_get_physaddr
  kept_physaddr sp1 v other same =
      let away : (pt v == pt vaddr) ≡ false = ground (arith, pt_page v, pt_page vaddr) in
      rw (away, same) refl

  Tabled-MappingLem :
      (t : Table)
      → TableLem sp (pdindex_of vaddr) t
      → MappingLem frame vaddr sp (elim t [
        | table sp1 ↦
            mapped
              (record sp1 { entries = write_entry (pt vaddr) entry sp1.entries })
              (not (sp1.entries (pt vaddr) == 0))
        | Table.uninitialised ↦ Mapping.uninitialised
        | Table.fault ↦ Mapping.fault
      ])
  unfolding mm_get_physaddr entry
  Tabled-MappingLem (table sp1) t = (
    t.valid,
    ground (arith, t.has),
    λ v same. ground (arith, pt_page v, pt_page vaddr, entry_frame frame flags),
    λ v hv other has. (
      λ empty. ground (arith, t.kept_tables (pdindex_of v), has, empty, pt_page vaddr),
      kept_physaddr sp1 v other (t.kept_pages (pt v) (omega arith) (kept_has v has)),
    ),
    λ has. (
      ap (λ x. not (x == 0)) (t.kept_pages (pt vaddr) (omega arith) (kept_has vaddr has)),
      ap (λ x. x.allocator) (t.same has),
    ),
    λ missing.
        let made = t.made missing in
        (
          ap (λ x. not (x == 0)) (made.cleared (pt vaddr) (omega arith)),
          record {
            frame = made.frame;
            given = made.given;
            entered = ground (arith, made.entered);
            cleared = λ v here other.
                ground (arith, made.cleared (pt v) (omega (arith, here)), pt_page v, pt_page vaddr);
          },
        ),
  )
  Tabled-MappingLem Table.uninitialised lem = lem
  Tabled-MappingLem Table.fault lem = lem

-- `mm_map_page` of a frame below 2^20 at an address below the window of the tables: the allocator
-- stays well formed; where it returns, `mm_get_physaddr` gives the frame for every address of the
-- page, and for every address of another page that had a table what it gave before. Where the table
-- was there, the allocator is as before and the message is printed just if the entry was not 0. Where
-- it was missing, no message is printed, the table is in the page that the next allocation gives, and
-- its other entries are 0. It fails only where the table is missing and that allocation fails.
pub mm_map_page_lem :
    (frame vaddr flags : ℕ) (sp : Space)
    → frame < 2 ^ 20
    → vaddr < 1023 * 2 ^ 22
    → IsState sp.allocator
    → MappingLem frame vaddr sp (mm_map_page (frame * 4096) vaddr flags sp)
unfolding mm_map_page entry
mm_map_page_lem frame vaddr flags sp range low is =
    Tabled-MappingLem frame vaddr flags sp range low (need_table (pdindex_of vaddr) sp)
      (need_table_lem (pdindex_of vaddr) sp (omega arith) is)

-- What one call takes from the allocator: a page where a table is made, and none where it is there.
pub MappingLem-Gives :
    (frame vaddr : ℕ) (sp sp' : Space) (warned : Bool)
    → MappingLem frame vaddr sp (mapped sp' warned)
    → (ps : List ℕ) × Gives sp.allocator ps sp'.allocator × (length ps ≤ 1)
MappingLem-Gives frame vaddr sp sp' warned (_, _, _, _, there, missing) =
    elim (Bool-cases (sp.entries (pd (pdindex_of vaddr)) == 0)) [
      | inl none_there ↦
          let (_, made) = missing (ground (arith, none_there)) in
          (made.frame ∷ [], (sp'.allocator, made.given, refl), omega arith)
      | inr table_there ↦
          let (_, same) = there (ground (arith, table_there)) in ([], same, omega arith)
    ]
