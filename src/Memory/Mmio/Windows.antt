-- ===== src/Memory/Mmio/Windows.antt =====
-- The windows that `mmio_map` gives out: what they show, and that the earlier ones stay.
use ikaros.Base.{
  ℕ, zero, suc, ◌+◌, ◌-◌, ◌*◌, ◌/◌, ◌%◌, ◌^◌, ◌≤◌, ◌<◌, ◌≡◌, ◌⊎◌, inl, inr, refl, ◌∙◌, Bool, arith,
  ltb, ◌==◌, Bool-cases,
}
use ikaros.Memory.Region.Supply.{RunsOut, RunsOut-now, RunsOut-within}
use ikaros.Memory.Region.Pages.{IsState}
use ikaros.Memory.Paging.{Space, Mapping, mapped, mm_map_page, mm_get_physaddr}
use ikaros.Memory.Paging.Mapped.{HasTable, MappingLem, MappingLem-Gives, mm_map_page_lem}
use ikaros.Memory.Mmio.{
  Window, map_pages, Mmio, at, null, mmio_map, whole_size, kernel_mmio_start, kernel_mmio_limit,
}

-- The pages from `v` on, `n` of them, show the frames from `f` on, and the other pages are as before.
pub record Shows (sp : Space) (f v n : ℕ) (sp' : Space) : Type 0 where
  pub valid : IsState sp'.allocator
  pub shown :
      (x : ℕ)
      → v ≤ x / 4096
      → x / 4096 < v + n
      → HasTable sp' x × (mm_get_physaddr x sp' ≡ (f + (x / 4096 - v)) * 4096 + x % 4096)
  pub others :
      (x : ℕ)
      → x < 1023 * 2 ^ 22
      → (x / 4096 < v) ⊎ (v + n ≤ x / 4096)
      → HasTable sp x
      → HasTable sp' x × (mm_get_physaddr x sp' ≡ mm_get_physaddr x sp)

abbrev pub ShowsLem : Space → ℕ → ℕ → ℕ → Mapping → Type 0
ShowsLem sp f v n (mapped sp' warned) = Shows sp f v n sp'
ShowsLem sp f v n Mapping.uninitialised = RunsOut n sp.allocator
ShowsLem sp f v n Mapping.fault = ⊥

module _ (sp : Space) (f v n i : ℕ) (is : IsState sp.allocator) (frames : f + i < 2 ^ 20)
    (low : v + i < 1023 * 1024) where
  -- One page, and then the pages behind it.
  then_Shows :
      (sp1 sp2 : Space) (warned : Bool)
      → MappingLem (f + i) ((v + i) * 4096) sp (mapped sp1 warned)
      → Shows sp1 (f + (i + 1)) (v + (i + 1)) n sp2
      → Shows sp (f + i) (v + i) (suc n) sp2
  then_Shows sp1 sp2 warned (valid, has, here, away, _, _) rest = record {
    valid = rest.valid;
    shown = λ x from below. elim (Bool-cases (x / 4096 == v + i)) [
      | inl first ↦
          let (kept, same) =
            rest.others x (ground (arith, first)) (inl (ground (arith, first)))
              (let e : x / 2 ^ 22 ≡ (v + i) * 4096 / 2 ^ 22 = ground (arith, first) in rw e has) in
          (kept, ground (arith, same, here x, first))
      | inr later ↦
          let (has', shown) = rest.shown x (ground (arith, later)) (omega arith) in
          (has', ground (arith, shown, later))
    ];
    others = λ x hx out has0.
        let (has1, same1) = away x hx (ground (arith, out)) has0 in
        let (has2, same2) = rest.others x hx (ground (arith, out)) has1 in (has2, same2 ∙ same1);
  }

  then_ShowsLem :
      (sp1 : Space) (warned : Bool)
      → MappingLem (f + i) ((v + i) * 4096) sp (mapped sp1 warned)
      → (m : Mapping) → ShowsLem sp1 (f + (i + 1)) (v + (i + 1)) n m
      → ShowsLem sp (f + i) (v + i) (suc n) m
  then_ShowsLem sp1 warned lem (mapped sp2 warned2) rest = then_Shows sp1 sp2 warned lem rest
  then_ShowsLem sp1 warned lem Mapping.uninitialised rest =
      let (ps, given, few) = MappingLem-Gives (f + i) ((v + i) * 4096) sp sp1 warned lem in
      RunsOut-within n (suc n) sp.allocator sp1.allocator ps given (omega arith) rest
  then_ShowsLem sp1 warned lem Mapping.fault rest = rest

  step_ShowsLem :
      ((sp1 : Space)
        → IsState sp1.allocator
        → ShowsLem sp1
            (f + (i + 1))
            (v + (i + 1))
            n
            (map_pages n (i + 1) (f * 4096) (v * 4096) sp1))
      → (m : Mapping) → MappingLem (f + i) ((v + i) * 4096) sp m
      → ShowsLem sp (f + i) (v + i) (suc n) (elim m [
        | mapped sp1 warned ↦ map_pages n (i + 1) (f * 4096) (v * 4096) sp1
        | Mapping.uninitialised ↦ Mapping.uninitialised
        | Mapping.fault ↦ Mapping.fault
      ])
  step_ShowsLem later (mapped sp1 warned) lem = then_ShowsLem sp1 warned lem _ (later sp1 lem.0)
  step_ShowsLem later Mapping.uninitialised lem = RunsOut-now n sp.allocator lem.1
  step_ShowsLem later Mapping.fault lem = lem

map_pages-Shows :
    (n i f v : ℕ) (sp : Space)
    → IsState sp.allocator
    → f + i + n ≤ 2 ^ 20
    → v + i + n ≤ 1023 * 1024
    → ShowsLem sp (f + i) (v + i) n (map_pages n i (f * 4096) (v * 4096) sp)
unfolding map_pages
map_pages-Shows zero i f v sp is frames low = record {
  valid = is;
  shown = λ x from below. absurd (omega arith);
  others = λ x hx out has. (has, refl);
}
map_pages-Shows (suc n) i f v sp is frames low =
    let address : (f * 4096 + i * 4096) % 2 ^ 32 ≡ (f + i) * 4096 = omega arith in
    let virtual : (v * 4096 + i * 4096) % 2 ^ 32 ≡ (v + i) * 4096 = omega arith in
    rw (address, virtual, map_pages)
      (step_ShowsLem sp f v n i is (omega arith) (omega arith)
        (λ sp1 is1. map_pages-Shows n (i + 1) f v sp1 is1 (omega arith) (omega arith))
        (mm_map_page ((f + i) * 4096) ((v + i) * 4096) 3 sp)
        (mm_map_page_lem (f + i) ((v + i) * 4096) 3 sp (omega arith) (omega arith) is))

-- The pointer to the rest of the window lies in it, at the start of a page.
pub record IsWindow (w : Window) : Type 0 where
  pub valid : IsState w.space.allocator
  pub from_start : kernel_mmio_start ≤ w.ptr
  pub below_limit : w.ptr ≤ kernel_mmio_limit
  pub on_page : w.ptr % 4096 ≡ 0

whole_size_lem :
    (phys size : ℕ)
    → size + phys % 4096 + 4096 ≤ 2 ^ 32
    → (whole_size phys size ≡ (size + phys % 4096 + 4095) / 4096 * 4096)
unfolding whole_size
whole_size_lem phys size fits = ground (arith)

-- The window from `a` on shows the registers from `phys` on.
pub record Shown (w : Window) (phys size : ℕ) (w' : Window) (a : ℕ) : Type 0 where
  pub window : IsWindow w'
  pub inside : (w.ptr ≤ a) × (a + size ≤ w'.ptr)
  pub registers : (k : ℕ) → k < size → mm_get_physaddr (a + k) w'.space ≡ phys + k
  pub earlier :
      (x : ℕ)
      → x < w.ptr
      → HasTable w.space x
      → HasTable w'.space x × (mm_get_physaddr x w'.space ≡ mm_get_physaddr x w.space)
  pub tables : (k : ℕ) → k < size → HasTable w'.space (a + k)

abbrev pub MmioLem : Window → ℕ → ℕ → Mmio → Type 0
MmioLem w phys size (at w' a) = Shown w phys size w' a
MmioLem w phys size null = kernel_mmio_limit < w.ptr + whole_size phys size
MmioLem w phys size Mmio.uninitialised = RunsOut (whole_size phys size / 4096) w.space.allocator
MmioLem w phys size Mmio.fault = ⊥

module _ (w : Window) (phys size : ℕ) (is : IsWindow w) (bounded : phys + size ≤ 2 ^ 32)
    (fits : w.ptr + size + 8192 ≤ 2 ^ 32) where
  abbrev whole : ℕ
  whole = (size + phys % 4096 + 4095) / 4096 * 4096

  Shows-Shown :
      (sp : Space)
      → w.ptr + whole ≤ kernel_mmio_limit
      → Shows w.space (phys / 4096) (w.ptr / 4096) (whole / 4096) sp
      → Shown w phys size (record { ptr = w.ptr + whole; space = sp }) (w.ptr + phys % 4096)
  Shows-Shown sp room s = record {
    window = record {
      valid = s.valid;
      from_start = omega (arith, is.from_start);
      below_limit = room;
      on_page = omega (arith, is.on_page);
    };
    inside = (omega arith, omega arith);
    registers = λ k hk.
        let (_, shown) =
          s.shown (w.ptr + phys % 4096 + k) (omega (arith, is.on_page))
            (omega (arith, is.on_page)) in
        omega (arith, shown, is.on_page);
    earlier = λ x hx has. s.others x (omega (arith, room)) (inl (omega (arith, is.on_page))) has;
    tables = λ k hk.
        (s.shown (w.ptr + phys % 4096 + k) (omega (arith, is.on_page))
          (omega (arith, is.on_page))).0;
  }

  ShowsLem-MmioLem :
      (p a : ℕ)
      → p ≡ w.ptr + whole
      → a ≡ w.ptr + phys % 4096
      → w.ptr + whole ≤ kernel_mmio_limit
      → (m : Mapping) → ShowsLem w.space (phys / 4096) (w.ptr / 4096) (whole / 4096) m
      → MmioLem w phys size (elim m [
        | mapped sp warned ↦ at (record { ptr = p; space = sp }) a
        | Mapping.uninitialised ↦ Mmio.uninitialised
        | Mapping.fault ↦ Mmio.fault
      ])
  ShowsLem-MmioLem p a ep ea room (mapped sp warned) lem = rw (ep, ea) (Shows-Shown sp room lem)
  ShowsLem-MmioLem p a ep ea room Mapping.uninitialised lem =
      rw (whole_size_lem phys size (omega (arith, fits, is.from_start))) lem
  ShowsLem-MmioLem p a ep ea room Mapping.fault lem = lem

  shows_lem :
      w.ptr + whole ≤ kernel_mmio_limit
      → ShowsLem w.space
          (phys / 4096)
          (w.ptr / 4096)
          (whole / 4096)
          (map_pages (whole / 4096) 0 (phys - phys % 4096) w.ptr w.space)
  shows_lem room =
      let address : phys / 4096 * 4096 ≡ phys - phys % 4096 = omega arith in
      let virtual : w.ptr / 4096 * 4096 ≡ w.ptr = omega (arith, is.on_page) in
      let none1 : phys / 4096 + 0 ≡ phys / 4096 = omega arith in
      let none2 : w.ptr / 4096 + 0 ≡ w.ptr / 4096 = omega arith in
      rw (none1, none2, address, virtual) at
        (map_pages-Shows (whole / 4096) 0 (phys / 4096) (w.ptr / 4096) w.space is.valid
          (omega (arith, bounded)) (omega (arith, room)))

  -- `mmio_map` of registers that end below 2^32, where the pointer and the size leave 8 KB below
  -- 2^32: where it returns an address, every byte of the registers is read there, in the part of
  -- the window that was free; the windows given out before are as they were; and the pointer stays
  -- in the window, at a page. It returns `NULL` only where the window has no room. It fails only
  -- where the allocator cannot give as many pages in a row as the registers have.
  pub mmio_map_lem : MmioLem w phys size (mmio_map phys size w)
  unfolding mmio_map
  mmio_map_lem =
      let e = whole_size_lem phys size (omega (arith, fits, is.from_start)) in
      let plain : (w.ptr + whole) % 2 ^ 32 ≡ w.ptr + whole = omega (arith, fits) in
      let start : (w.ptr + phys % 4096) % 2 ^ 32 ≡ w.ptr + phys % 4096 = omega (arith, fits) in
      elim (Bool-cases (ltb kernel_mmio_limit (w.ptr + whole))) [
        | inl full ↦ rw (e, plain, full) (rw e (ground (arith, full)))
        | inr room ↦
            let le : w.ptr + whole ≤ kernel_mmio_limit = ground (arith, room) in
            rw (e, plain, room) (ShowsLem-MmioLem _ _ (rw e plain) start le _ (shows_lem le))
      ]
