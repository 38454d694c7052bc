-- ===== src/Pci/Scan/Bridges.antt =====
-- The search through bridges: it ends where they lead down, and finds the devices of every bus that
-- they lead to.
use ikaros.Base.{
  ℕ, zero, suc, ◌+◌, ◌<◌, ◌≤◌, ◌≡◌, refl, sym, ap, ◌∙◌, bit_and, true, false, Option, some, List,
  [], ◌∷◌, ◌++◌, ◌==◌, ◌⊎◌, arith, Bool-cases, inl, inr,
}
use mathlib.Core.List.{append_assoc, append-nil}
use ikaros.Pci.Scan.{
  Config, pci_get_device_id, pci_get_header_type, pci_get_secondary_bus_number, PciDevice, Pci,
  no_device, function_of, is_bridge, pci_scan_device_function, scan_functions, linked,
}

-- A device of the list has this place.
abbrev pub Has : ℕ → ℕ → List PciDevice → Type 0
Has bus number [] = ⊥
Has bus number (d ∷ ds) = ((d.bus ≡ bus) × (d.number ≡ number)) ⊎ Has bus number ds

Has-append_left :
    (bus number : ℕ) (ds es : List PciDevice) → Has bus number ds → Has bus number (ds ++ es)
Has-append_left bus number [] es h = absurd h
Has-append_left bus number (d ∷ ds) es (inl here) = inl here
Has-append_left bus number (d ∷ ds) es (inr there) = inr (Has-append_left bus number ds es there)

pub Has-append_right :
    (bus number : ℕ) (ds es : List PciDevice) → Has bus number es → Has bus number (ds ++ es)
Has-append_right bus number [] es h = h
Has-append_right bus number (d ∷ ds) es h = inr (Has-append_right bus number ds es h)

-- Devices are only added, behind those that were there.
abbrev pub Extends : Pci → Pci → Type 0
Extends pci pci' = (ds : List PciDevice) × (pci'.devices ≡ pci.devices ++ ds)

pub Extends-refl : (pci : Pci) → Extends pci pci
Extends-refl pci = ([], sym (append-nil pci.devices))

pub Extends-trans : (a b c : Pci) → Extends a b → Extends b c → Extends a c
Extends-trans a b c (ds, e) (es, f) =
    (ds ++ es, f ∙ ap (λ x. x ++ es) e ∙ append_assoc a.devices ds es)

pub Extends-linked : (dev : PciDevice) (pci : Pci) → Extends pci (linked (dev, pci))
Extends-linked dev pci = (dev ∷ [], refl)

pub Extends-Has :
    (bus number : ℕ) (a b : Pci) → Extends a b → Has bus number a.devices → Has bus number b.devices
Extends-Has bus number a b (ds, e) h = rw e (Has-append_left bus number a.devices ds h)

module _ (cfg : Config) where
  abbrev pub Answers : ℕ → ℕ → ℕ → Type 0
  Answers bus number function = pci_get_device_id cfg bus number function == no_device ≡ false

  -- The functions of a device that the search looks at.
  pub data Scanned (bus number : ℕ) : ℕ → Type 0 where
    first : (function : ℕ) → function ≡ 0 → Scanned bus number function
    other :
        (function : ℕ)
        → bit_and (pci_get_header_type cfg bus number 0) 128 == 0 ≡ false
        → 0 < function
        → function < 8
        → Answers bus number function
        → Scanned bus number function

  -- From a bus to those that its bridges lead to, and on.
  pub data Reaches : ℕ → ℕ → Type 0 where
    here : (bus : ℕ) → Reaches bus bus
    through :
        (bus number function to : ℕ)
        → number < 32
        → Answers bus number 0
        → Scanned bus number function
        → is_bridge cfg bus number function ≡ true
        → Reaches (pci_get_secondary_bus_number cfg bus number function) to
        → Reaches bus to

  -- Every device that answers on a bus that `bus` leads to is in the list.
  abbrev pub AllFound : ℕ → Pci → Type 0
  AllFound bus pci =
      (to number : ℕ)
      → Reaches bus to
      → number < 32
      → Answers to number 0
      → Has to number pci.devices

  pub AllFound-Extends : (bus : ℕ) (a b : Pci) → Extends a b → AllFound bus a → AllFound bus b
  AllFound-Extends bus a b more all to number reach low up =
      Extends-Has to number a b more (all to number reach low up)

  -- The search of a bus ends with the devices found before and all that it leads to.
  abbrev pub Searched : ℕ → Pci → Option Pci → Type 0
  Searched bus pci r = (pci' : Pci) × (r ≡ some pci') × Extends pci pci' × AllFound bus pci'

  -- What a bridge leads to has been found.
  abbrev pub Behind : ℕ → ℕ → ℕ → Pci → Type 0
  Behind bus number function pci =
      is_bridge cfg bus number function ≡ true
      → AllFound (pci_get_secondary_bus_number cfg bus number function) pci

  pub Behind-Extends :
      (bus number function : ℕ) (a b : Pci)
      → Extends a b
      → Behind bus number function a
      → Behind bus number function b
  Behind-Extends bus number function a b more behind bridge =
      AllFound-Extends _ a b more (behind bridge)

  Behind-at :
      (b bus n number function : ℕ) (pci : Pci)
      → b ≡ bus
      → n ≡ number
      → Behind b n function pci
      → Behind bus number function pci
  Behind-at b bus n number function pci at_bus at_number behind = rw (← at_bus, ← at_number) behind

  -- `scan` searches what the bridges of `bus` lead to.
  module _ (scan : ℕ → Pci → Option Pci) (bus : ℕ)
      (good : (number function : ℕ)
        → number < 32
        → function < 8
        → is_bridge cfg bus number function ≡ true
        → (pci : Pci)
        → Searched
            (pci_get_secondary_bus_number cfg bus number function)
            pci
            (scan (pci_get_secondary_bus_number cfg bus number function) pci)) where
    abbrev pub At : ℕ → PciDevice → Type 0
    At number dev = (dev.bus ≡ bus) × (dev.number ≡ number)

    pub function_lem :
        (number function : ℕ) (dev : PciDevice) (pci : Pci)
        → number < 32
        → function < 8
        → At number dev
        → (dev' : PciDevice) × (pci' : Pci) × (pci_scan_device_function cfg scan dev function pci
            ≡ some (dev', pci'))
          × At number dev'
          × Extends pci pci'
          × Behind bus number function pci'
    unfolding pci_scan_device_function
    function_lem number function dev pci low_n low_f (at_bus, at_number) =
        let good_here : (b : is_bridge cfg dev.bus dev.number function ≡ true)
            → Searched (pci_get_secondary_bus_number cfg dev.bus dev.number function) pci
                (scan (pci_get_secondary_bus_number cfg dev.bus dev.number function) pci) =
          rw (at_bus, at_number) (λ b. good number function low_n low_f b pci) in
        elim (Bool-cases (is_bridge cfg dev.bus dev.number function)) [
          | inl bridge ↦
              let (pci', run, more, all) = good_here bridge in
              (
                dev,
                pci',
                rw bridge (rw run refl),
                (at_bus, at_number),
                more,
                Behind-at dev.bus bus dev.number number function pci' at_bus at_number (λ _. all),
              )
          | inr plain ↦
              let added = record dev {
                functions = dev.functions ++ function_of cfg dev.bus dev.number function ∷ [];
              } in
              (
                added,
                pci,
                rw plain refl,
                (at_bus, at_number),
                Extends-refl pci,
                Behind-at dev.bus bus dev.number number function pci at_bus at_number
                    (λ bridge. cc),
              )
        ]

    pub functions_lem :
        (n function number : ℕ) (dev : PciDevice) (pci : Pci)
        → number < 32
        → function + n ≤ 8
        → At number dev
        → (dev' : PciDevice) × (pci' : Pci) × (scan_functions cfg scan n function dev pci
            ≡ some (dev', pci'))
          × At number dev'
          × Extends pci pci'
          × ((g : ℕ)
              → function ≤ g
              → g < function + n
              → Answers bus number g
              → Behind bus number g pci')
    unfolding scan_functions
    functions_lem zero function number dev pci low_n fits at =
        (dev, pci, refl, at, Extends-refl pci, λ g from to. absurd (omega arith))
    functions_lem (suc n) function number dev pci low_n fits at =
        elim (Bool-cases (pci_get_device_id cfg dev.bus dev.number function == no_device)) [
          | inl absent ↦
              let (dev2, pci2, run, at2, more, behind) =
                functions_lem n (function + 1) number dev pci low_n (omega arith) at in
              (
                dev2,
                pci2,
                rw (absent, scan_functions) run,
                at2,
                more,
                λ g from to up. elim (Bool-cases (g == function)) [
                  | inl same ↦ let e : g ≡ function = ground (arith, same) in cc
                  | inr later ↦ behind g (ground (arith, later)) (omega arith) up
                ],
              )
          | inr present ↦
              let (dev1, pci1, run1, at1, more1, behind1) =
                function_lem number function dev pci low_n (omega arith) at in
              let (dev2, pci2, run2, at2, more2, behind2) =
                functions_lem n (function + 1) number dev1 pci1 low_n (omega arith) at1 in
              (
                dev2,
                pci2,
                rw (present, scan_functions) (rw (run1, scan_functions) run2),
                at2,
                Extends-trans pci pci1 pci2 more1 more2,
                λ g from to up. elim (Bool-cases (g == function)) [
                  | inl same ↦
                      let e : g ≡ function = ground (arith, same) in
                      rw e (Behind-Extends bus number function pci1 pci2 more2 behind1)
                  | inr later ↦ behind2 g (ground (arith, later)) (omega arith) up
                ],
              )
        ]
