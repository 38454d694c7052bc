-- ===== src/Pci/Tests.antt =====
-- A bus of bridges, and a bridge without a number.
use ikaros.Base.{
  ℕ, ◌<◌, ◌≡◌, ◌/◌, ◌%◌, ◌*◌, ◌^◌, refl, true, false, [], none, ◌==◌, if◌then◌else◌, arith, bit_and,
  bit_or, Bool-cases, inl, inr,
}
use ikaros.Base.Fields.{bit_or-div, bit_or-zero}
use ikaros.Pci.Scan.{
  Config, config_address, Pci, function_of, pci_scan_bus, is_bridge, pci_get_secondary_bus_number,
}
use ikaros.Pci.Scan.Bridges.{Searched}
use ikaros.Pci.Scan.Tree.{pci_scan_bus-Searched}
use ikaros.Pci.Scan.Cycle.{pci_scan_bus-endless}

abbrev nothing_found : Pci
nothing_found = record { devices = []; device_count = 0 }

-- On bus 0 all devices are bridges to bus 1, whose devices are storage controllers.
abbrev answer_of : ℕ → ℕ
answer_of page = if page == 32768 then 100925696 else if page == 32769 then 16777216 else 4294967295

abbrev bridged : Config
bridged = record { inl = λ address. answer_of (address / 65536) }

-- The bus as the address register has it.
page-config_address :
    (bus number function offset : ℕ)
    → number < 32
    → function < 8
    → bit_and offset 252 < 65536
    → config_address bus number function offset / 2 ^ 16 ≡ bit_or bus 32768
page-config_address bus number function offset low_n low_f low_o =
    let e1 : bus * 65536 / 2 ^ 16 ≡ bus = omega arith in
    let e2 : number * 2048 / 2 ^ 16 ≡ 0 = omega arith in
    let e3 : function * 256 / 2 ^ 16 ≡ 0 = omega arith in
    let e4 : bit_and offset 252 / 2 ^ 16 ≡ 0 = omega arith in
    let both = bit_or (bus * 65536) (number * 2048) in
    let three = bit_or both (function * 256) in
    rw (bit_or-div 16 (bit_or three (bit_and offset 252)) 2147483648) (
      rw (bit_or-div 16 three (bit_and offset 252)) (
        rw (bit_or-div 16 both (function * 256)) (
          rw (bit_or-div 16 (bus * 65536) (number * 2048))
            (rw (e1, e2, e3, e4) (rw (bit_or-zero bus, bit_or-zero bus, bit_or-zero bus) refl)))))

abbrev rank : ℕ → ℕ
rank bus = if bit_or bus 32768 == 32768 then 1 else 0

bridged_down :
    (bus number function : ℕ)
    → number < 32
    → function < 8
    → is_bridge bridged bus number function ≡ true
    → rank (pci_get_secondary_bus_number bridged bus number function) < rank bus
unfolding function_of
bridged_down bus number function low_n low_f bridge =
    let at_class = page-config_address bus number function 8 low_n low_f (omega arith) in
    let at_bus = page-config_address bus number function 24 low_n low_f (omega arith) in
    elim (Bool-cases (bit_or bus 32768 == 32768)) [
      | inl root ↦ rw at_bus (rw root (omega arith))
      | inr leaf ↦
          let no : (answer_of (bit_or bus 32768) / 16777216 % 256 == 6) ≡ false =
            rw leaf (ground arith) in
          let never : is_bridge bridged bus number function ≡ false = rw at_class (rw no refl) in cc
    ]

pci_scan_bus-Searched_example :
    Searched bridged 0 nothing_found (pci_scan_bus bridged 2 0 nothing_found)
pci_scan_bus-Searched_example =
    pci_scan_bus-Searched bridged rank bridged_down 2 0 nothing_found (omega arith)

-- Device 0 of bus 0 is a bridge that has no number of its own yet: all registers but that of the
-- class read as 0.
abbrev unnumbered : Config
unnumbered = record { inl = λ address. if address == 2147483656 then 100925440 else 0 }

is_unnumbered : is_bridge unnumbered 0 0 0 ≡ true
unfolding function_of
is_unnumbered = refl

pci_scan_bus-endless_example : pci_scan_bus unnumbered 100 0 nothing_found ≡ none
pci_scan_bus-endless_example =
    pci_scan_bus-endless unnumbered 0 0 (omega arith) refl is_unnumbered refl 100 nothing_found
