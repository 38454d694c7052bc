-- ===== src/Pci/Fallthrough.antt =====
-- The class of the processors, whose case does not return.
use ikaros.Base.{ℕ, ◌≡◌, ◌≢◌, refl, false, ◌==◌, arith}
use ikaros.Pci.Names.{pci_get_class_name, processor}

eqb-ne : (a b : ℕ) → a ≢ b → (a == b) ≡ false
eqb-ne a b ne = ground arith

-- A processor of a subclass that the source does not list has the name of the serial bus controller
-- with that subclass.
pub pci_get_class_name-processor :
    (s progif : ℕ)
    → s ≢ 0
    → s ≢ 1
    → s ≢ 2
    → s ≢ 16
    → s ≢ 32
    → s ≢ 48
    → s ≢ 64
    → pci_get_class_name 11 s progif ≡ pci_get_class_name 12 s progif
unfolding pci_get_class_name processor
pci_get_class_name-processor s progif a b c d e f g =
    rw
      (
        eqb-ne s 0 a,
        eqb-ne s 1 b,
        eqb-ne s 2 c,
        eqb-ne s 16 d,
        eqb-ne s 32 e,
        eqb-ne s 48 f,
        eqb-ne s 64 g,
      )
      refl
