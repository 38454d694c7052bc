-- ===== src/Libc/Convert/Decimal.antt =====
-- `atoi` on decimal digits.
use ikaros.Base.{
  ℕ, zero, suc, ◌+◌, ◌-◌, ◌*◌, ◌%◌, ◌<◌, ◌≡◌, refl, List, [], ◌∷◌, arith, ◌==◌, some, length, false,
}
use ikaros.Libc.Strings.{Text}
use ikaros.Libc.Convert.{int_size, sign_extend, atoi_loop, atoi}

-- From offset `i` the text is the decimal digits `ds`, and then a NUL.
abbrev pub Digits : Text → ℕ → List ℕ → Type 0
Digits str i [] = str i ≡ 0
Digits str i (d ∷ ds) = (d < 10) × (str i ≡ 48 + d) × Digits str (i + 1) ds

-- The number that the digits continue.
abbrev pub decimal : ℕ → List ℕ → ℕ
decimal n [] = n
decimal n (d ∷ ds) = decimal (n * 10 + d) ds

digit_step :
    (n d : ℕ)
    → d < 10
    → ((n % int_size) * 10 + sign_extend (48 + d) + (int_size - 48)) % int_size
      ≡ (n * 10 + d) % int_size
digit_step n d h = ground arith

atoi_loop-Digits :
    (fuel : ℕ) (str : Text) (i n : ℕ) (ds : List ℕ)
    → Digits str i ds
    → length ds < fuel
    → atoi_loop fuel str i (n % int_size) ≡ some (decimal n ds % int_size)
unfolding atoi_loop
atoi_loop-Digits zero str i n ds is enough = absurd (omega arith)
atoi_loop-Digits (suc fuel) str i n [] is enough = rw (is, atoi_loop) refl
atoi_loop-Digits (suc fuel) str i n (d ∷ ds) (h, e, is) enough =
    let ih = atoi_loop-Digits fuel str (i + 1) (n * 10 + d) ds is (omega arith) in
    let nz : (48 + d == 0) ≡ false = ground arith in
    rw (e, atoi_loop) (rw (nz, digit_step n d h) ih)

no_minus : (str : Text) (ds : List ℕ) → Digits str 0 ds → (str 0 == 45) ≡ false
no_minus str [] is = rw is refl
no_minus str (d ∷ ds) (h, e, is) = rw e (ground arith)

-- `atoi` of decimal digits and a NUL is their value, modulo 2^32, whatever their number; one round of
-- fuel for each and one for the NUL are enough.
pub atoi-Digits :
    (fuel : ℕ) (str : Text) (ds : List ℕ)
    → Digits str 0 ds
    → length ds < fuel
    → atoi fuel str ≡ some (decimal 0 ds % int_size)
unfolding atoi
atoi-Digits fuel str ds is enough =
    rw (no_minus str ds is) (atoi_loop-Digits fuel str 0 0 ds is enough)

-- With a minus sign before them it is the negated value.
pub atoi-minus :
    (fuel : ℕ) (str : Text) (ds : List ℕ)
    → str 0 ≡ 45
    → Digits str 1 ds
    → length ds < fuel
    → atoi fuel str ≡ some ((int_size - decimal 0 ds % int_size) % int_size)
unfolding atoi
atoi-minus fuel str ds minus is enough =
    rw minus (rw (atoi_loop-Digits fuel str 1 0 ds is enough) refl)
