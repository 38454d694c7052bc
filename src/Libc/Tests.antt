-- ===== src/Libc/Tests.antt =====
-- The C library at small inputs.
use ikaros.Base.{
  ℕ, zero, suc, ◌+◌, ◌-◌, ◌%◌, ◌<◌, ◌≡◌, ◌≢◌, refl, List, [], ◌∷◌, some, arith, get_or,
  if◌then◌else◌,
}
use ikaros.Libc.Memory.{Bytes, Sign, minus, memmove}
use ikaros.Libc.Memory.Blocks.{inside, memmove_lem}
use ikaros.Libc.Strings.{Text, strcmp}
use ikaros.Libc.Strings.Order.{IsText, Compared, strcmp-Compared}
use ikaros.Libc.Convert.Decimal.{Digits}

abbrev bytes : Bytes
bytes a = a % 256

abbrev text : List ℕ → Text
text cs i = get_or cs i 0

abbrev abc : Text
abc = text (97 ∷ 98 ∷ 99 ∷ [])

abbrev abd : Text
abd = text (97 ∷ 98 ∷ 100 ∷ [])

abbrev capitals : Text
capitals = text (65 ∷ 66 ∷ 67 ∷ [])

abbrev number : Text
number = text (52 ∷ 50 ∷ [])

abbrev negative : Text
negative = text (45 ∷ 52 ∷ 50 ∷ [])

abc-bytes : (k : ℕ) → abc k < 256
abc-bytes zero = omega arith
abc-bytes (suc zero) = omega arith
abc-bytes (suc (suc zero)) = omega arith
abc-bytes (suc (suc (suc k))) = omega arith

abd-bytes : (k : ℕ) → abd k < 256
abd-bytes zero = omega arith
abd-bytes (suc zero) = omega arith
abd-bytes (suc (suc zero)) = omega arith
abd-bytes (suc (suc (suc k))) = omega arith

abc-inner : (k : ℕ) → k < 3 → abc k ≢ 0
abc-inner zero h e = omega arith
abc-inner (suc zero) h e = omega arith
abc-inner (suc (suc zero)) h e = omega arith
abc-inner (suc (suc (suc k))) h e = omega arith

abc-IsText : IsText abc 3
abc-IsText = record { bytes = abc-bytes; inner = abc-inner; ends = refl }

memmove_lem_example :
    memmove 18 16 4 bytes 19 ≡ (if inside 18 4 19 then bytes (16 + (19 - 18)) else bytes 19)
memmove_lem_example = memmove_lem 18 16 4 bytes 19

strcmp-Compared_example : (r : Sign) × (strcmp 4 abc abd ≡ some r) × Compared abc abd 0 3 r
strcmp-Compared_example = strcmp-Compared 4 abc abd 3 abc-IsText abd-bytes (omega arith)

less : strcmp 4 abc abd ≡ some minus
unfolding strcmp
less = refl

number-Digits : Digits number 0 (4 ∷ 2 ∷ [])
number-Digits = (omega arith, refl, (omega arith, refl, refl))

negative-Digits : Digits negative 1 (4 ∷ 2 ∷ [])
negative-Digits = (omega arith, refl, (omega arith, refl, refl))
