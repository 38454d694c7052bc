-- ===== src/Libc/Strings/Bounded.antt =====
-- The comparisons with a bound, and those that ignore case, against `strcmp`.
use ikaros.Base.{ℕ, zero, suc, ◌+◌, ◌≤◌, ◌≡◌, refl, arith, some}
use ikaros.Libc.Memory.{Sign}
use ikaros.Libc.Strings.{
  Text, strcmp_loop, strcmp, strncmp_loop, strncmp, tolower, strcasecmp_loop, strcasecmp,
  strncasecmp_loop, strncasecmp,
}

strncmp_loop-strcmp_loop :
    (n fuel : ℕ) (s0 s1 : Text) (i : ℕ) (r : Sign)
    → fuel ≤ n
    → strcmp_loop fuel s0 s1 i ≡ some r
    → strncmp_loop n s0 s1 i ≡ r
unfolding strcmp_loop strncmp_loop
strncmp_loop-strcmp_loop n zero s0 s1 i r le runs = ground arith
strncmp_loop-strcmp_loop zero (suc fuel) s0 s1 i r le runs = absurd (omega arith)
strncmp_loop-strcmp_loop (suc n) (suc fuel) s0 s1 i r le runs =
    ground (arith, strncmp_loop-strcmp_loop n fuel s0 s1 (i + 1) r (omega arith))

-- Where `strcmp` ends within `fuel` rounds, `strncmp` with a bound of `fuel` or more answers the
-- same.
pub strncmp-strcmp :
    (max_len fuel : ℕ) (s0 s1 : Text) (r : Sign)
    → fuel ≤ max_len
    → strcmp fuel s0 s1 ≡ some r
    → strncmp s0 s1 max_len ≡ r
unfolding strcmp strncmp
strncmp-strcmp max_len fuel s0 s1 r le runs =
    strncmp_loop-strcmp_loop max_len fuel s0 s1 0 r le runs

abbrev pub lower : Text → Text
lower s i = tolower (s i)

strcasecmp_loop-lower :
    (fuel : ℕ) (s0 s1 : Text) (i : ℕ)
    → strcasecmp_loop fuel s0 s1 i ≡ strcmp_loop fuel (lower s0) (lower s1) i
unfolding strcasecmp_loop strcmp_loop
strcasecmp_loop-lower zero s0 s1 i = refl
strcasecmp_loop-lower (suc fuel) s0 s1 i = ground (arith, strcasecmp_loop-lower fuel s0 s1 (i + 1))

-- `strcasecmp` is `strcmp` of the two texts in lower case.
pub strcasecmp-lower :
    (fuel : ℕ) (s0 s1 : Text) → strcasecmp fuel s0 s1 ≡ strcmp fuel (lower s0) (lower s1)
unfolding strcasecmp strcmp
strcasecmp-lower fuel s0 s1 = strcasecmp_loop-lower fuel s0 s1 0

strncasecmp_loop-lower :
    (n : ℕ) (s0 s1 : Text) (i : ℕ)
    → strncasecmp_loop n s0 s1 i ≡ strncmp_loop n (lower s0) (lower s1) i
unfolding strncasecmp_loop strncmp_loop
strncasecmp_loop-lower zero s0 s1 i = refl
strncasecmp_loop-lower (suc n) s0 s1 i = ground (arith, strncasecmp_loop-lower n s0 s1 (i + 1))

pub strncasecmp-lower :
    (s0 s1 : Text) (max_len : ℕ) → strncasecmp s0 s1 max_len ≡ strncmp (lower s0) (lower s1) max_len
unfolding strncasecmp strncmp
strncasecmp-lower s0 s1 max_len = strncasecmp_loop-lower max_len s0 s1 0
