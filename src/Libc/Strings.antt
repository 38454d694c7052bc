-- ===== src/Libc/Strings.antt =====
-- libc/string/strlen.c and strcmp.c, and libc/strings/strcasecmp.c. A pointer to text is the function
-- from offsets to bytes; a loop that is not bounded by a length takes fuel, and `none` is a loop that
-- has not ended. `char` is signed, so two bytes are compared as `signed_key` orders them.
pub mod Order
pub mod Bounded
use ikaros.Base.{
  ℕ, zero, suc, ◌+◌, ◌-◌, ◌%◌, Bool, true, false, ◌&&◌, Option, none, some, ltb, leb, ◌==◌,
  if◌then◌else◌,
}
use ikaros.Libc.Memory.{Sign, minus, same, plus}

abbrev pub Text : Type 0
Text = ℕ → ℕ

unfoldable pub strlen_loop : ℕ → Text → ℕ → Option ℕ
strlen_loop zero str len = none
strlen_loop (suc fuel) str len =
    let rest = strlen_loop fuel str (len + 1) in if str len == 0 then some len else rest

unfoldable pub strlen : ℕ → Text → Option ℕ
unfolding strlen_loop
strlen fuel str = strlen_loop fuel str 0

-- The bytes 128 to 255 are the negative values of `char`, below 0 to 127.
abbrev pub signed_key : ℕ → ℕ
signed_key c = (c + 128) % 256

-- `flag` behind the two tests.
abbrev pub flag_of : ℕ → ℕ → Sign
flag_of c0 c1 =
    if ltb (signed_key c1) (signed_key c0)
    then plus
    else if ltb (signed_key c0) (signed_key c1)
    then minus
    else same

abbrev pub is_same : Sign → Bool
is_same minus = false
is_same same = true
is_same plus = false

unfoldable pub strcmp_loop : ℕ → Text → Text → ℕ → Option Sign
strcmp_loop zero s0 s1 i = none
strcmp_loop (suc fuel) s0 s1 i =
    let rest = strcmp_loop fuel s0 s1 (i + 1) in
    let flag = flag_of (s0 i) (s1 i) in
    if s0 i == 0 then some flag else if is_same flag then rest else some flag

unfoldable pub strcmp : ℕ → Text → Text → Option Sign
unfolding strcmp_loop
strcmp fuel s0 s1 = strcmp_loop fuel s0 s1 0

-- The rounds left are `max_len - i`.
unfoldable pub strncmp_loop : ℕ → Text → Text → ℕ → Sign
strncmp_loop zero s0 s1 i = same
strncmp_loop (suc n) s0 s1 i =
    let rest = strncmp_loop n s0 s1 (i + 1) in
    let flag = flag_of (s0 i) (s1 i) in
    if s0 i == 0 then flag else if is_same flag then rest else flag

unfoldable pub strncmp : Text → Text → ℕ → Sign
unfolding strncmp_loop
strncmp s0 s1 max_len = strncmp_loop max_len s0 s1 0

unfoldable pub tolower : ℕ → ℕ
tolower c = if leb 65 c && leb c 90 then c + 32 else c

unfoldable pub strcasecmp_loop : ℕ → Text → Text → ℕ → Option Sign
strcasecmp_loop zero s0 s1 i = none
strcasecmp_loop (suc fuel) s0 s1 i =
    let rest = strcasecmp_loop fuel s0 s1 (i + 1) in
    let c0 = tolower (s0 i) in
    let flag = flag_of c0 (tolower (s1 i)) in
    if c0 == 0 then some flag else if is_same flag then rest else some flag

unfoldable pub strcasecmp : ℕ → Text → Text → Option Sign
unfolding strcasecmp_loop tolower
strcasecmp fuel s0 s1 = strcasecmp_loop fuel s0 s1 0

unfoldable pub strncasecmp_loop : ℕ → Text → Text → ℕ → Sign
strncasecmp_loop zero s0 s1 i = same
strncasecmp_loop (suc n) s0 s1 i =
    let rest = strncasecmp_loop n s0 s1 (i + 1) in
    let c0 = tolower (s0 i) in
    let flag = flag_of c0 (tolower (s1 i)) in
    if c0 == 0 then flag else if is_same flag then rest else flag

unfoldable pub strncasecmp : Text → Text → ℕ → Sign
unfolding strncasecmp_loop tolower
strncasecmp s0 s1 max_len = strncasecmp_loop max_len s0 s1 0
