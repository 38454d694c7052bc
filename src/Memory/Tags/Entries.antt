-- ===== src/Memory/Tags/Entries.antt =====
-- The memory that is set up from the boot information, against the tags and the 64-bit entries that
-- lie in it.
use ikaros.Base.{
  ℕ, ◌+◌, ◌-◌, ◌*◌, ◌/◌, ◌%◌, ◌^◌, ap, ◌<◌, ◌≡◌, ◌≢◌, refl, Bool-cases, inl, inr, some, false, List,
  [], ◌∷◌, arith, ◌==◌, if◌then◌else◌, length, map, take,
}
use mathlib.Core.Path.{ap₂}
use native.Mathlib.Nat.{mul-div_cancel}
use ikaros.Libc.Memory.{Bytes}
use ikaros.Memory.Map.{MapEntry}
use ikaros.Memory.Map.Filled.{available_of, add_regions-take}
use ikaros.Memory.Region.{State}
use ikaros.Memory.Boot.{boot_memory}
use ikaros.Memory.Tags.{
  uint32_at, no_tags, round_up, entry_at, entries_from, map_entries, returned, booted_or,
  multiboot2_main,
}
use ikaros.Memory.Tags.Walk.{TagHeader, Laid, last_of, walk_tags-last_tags}

abbrev pub IsBytes : Bytes → Type 0
IsBytes mem = (a : ℕ) → mem a < 256

abbrev pub uint64_at : Bytes → ℕ → ℕ
uint64_at mem a = uint32_at mem a + 2 ^ 32 * uint32_at mem (a + 4)

-- An entry as the boot loader writes it, with the address and the length in 64 bits.
pub record WideEntry : Type 0 where
  pub addr : ℕ
  pub len : ℕ
  pub type : ℕ

abbrev pub narrow : WideEntry → MapEntry
narrow e = record { addr = e.addr % 2 ^ 32; length = e.len % 2 ^ 32; type = e.type }

abbrev pub LaidEntries : Bytes → ℕ → ℕ → List WideEntry → Type 0
LaidEntries mem a entry_size [] = Unit {0}
LaidEntries mem a entry_size (e ∷ es) =
    (uint64_at mem a ≡ e.addr)
    × (uint64_at mem (a + 8) ≡ e.len)
    × (uint32_at mem (a + 16) ≡ e.type)
    × LaidEntries mem (a + entry_size) entry_size es

-- The tag of the memory map at `tag`, whose entries have a size that is a multiple of 8.
pub record LaidMap (mem : Bytes) (tag : ℕ) (es : List WideEntry) : Type 0 where
  pub entry_size : ℕ
  pub positive : 0 < entry_size
  pub aligned : entry_size % 8 ≡ 0
  pub bounded : 16 + length es * entry_size < 2 ^ 32
  pub narrow_size : entry_size < 2 ^ 32
  pub at_entry_size : uint32_at mem (tag + 8) ≡ entry_size
  pub at_size : uint32_at mem (tag + 4) ≡ 16 + length es * entry_size
  pub laid : LaidEntries mem (tag + 16) entry_size es

uint32_at-lt : (mem : Bytes) (a : ℕ) → IsBytes mem → uint32_at mem a < 2 ^ 32
uint32_at-lt mem a is = omega (arith, is a, is (a + 1), is (a + 2), is (a + 2 + 1))

uint64_at-mod : (mem : Bytes) (a : ℕ) → IsBytes mem → uint64_at mem a % 2 ^ 32 ≡ uint32_at mem a
uint64_at-mod mem a is = omega (arith, uint32_at-lt mem a is)

entries_from-narrow :
    (mem : Bytes) (a entry_size : ℕ) (es : List WideEntry)
    → IsBytes mem
    → LaidEntries mem a entry_size es
    → entries_from (length es) a entry_size mem ≡ map narrow es
unfolding entries_from entry_at
entries_from-narrow mem a entry_size [] is laid = refl
entries_from-narrow mem a entry_size (e ∷ es) is (addr, len, type, laid) =
    let same : entry_at mem a ≡ narrow e =
      ground (arith, uint64_at-mod mem a is, uint64_at-mod mem (a + 8) is) in
    ap₂ {C = List MapEntry} (λ x xs. x ∷ xs) same
      (entries_from-narrow mem (a + entry_size) entry_size es is laid)

map_entries-narrow :
    (mem : Bytes) (tag : ℕ) (es : List WideEntry)
    → IsBytes mem
    → LaidMap mem tag es
    → map_entries tag mem ≡ some (map narrow es)
unfolding map_entries round_up
map_entries-narrow mem tag es is laid =
    let s = laid.entry_size in
    let n = length es in
    let rounded : round_up s % 2 ^ 32 ≡ s = ground (arith, laid.aligned, laid.narrow_size) in
    let divides : (16 + n * s + 2 ^ 32 - 16) % 2 ^ 32 / s ≡ n =
      let less : (16 + n * s + 2 ^ 32 - 16) % 2 ^ 32 ≡ n * s = omega (arith, laid.bounded) in
      rw less (mul-div_cancel n laid.positive) in
    let divisor : (s == 0) ≡ false = ground (arith, laid.positive) in
    rw (laid.at_entry_size, laid.at_size)
      (rw rounded
        (rw (divides, divisor) (ap some (entries_from-narrow mem (tag + 16) s es is laid.laid))))

module _ (mem : Bytes) (info : ℕ) (ts : List TagHeader) (es : List WideEntry) (fuel : ℕ)
    (kernel_start kernel_end : ℕ) (s0 : State) (is : IsBytes mem) (aligned : info % 8 ≡ 0)
    (enough : length ts < fuel)
    (laid : Laid mem (info + 8) ts ((info + uint32_at mem info) % 2 ^ 32)) where
  abbrev mem_tag : ℕ
  mem_tag = last_of 4 (info + 8) ts 0

  abbrev mmap_tag : ℕ
  mmap_tag = last_of 6 (info + 8) ts 0

  -- The boot code walks the tags to the end. Without a tag of the memory or of the memory map it
  -- returns. Otherwise it sets up the memory from the available ones among the first 32 entries of the
  -- map, each with the low 32 bits of its address and length.
  pub multiboot2_main_lem :
      (mmap_tag ≢ 0 → LaidMap mem mmap_tag es)
      → multiboot2_main fuel info mem kernel_start kernel_end s0 ≡ (
          if mem_tag == 0
          then returned
          else if mmap_tag == 0
          then returned
          else booted_or
              (boot_memory (available_of (take 32 (map narrow es))) kernel_start kernel_end s0))
  unfolding multiboot2_main no_tags
  multiboot2_main_lem has_map =
      let walk =
        walk_tags-last_tags mem (info + 8) ((info + uint32_at mem info) % 2 ^ 32) ts fuel no_tags
          (omega arith) enough laid in
      rw walk (elim (Bool-cases (mmap_tag == 0)) [
        | inl none_there ↦ rw none_there refl
        | inr there ↦
            let entries = map_entries-narrow mem mmap_tag es is (has_map (ground (arith, there))) in
            rw (there, entries) (rw (add_regions-take (map narrow es)) refl)
      ])
