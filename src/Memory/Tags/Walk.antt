-- ===== src/Memory/Tags/Walk.antt =====
-- The walk over the tags against the list of the tags that lie in memory.
use ikaros.Base.{
  ℕ, zero, suc, ◌+◌, ◌*◌, ◌/◌, ◌%◌, ◌^◌, ap, ◌≤◌, ◌<◌, ◌≡◌, ◌∙◌, refl, none, some, List, [], ◌∷◌,
  arith, ◌==◌, if◌then◌else◌, length, lt→ltb,
}
use ikaros.Libc.Memory.{Bytes}
use ikaros.Memory.Tags.{uint16_at, uint32_at, Tags, note_tag, next_tag, walk_tags}

pub record TagHeader : Type 0 where
  pub type : ℕ
  pub size : ℕ

-- The bytes of a tag with those that fill it up to a multiple of 8.
abbrev pub stride : TagHeader → ℕ
stride t = (t.size + 7) / 8 * 8

-- The tags lie one behind the other from `a` on, and the last reaches the end.
abbrev pub Laid : Bytes → ℕ → List TagHeader → ℕ → Type 0
Laid mem a [] end = end ≤ a
Laid mem a (t ∷ ts) end =
    (a < end)
    × (a + stride t < 2 ^ 32)
    × (uint16_at mem a ≡ t.type)
    × (uint32_at mem (a + 4) ≡ t.size)
    × Laid mem (a + stride t) ts end

-- The address of the last tag of a type, or `old`.
abbrev pub last_of : ℕ → ℕ → List TagHeader → ℕ → ℕ
last_of type a [] old = old
last_of type a (t ∷ ts) old = last_of type (a + stride t) ts (if t.type == type then a else old)

abbrev pub last_tags : ℕ → List TagHeader → Tags → Tags
last_tags a ts old = record {
  cmdline_tag = last_of 1 a ts old.cmdline_tag;
  mem_tag = last_of 4 a ts old.mem_tag;
  mmap_tag = last_of 6 a ts old.mmap_tag;
  elf_sections = last_of 9 a ts old.elf_sections;
  framebuffer = last_of 8 a ts old.framebuffer;
}

next_tag_lem :
    (a : ℕ) (t : TagHeader) → a % 8 ≡ 0 → a + stride t < 2 ^ 32 → next_tag a t.size ≡ a + stride t
unfolding next_tag
next_tag_lem a t aligned below = ground arith

last_tags-note :
    (a : ℕ) (t : TagHeader) (ts : List TagHeader) (old : Tags)
    → last_tags (a + stride t) ts (note_tag t.type a old) ≡ last_tags a (t ∷ ts) old
unfolding note_tag
last_tags-note a t ts old = ground arith

-- Tags that lie one behind the other, from an address that is a multiple of 8 up to the end of the boot
-- information, are walked to the end in one round for each and one more: the last tag of each of the
-- five types is kept, and `old` stays where there is none.
pub walk_tags-last_tags :
    (mem : Bytes) (a end : ℕ) (ts : List TagHeader) (fuel : ℕ) (old : Tags)
    → a % 8 ≡ 0
    → length ts < fuel
    → Laid mem a ts end
    → walk_tags fuel a end mem old ≡ some (last_tags a ts old)
unfolding walk_tags
walk_tags-last_tags mem a end ts zero old aligned enough laid = absurd (omega arith)
walk_tags-last_tags mem a end [] (suc fuel) old aligned enough laid = ground arith
walk_tags-last_tags mem a end (t ∷ ts) (suc fuel) old aligned enough
      (more, below, type, size, laid) =
    rw (lt→ltb a end more) (
      rw (type, size, next_tag_lem a t aligned below)
        (walk_tags-last_tags mem (a + stride t) end ts fuel (note_tag t.type a old) (omega arith)
            (omega arith) laid
          ∙ ap some (last_tags-note a t ts old)))

-- A tag of size 0 before the end is walked for ever.
pub walk_tags-endless :
    (mem : Bytes) (a end fuel : ℕ) (old : Tags)
    → a % 8 ≡ 0
    → a < end
    → end ≤ 2 ^ 32
    → uint32_at mem (a + 4) ≡ 0
    → walk_tags fuel a end mem old ≡ none
unfolding walk_tags next_tag
walk_tags-endless mem a end zero old aligned more bounded size = refl
walk_tags-endless mem a end (suc fuel) old aligned more bounded size =
    let stays : next_tag a 0 ≡ a = ground arith in
    rw (lt→ltb a end more) (
      rw (size, stays)
        (walk_tags-endless mem a end fuel (note_tag (uint16_at mem a) a old) aligned more bounded
          size))
