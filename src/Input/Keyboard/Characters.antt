-- ===== src/Input/Keyboard/Characters.antt =====
-- The characters of the keys with and without caps lock.
use ikaros.Base.{ℕ, ◌+◌, ◌-◌, ◌≡◌, bit_and, true, false, ◌&&◌, arith, leb, if◌then◌else◌}
use ikaros.Input.Keyboard.{kb_map, keymap, has, key_modifier_caps}

-- A letter in the other case, any other byte as it is.
abbrev pub swap_case : ℕ → ℕ
swap_case c = if leb 97 c && leb c 122 then c - 32 else if leb 65 c && leb c 90 then c + 32 else c

-- Two sets of modifiers that differ at most in caps lock, off in the first and on in the second,
-- give the same character but for the case of a letter.
pub kb_map-caps :
    (code mods mods1 : ℕ)
    → has mods key_modifier_caps ≡ false
    → has mods1 key_modifier_caps ≡ true
    → bit_and mods 1 ≡ bit_and mods1 1
    → bit_and mods 12 ≡ bit_and mods1 12
    → kb_map code mods1 ≡ swap_case (kb_map code mods)
unfolding kb_map keymap
kb_map-caps code mods mods1 off on shift alt = ground arith
