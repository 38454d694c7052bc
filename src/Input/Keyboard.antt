-- ===== src/Input/Keyboard.antt =====
-- kernel/kernel/input/keyboard.c: the modifiers, the ring of the last 128 keycodes, and the
-- characters of the keys. `none` is a call that does not return.
pub mod Modifiers
pub mod KeyRing
pub mod Characters
pub mod Reading
use ikaros.Base.{
  ℕ, ◌+◌, ◌-◌, ◌/◌, ◌%◌, bit_and, bit_or, Bool, true, false, ◌&&◌, ◌||◌, Option, none, some, List,
  [], ◌∷◌, leb, ◌==◌, if◌then◌else◌, get_or, set, replicate,
}
use ikaros.Sched.Wait.{
  Queue, Run, done, spins, endless, wait_queue_init, wait_wake_up_interruptible,
}

abbrev pub key_ring_size : ℕ
key_ring_size = 128

pub record Keyboard : Type 0 where
  pub key_state_lock : ℕ
  pub key_ring_index : ℕ
  pub key_ring : List ℕ
  pub key_modifiers : ℕ
  pub key_wait_queue : Queue

abbrev pub key_modifier_shift : ℕ
key_modifier_shift = 1

abbrev pub key_modifier_ctrl : ℕ
key_modifier_ctrl = 2

abbrev pub key_modifier_alt : ℕ
key_modifier_alt = 4

abbrev pub key_modifier_alt_gr : ℕ
key_modifier_alt_gr = 8

abbrev pub key_modifier_caps : ℕ
key_modifier_caps = 16

abbrev pub plain_map : List ℕ
plain_map =
    0 ∷ 27 ∷ 49 ∷ 50 ∷ 51 ∷ 52 ∷ 53 ∷ 54 ∷ 55 ∷ 56 ∷ 57 ∷ 48 ∷ 45 ∷ 61 ∷ 8 ∷ 9 ∷ 113 ∷ 119 ∷ 101
    ∷ 114 ∷ 116 ∷ 121 ∷ 117 ∷ 105 ∷ 111 ∷ 112 ∷ 91 ∷ 93 ∷ 13 ∷ 0 ∷ 97 ∷ 115 ∷ 100 ∷ 102 ∷ 103 ∷ 104
    ∷ 106 ∷ 107 ∷ 108 ∷ 59 ∷ 39 ∷ 96 ∷ 0 ∷ 92 ∷ 122 ∷ 120 ∷ 99 ∷ 118 ∷ 98 ∷ 110 ∷ 109 ∷ 44 ∷ 46 ∷ 47
    ∷ 0 ∷ 42 ∷ 0 ∷ 32 ∷ []

abbrev pub shift_map : List ℕ
shift_map =
    0 ∷ 0 ∷ 33 ∷ 64 ∷ 35 ∷ 36 ∷ 37 ∷ 94 ∷ 38 ∷ 42 ∷ 40 ∷ 41 ∷ 95 ∷ 43 ∷ 0 ∷ 0 ∷ 81 ∷ 87 ∷ 69 ∷ 82
    ∷ 84 ∷ 89 ∷ 85 ∷ 73 ∷ 79 ∷ 80 ∷ 123 ∷ 125 ∷ 0 ∷ 0 ∷ 65 ∷ 83 ∷ 68 ∷ 70 ∷ 71 ∷ 72 ∷ 74 ∷ 75 ∷ 76
    ∷ 58 ∷ 34 ∷ 126 ∷ 0 ∷ 124 ∷ 90 ∷ 88 ∷ 67 ∷ 86 ∷ 66 ∷ 78 ∷ 77 ∷ 60 ∷ 62 ∷ 63 ∷ 0 ∷ 42 ∷ []

abbrev pub altgr_map : List ℕ
altgr_map = 0 ∷ 0 ∷ 0 ∷ 64 ∷ 0 ∷ 36 ∷ 0 ∷ 0 ∷ 123 ∷ 91 ∷ 93 ∷ 125 ∷ []

-- `mods & bits` as a test
abbrev pub has : ℕ → ℕ → Bool
has mods bits = if bit_and mods bits == 0 then false else true

-- The table that the modifiers select. An entry that the source does not write is 0.
unfoldable pub keymap : ℕ → List ℕ
keymap mods =
    if has mods key_modifier_shift
    then shift_map
    else if has mods (bit_or key_modifier_alt_gr key_modifier_alt)
    then altgr_map
    else plain_map

unfoldable pub kb_map : ℕ → ℕ → ℕ
unfolding keymap
kb_map code mods =
    let x = get_or (keymap mods) (bit_and code 255) 0 in
    if has mods key_modifier_caps
    then (if leb 97 x && leb x 122 then x - 32 else if leb 65 x && leb x 90 then x + 32 else x)
    else x

-- `mods |= bit` and `mods &= ~bit`, in 8 bits
abbrev pub hold : Bool → ℕ → ℕ → ℕ
hold released bit mods = if released then bit_and mods (255 - bit) else bit_or mods bit

unfoldable pub toggle_caps : ℕ → Bool → ℕ → ℕ
toggle_caps key released mods =
    if key == 58 && released then hold (has mods key_modifier_caps) key_modifier_caps mods else mods

unfoldable pub update_modifiers : ℕ → Bool → ℕ → ℕ
unfolding toggle_caps
update_modifiers key released mods =
    let m = toggle_caps key released mods in
    if key == 29 || key == 97
    then hold released key_modifier_ctrl m
    else if key == 42 || key == 54
    then hold released key_modifier_shift m
    else if key == 56
    then hold released key_modifier_alt m
    else if key == 100
    then hold released key_modifier_alt_gr m
    else m

-- `keycode >> 8` as a test, and `keycode & 0xFF`
abbrev pub is_release : ℕ → Bool
is_release keycode = if keycode / 256 == 0 then false else true

unfoldable pub store_key : ℕ → Keyboard → Keyboard
unfolding update_modifiers
store_key keycode kb =
    let index = (kb.key_ring_index + 1) % key_ring_size in
    record kb {
      key_modifiers = update_modifiers (bit_and keycode 255) (is_release keycode) kb.key_modifiers;
      key_ring_index = index;
      key_ring = set kb.key_ring index keycode;
    }

woken : Run → Keyboard → Option Keyboard
woken (done q) kb = some (record kb { key_wait_queue = q })
woken spins kb = none
woken endless kb = none

-- The lock is free again when the sleepers are woken, so its value is as before.
unfoldable pub kb_emit_keycode : ℕ → ℕ → Keyboard → Option Keyboard
unfolding store_key woken
kb_emit_keycode fuel keycode kb =
    if kb.key_state_lock == 0
    then woken (wait_wake_up_interruptible fuel kb.key_wait_queue) (store_key keycode kb)
    else none

unfoldable pub kb_early_init : Keyboard → Keyboard
kb_early_init kb = record kb {
  key_state_lock = 0;
  key_ring_index = 0;
  key_modifiers = 0;
  key_wait_queue = wait_queue_init kb.key_wait_queue;
}

unfoldable pub kb_getmods : Keyboard → Option ℕ
kb_getmods kb = if kb.key_state_lock == 0 then some kb.key_modifiers else none
