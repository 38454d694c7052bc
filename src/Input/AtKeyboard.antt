-- ===== src/Input/AtKeyboard.antt =====
-- kernel/arch/i386/kernel/drivers/keyboard/at_keyboard.c: the bytes of the keyboard gathered into
-- sequences, and each sequence turned into a keycode. `__kb_emit_keycode` acts on a state `K`. The
-- port is the list of the bytes that it gives until its status says that there are no more.
mod Maps
pub mod Bounded
pub mod Sequences
use ikaros.Base.{
  ℕ, ◌+◌, ◌-◌, ◌%◌, bit_or, Bool, true, false, ◌&&◌, ◌||◌, List, [], ◌∷◌, ltb, ◌==◌, if◌then◌else◌,
  get_or, set, replicate,
}
pub use Maps.{basemap_at2, exmap_at2}

abbrev pub max_scancode_sequence : ℕ
max_scancode_sequence = 16

pub record Ps2Keyboard : Type 0 where
  pub scancode_buffer : List ℕ
  pub scancode_index : ℕ
  pub scancode_set : ℕ

abbrev pub byte_at : List ℕ → ℕ → ℕ
byte_at scancode i = get_or scancode i 0

-- A table of 256 entries without initialisers
abbrev pub exmap_at1 : List ℕ
exmap_at1 = replicate 256 0

unfoldable pub kb_map_scancode_at2 : List ℕ → ℕ
kb_map_scancode_at2 scancode =
    let s0 = byte_at scancode 0 in
    let s1 = byte_at scancode 1 in
    if s0 == 225
    then 0
    else if s0 == 224
    then (if s1 == 240
        then bit_or (get_or exmap_at2 (byte_at scancode 2) 0) 256
        else get_or exmap_at2 s1 0)
    else if s0 == 240
    then bit_or (get_or basemap_at2 s1 0) 256
    else get_or basemap_at2 s0 0

unfoldable pub kb_scancode_sequence_complete_at2 : List ℕ → ℕ → Bool
kb_scancode_sequence_complete_at2 scancode scancode_len =
    let s0 = byte_at scancode 0 in
    if s0 == 225
    then scancode_len == 8
    else if s0 == 224
    then (if scancode_len == 1
        then false
        else if byte_at scancode 1 == 240
        then scancode_len == 3
        else scancode_len == 2)
    else if s0 == 240
    then scancode_len == 2
    else scancode_len == 1

unfoldable pub kb_map_scancode_at1 : List ℕ → ℕ
kb_map_scancode_at1 scancode =
    let s0 = byte_at scancode 0 in
    let s1 = byte_at scancode 1 in
    if s0 == 225
    then 119
    else if s0 == 224
    then (if s1 == 42 then 99 else if s1 == 183 then bit_or 99 256 else get_or exmap_at1 s1 0)
    else if ltb 128 s0
    then bit_or (s0 - 128) 256
    else s0

unfoldable pub kb_scancode_sequence_complete_at1 : List ℕ → ℕ → Bool
kb_scancode_sequence_complete_at1 scancode scancode_len =
    let s0 = byte_at scancode 0 in
    let s1 = byte_at scancode 1 in
    if s0 == 225
    then scancode_len == 6
    else if s0 == 224 && ltb 1 scancode_len
    then (if s1 == 42 || s1 == 183 then scancode_len == 4 else scancode_len == 2)
    else scancode_len == 1

unfoldable pub sequence_complete : ℕ → List ℕ → ℕ → Bool
unfolding kb_scancode_sequence_complete_at1 kb_scancode_sequence_complete_at2
sequence_complete scancode_set scancode scancode_len =
    if scancode_set == 0
    then kb_scancode_sequence_complete_at1 scancode scancode_len
    else if scancode_set == 1
    then kb_scancode_sequence_complete_at2 scancode scancode_len
    else false

unfoldable pub map_scancode : ℕ → List ℕ → ℕ
unfolding kb_map_scancode_at1 kb_map_scancode_at2
map_scancode scancode_set scancode =
    if scancode_set == 0 then kb_map_scancode_at1 scancode else kb_map_scancode_at2 scancode

abbrev pub appended : Ps2Keyboard → ℕ → Ps2Keyboard
appended kb scancode = record kb {
  scancode_buffer = set kb.scancode_buffer kb.scancode_index scancode;
  scancode_index = (kb.scancode_index + 1) % 256;
}

unfoldable pub init_ps2_keyboard : Ps2Keyboard
init_ps2_keyboard = record {
  scancode_buffer = replicate 16 0;
  scancode_index = 0;
  scancode_set = 0;
}

module _ {K : Type 0} (emit_keycode : ℕ → K → K) where
  unfoldable pub kb_add_scancode_seq : Ps2Keyboard → ℕ → K → Ps2Keyboard × K
  unfolding sequence_complete map_scancode
  kb_add_scancode_seq kb scancode k =
      let kb1 = appended kb scancode in
      if sequence_complete kb.scancode_set kb1.scancode_buffer kb1.scancode_index
      then (
        record kb1 { scancode_index = 0 },
        emit_keycode (map_scancode kb.scancode_set kb1.scancode_buffer) k,
      )
      else (kb1, k)

  unfoldable pub keyboard_handler : List ℕ → Ps2Keyboard → K → Ps2Keyboard × K
  unfolding kb_add_scancode_seq
  keyboard_handler [] kb k = (kb, k)
  keyboard_handler (scancode ∷ port) kb k =
      let (kb1, k1) = kb_add_scancode_seq kb scancode k in keyboard_handler port kb1 k1
