-- ===== src/Input/AtKeyboard/Bounded.antt =====
-- The bytes gathered, and the buffer that holds them.
use ikaros.Base.{
  ℕ, zero, suc, ◌+◌, ◌%◌, ◌<◌, ◌≡◌, refl, subst, ◌∙◌, Bool, true, false, ◌&&◌, ◌||◌, List, [], ◌∷◌,
  arith, ltb, ◌==◌, if◌then◌else◌, Bool-cases, inl, inr, length, set, length-set, get_or-set_self,
  get_or-set_ne,
}
use ikaros.Input.AtKeyboard.{
  Ps2Keyboard, byte_at, appended, sequence_complete, kb_scancode_sequence_complete_at1,
  kb_scancode_sequence_complete_at2, kb_add_scancode_seq, keyboard_handler,
}

-- The first bytes of the buffer begin a sequence that is not complete: nothing; a prefix E1 with less
-- than 6 or 8 bytes; in set 2 a lone E0 or F0, or E0 F0.
abbrev pub begins : ℕ → List ℕ → ℕ → Bool
begins scancode_set scancode i =
    let s0 = byte_at scancode 0 in
    if i == 0
    then true
    else if s0 == 225
    then ltb i (if scancode_set == 0 then 6 else 8)
    else if scancode_set == 0
    then false
    else if i == 1
    then s0 == 224 || s0 == 240
    else i == 2 && s0 == 224 && byte_at scancode 1 == 240

-- A buffer of 16 bytes, in set 1 or 2, with the beginning of a sequence in it.
pub record Gathering (kb : Ps2Keyboard) : Type 0 where
  pub size : length kb.scancode_buffer ≡ 16
  pub known_set : kb.scancode_set < 2
  pub begun : begins kb.scancode_set kb.scancode_buffer kb.scancode_index ≡ true

-- The index of the next byte is in the buffer.
pub Gathering-lt : (kb : Ps2Keyboard) → Gathering kb → kb.scancode_index < 8
Gathering-lt kb is = ground (arith, is.begun)

-- A further byte completes the sequence, or the longer one begins a sequence.
begins-step :
    (scancode_set : ℕ) (scancode : List ℕ) (i c : ℕ)
    → length scancode ≡ 16
    → scancode_set < 2
    → begins scancode_set scancode i ≡ true
    → sequence_complete scancode_set (set scancode i c) (i + 1) ≡ false
    → begins scancode_set (set scancode i c) (i + 1) ≡ true
unfolding sequence_complete kb_scancode_sequence_complete_at1 kb_scancode_sequence_complete_at2
begins-step w s zero c size known begun incomplete = ground (arith, get_or-set_self s 0 c 0)
begins-step w s (suc zero) c size known begun incomplete =
    ground (arith, get_or-set_self s 1 c 0, get_or-set_ne s 1 0 c 0)
begins-step w s (suc (suc i)) c size known begun incomplete =
    ground (arith, get_or-set_ne s (suc (suc i)) 0 c 0, get_or-set_ne s (suc (suc i)) 1 c 0)

module _ {K : Type 0} (emit_keycode : ℕ → K → K) where
  pub kb_add_scancode_seq-Gathering :
      (kb : Ps2Keyboard) (scancode : ℕ) (k : K)
      → Gathering kb
      → Gathering (kb_add_scancode_seq emit_keycode kb scancode k).0
  unfolding kb_add_scancode_seq
  kb_add_scancode_seq-Gathering kb scancode k is =
      let small = Gathering-lt kb is in
      let e : (kb.scancode_index + 1) % 256 ≡ kb.scancode_index + 1 = omega arith in
      let kb1 = appended kb scancode in
      elim (Bool-cases (sequence_complete kb.scancode_set kb1.scancode_buffer kb1.scancode_index)) [
        | inl complete ↦
            let now : record kb1 { scancode_index = 0 }
                ≡ (kb_add_scancode_seq emit_keycode kb scancode k).0 =
              rw complete refl in
            subst Gathering now (record {
              size = length-set kb.scancode_buffer kb.scancode_index scancode ∙ is.size;
              known_set = is.known_set;
              begun = refl;
            })
        | inr incomplete ↦
            let now : kb1 ≡ (kb_add_scancode_seq emit_keycode kb scancode k).0 =
              rw incomplete refl in
            subst Gathering now (record {
              size = length-set kb.scancode_buffer kb.scancode_index scancode ∙ is.size;
              known_set = is.known_set;
              begun = rw e (
                  begins-step kb.scancode_set kb.scancode_buffer kb.scancode_index scancode is.size
                    is.known_set is.begun (ground (arith, incomplete, e)));
            })
      ]

  -- Whatever bytes the port gives, in either scancode set, the buffer holds at any time the
  -- beginning of one sequence, of less than 8 bytes, and so no byte is written past its 16.
  pub keyboard_handler-Gathering :
      (port : List ℕ) (kb : Ps2Keyboard) (k : K)
      → Gathering kb
      → Gathering (keyboard_handler emit_keycode port kb k).0
  unfolding keyboard_handler
  keyboard_handler-Gathering [] kb k is = is
  keyboard_handler-Gathering (scancode ∷ port) kb k is =
      let (kb1, k1) = kb_add_scancode_seq emit_keycode kb scancode k in
      keyboard_handler-Gathering port kb1 k1 (kb_add_scancode_seq-Gathering kb scancode k is)
