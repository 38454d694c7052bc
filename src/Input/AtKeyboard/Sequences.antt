-- ===== src/Input/AtKeyboard/Sequences.antt =====
-- What the keys send, decoded: scancode set 2, and the prefix E0 in set 1.
use ikaros.Base.{
  ℕ, zero, suc, ◌≤◌, ◌≡◌, ◌≢◌, refl, ap, bit_or, true, false, List, [], ◌∷◌, ◌++◌, arith, ltb, ◌==◌,
  length, get_or, replicate, All,
}
use ikaros.Input.AtKeyboard.{
  Ps2Keyboard, byte_at, basemap_at2, exmap_at2, kb_add_scancode_seq, keyboard_handler,
  sequence_complete, map_scancode, kb_scancode_sequence_complete_at1,
  kb_scancode_sequence_complete_at2, kb_map_scancode_at1, kb_map_scancode_at2,
}

-- The events of a keyboard in scancode set 2.
pub data KeyEvent : Type 0 where
  make : ℕ → KeyEvent
  break : ℕ → KeyEvent
  make_extended : ℕ → KeyEvent
  break_extended : ℕ → KeyEvent
  pause : KeyEvent

-- The bytes that it sends.
abbrev pub sent : KeyEvent → List ℕ
sent (make c) = c ∷ []
sent (break c) = 240 ∷ c ∷ []
sent (make_extended c) = 224 ∷ c ∷ []
sent (break_extended c) = 224 ∷ 240 ∷ c ∷ []
sent pause = 225 ∷ 20 ∷ 119 ∷ 225 ∷ 240 ∷ 20 ∷ 240 ∷ 119 ∷ []

abbrev pub sent_all : List KeyEvent → List ℕ
sent_all [] = []
sent_all (e ∷ es) = sent e ++ sent_all es

-- The codes that are no prefix.
abbrev pub Plain : KeyEvent → Type 0
Plain (make c) = (c ≢ 224) × (c ≢ 225) × (c ≢ 240)
Plain (make_extended c) = c ≢ 240
Plain _ = Unit

-- The keycode of an event: a release has bit 8 set.
abbrev pub keycode_of : KeyEvent → ℕ
keycode_of (make c) = get_or basemap_at2 c 0
keycode_of (break c) = bit_or (get_or basemap_at2 c 0) 256
keycode_of (make_extended c) = get_or exmap_at2 c 0
keycode_of (break_extended c) = bit_or (get_or exmap_at2 c 0) 256
keycode_of pause = 0

eqb-ne : (a b : ℕ) → a ≢ b → (a == b) ≡ false
eqb-ne a b ne = ground arith

complete_make : (c : ℕ) (rest : List ℕ) → Plain (make c) → sequence_complete 1 (c ∷ rest) 1 ≡ true
unfolding sequence_complete kb_scancode_sequence_complete_at2
complete_make c rest (n4, n5, n0) = rw (eqb-ne c 224 n4, eqb-ne c 225 n5, eqb-ne c 240 n0) refl

map_make :
    (c : ℕ) (rest : List ℕ) → Plain (make c) → map_scancode 1 (c ∷ rest) ≡ keycode_of (make c)
unfolding map_scancode kb_map_scancode_at2
map_make c rest (n4, n5, n0) = rw (eqb-ne c 224 n4, eqb-ne c 225 n5, eqb-ne c 240 n0) refl

complete_extended :
    (c : ℕ) (rest : List ℕ) → c ≢ 240 → sequence_complete 1 (224 ∷ c ∷ rest) 2 ≡ true
unfolding sequence_complete kb_scancode_sequence_complete_at2
complete_extended c rest ne = rw (eqb-ne c 240 ne) refl

map_extended :
    (c : ℕ) (rest : List ℕ)
    → c ≢ 240
    → map_scancode 1 (224 ∷ c ∷ rest) ≡ keycode_of (make_extended c)
unfolding map_scancode kb_map_scancode_at2
map_extended c rest ne = rw (eqb-ne c 240 ne) refl

complete_plain_1 : (c : ℕ) (rest : List ℕ) → c ≤ 128 → sequence_complete 0 (c ∷ rest) 1 ≡ true
unfolding sequence_complete kb_scancode_sequence_complete_at1
complete_plain_1 c rest le =
    rw (eqb-ne c 224 (λ e. omega arith), eqb-ne c 225 (λ e. omega arith)) refl

get_or-replicate : (n i : ℕ) → get_or {A = ℕ} (replicate {A = ℕ} n 0) i 0 ≡ 0
get_or-replicate zero i = refl
get_or-replicate (suc n) zero = refl
get_or-replicate (suc n) (suc i) = get_or-replicate n i

map_stale : (b1 : ℕ) (rest : List ℕ) → b1 ≢ 42 → b1 ≢ 183 → map_scancode 0 (224 ∷ b1 ∷ rest) ≡ 0
unfolding map_scancode kb_map_scancode_at1
map_stale b1 rest n42 n183 = rw (eqb-ne b1 42 n42, eqb-ne b1 183 n183) (get_or-replicate 256 b1)

map_plain_1 : (c : ℕ) (rest : List ℕ) → c ≤ 128 → map_scancode 0 (c ∷ rest) ≡ c
unfolding map_scancode kb_map_scancode_at1
map_plain_1 c rest le =
    let low : ltb 128 c ≡ false = ground arith in
    rw (eqb-ne c 224 (λ e. omega arith), eqb-ne c 225 (λ e. omega arith), low) refl

module _ {K : Type 0} (emit_keycode : ℕ → K → K) where
  abbrev pub emit_all : List KeyEvent → K → K
  emit_all [] k = k
  emit_all (e ∷ es) k = emit_all es (emit_keycode (keycode_of e) k)

  -- A keyboard between two sequences, with what earlier ones left in the buffer.
  abbrev waiting : ℕ → ℕ → ℕ → ℕ → ℕ → ℕ → ℕ → ℕ → ℕ → List ℕ → Ps2Keyboard
  waiting w b0 b1 b2 b3 b4 b5 b6 b7 rest = record {
    scancode_buffer = b0 ∷ b1 ∷ b2 ∷ b3 ∷ b4 ∷ b5 ∷ b6 ∷ b7 ∷ rest;
    scancode_index = 0;
    scancode_set = w;
  }

  handled-sent_all :
      (es : List KeyEvent) (b0 b1 b2 b3 b4 b5 b6 b7 : ℕ) (rest : List ℕ) (k : K)
      → All Plain es
      → (keyboard_handler emit_keycode (sent_all es) (waiting 1 b0 b1 b2 b3 b4 b5 b6 b7 rest) k).1
        ≡ emit_all es k
  unfolding keyboard_handler kb_add_scancode_seq
  handled-sent_all [] b0 b1 b2 b3 b4 b5 b6 b7 rest k p = refl
  handled-sent_all (make c ∷ es) b0 b1 b2 b3 b4 b5 b6 b7 rest k (p, ps) =
      rw
        (
          complete_make c (b1 ∷ b2 ∷ b3 ∷ b4 ∷ b5 ∷ b6 ∷ b7 ∷ rest) p,
          map_make c (b1 ∷ b2 ∷ b3 ∷ b4 ∷ b5 ∷ b6 ∷ b7 ∷ rest) p,
        )
        (handled-sent_all es c b1 b2 b3 b4 b5 b6 b7 rest (emit_keycode (keycode_of (make c)) k) ps)
  handled-sent_all (break c ∷ es) b0 b1 b2 b3 b4 b5 b6 b7 rest k (p, ps) =
      handled-sent_all es 240 c b2 b3 b4 b5 b6 b7 rest (emit_keycode (keycode_of (break c)) k) ps
  handled-sent_all (make_extended c ∷ es) b0 b1 b2 b3 b4 b5 b6 b7 rest k (p, ps) =
      rw
        (
          complete_extended c (b2 ∷ b3 ∷ b4 ∷ b5 ∷ b6 ∷ b7 ∷ rest) p,
          map_extended c (b2 ∷ b3 ∷ b4 ∷ b5 ∷ b6 ∷ b7 ∷ rest) p,
        )
        (handled-sent_all es 224 c b2 b3 b4 b5 b6 b7 rest
          (emit_keycode (keycode_of (make_extended c)) k) ps)
  handled-sent_all (break_extended c ∷ es) b0 b1 b2 b3 b4 b5 b6 b7 rest k (p, ps) =
      handled-sent_all es 224 240 c b3 b4 b5 b6 b7 rest
        (emit_keycode (keycode_of (break_extended c)) k) ps
  handled-sent_all (pause ∷ es) b0 b1 b2 b3 b4 b5 b6 b7 rest k (p, ps) =
      handled-sent_all es 225 20 119 225 240 20 240 119 rest (emit_keycode 0 k) ps

  -- A keyboard in scancode set 2, between two sequences and with any bytes in its buffer, decodes
  -- whatever sequence of events is sent: exactly one keycode is emitted for each event, in their
  -- order, with bit 8 set for a release. The codes of the keys are no prefix bytes.
  pub keyboard_handler-sent_all :
      (es : List KeyEvent) (buffer : List ℕ) (k : K)
      → All Plain es
      → length buffer ≡ 16
      → (keyboard_handler emit_keycode
          (sent_all es)
          (record { scancode_buffer = buffer; scancode_index = 0; scancode_set = 1 })
          k).1
        ≡ emit_all es k
  keyboard_handler-sent_all es (b0 ∷ b1 ∷ b2 ∷ b3 ∷ b4 ∷ b5 ∷ b6 ∷ b7 ∷ rest) k plain size =
      handled-sent_all es b0 b1 b2 b3 b4 b5 b6 b7 rest k plain
  keyboard_handler-sent_all es [] k plain size = absurd (omega arith)
  keyboard_handler-sent_all es (_ ∷ []) k plain size = absurd (omega arith)
  keyboard_handler-sent_all es (_ ∷ _ ∷ []) k plain size = absurd (omega arith)
  keyboard_handler-sent_all es (_ ∷ _ ∷ _ ∷ []) k plain size = absurd (omega arith)
  keyboard_handler-sent_all es (_ ∷ _ ∷ _ ∷ _ ∷ []) k plain size = absurd (omega arith)
  keyboard_handler-sent_all es (_ ∷ _ ∷ _ ∷ _ ∷ _ ∷ []) k plain size = absurd (omega arith)
  keyboard_handler-sent_all es (_ ∷ _ ∷ _ ∷ _ ∷ _ ∷ _ ∷ []) k plain size = absurd (omega arith)
  keyboard_handler-sent_all es (_ ∷ _ ∷ _ ∷ _ ∷ _ ∷ _ ∷ _ ∷ []) k plain size = absurd (omega arith)

  -- In scancode set 1 the prefix E0 is taken for a whole sequence: for an extended key that sends E0
  -- and a byte `c` up to 128, the handler emits the keycode 0 and then that of the byte alone, where
  -- the second byte of the buffer is, from earlier, neither 2A nor B7.
  pub keyboard_handler-extended_1 :
      (c : ℕ) (buffer : List ℕ) (k : K)
      → c ≤ 128
      → length buffer ≡ 16
      → byte_at buffer 1 ≢ 42
      → byte_at buffer 1 ≢ 183
      → (keyboard_handler emit_keycode
          (224 ∷ c ∷ [])
          (record { scancode_buffer = buffer; scancode_index = 0; scancode_set = 0 })
          k).1
        ≡ emit_keycode c (emit_keycode 0 k)
  unfolding keyboard_handler kb_add_scancode_seq
  keyboard_handler-extended_1 c [] k small size n42 n183 = absurd (omega arith)
  keyboard_handler-extended_1 c (_ ∷ []) k small size n42 n183 = absurd (omega arith)
  keyboard_handler-extended_1 c (_ ∷ b1 ∷ rest) k small size n42 n183 =
      rw (complete_plain_1 c (b1 ∷ rest) small, map_plain_1 c (b1 ∷ rest) small)
        (ap (λ x. emit_keycode c (emit_keycode x k)) (map_stale b1 rest n42 n183))
