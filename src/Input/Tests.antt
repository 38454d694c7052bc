-- ===== src/Input/Tests.antt =====
-- The keyboard at a few keys.
use ikaros.Base.{ℕ, ◌≡◌, refl, true, List, [], ◌∷◌, some, arith, replicate}
use ikaros.Sched.Task.{Task, running}
use ikaros.Input.Keyboard.{Keyboard, kb_emit_keycode, update_modifiers, kb_map}
use ikaros.Input.Keyboard.Reading.{kb_getkey, kb_getch}
use ikaros.Input.Keyboard.Reading.Emissions.{Calm, mods_after}
use ikaros.Input.Keyboard.Reading.Keys.{Got, kb_getkey-newest}
use ikaros.Input.Keyboard.Reading.Typed.{typed, singles, GotCh, kb_getch-typed}
use ikaros.Input.Keyboard.KeyRing.{Recent, Ready, Emitted, kb_emit_keycode-Emitted}
use ikaros.Input.AtKeyboard.{Ps2Keyboard, init_ps2_keyboard, keyboard_handler}
use ikaros.Input.AtKeyboard.Bounded.{Gathering, keyboard_handler-Gathering}
use ikaros.Input.AtKeyboard.Sequences.{
  KeyEvent, make, break, break_extended, pause, sent_all, emit_all, keyboard_handler-sent_all,
}

abbrev a_task : Task
a_task = record {
  regs = record {
    eax = 0;
    ebx = 0;
    ecx = 0;
    edx = 0;
    esi = 0;
    edi = 0;
    esp = 0;
    ebp = 0;
    eip = 0;
    eflags = 0;
    cr3 = 0;
  };
  next = 0;
  name = 0;
  state = running;
}

-- Task 100 waits for a key, and shift is held.
abbrev keyboard : Keyboard
keyboard = record {
  key_state_lock = 0;
  key_ring_index = 0;
  key_ring = replicate 128 0;
  key_modifiers = 1;
  key_wait_queue = record {
    head = 50;
    lock = 0;
    entries = λ p. record { next = 0; task = 100 };
    store = λ p. a_task;
    running_task = 200;
    irq = true;
  };
}

keyboard-Recent : Recent keyboard []
keyboard-Recent = record {
  size = refl;
  index = omega arith;
  recent = λ k lt within. elim within [ ];
}

keyboard-Ready : Ready keyboard (50 ∷ [])
keyboard-Ready = record {
  lock = refl;
  queue_lock = refl;
  waiting = (refl, (λ e. omega arith), refl);
}

kb_emit_keycode-Emitted_example :
    (kb1 : Keyboard) × (kb_emit_keycode 2 298 keyboard ≡ some kb1)
    × Emitted 298 keyboard [] (50 ∷ []) kb1
kb_emit_keycode-Emitted_example =
    kb_emit_keycode-Emitted 2 298 keyboard [] (50 ∷ []) keyboard-Recent keyboard-Ready (omega arith)

abbrev set_2 : Ps2Keyboard
set_2 = record init_ps2_keyboard { scancode_set = 1 }

abbrev log : ℕ → List ℕ → List ℕ
log keycode ks = keycode ∷ ks

set_2-Gathering : Gathering set_2
unfolding init_ps2_keyboard
set_2-Gathering = record { size = refl; known_set = omega arith; begun = refl }

keyboard_handler-Gathering_example :
    Gathering (keyboard_handler log (225 ∷ 20 ∷ 240 ∷ 224 ∷ []) set_2 []).0
keyboard_handler-Gathering_example =
    keyboard_handler-Gathering log (225 ∷ 20 ∷ 240 ∷ 224 ∷ []) set_2 [] set_2-Gathering

abbrev events : List KeyEvent
events = make 28 ∷ break 28 ∷ pause ∷ break_extended 116 ∷ []

keyboard_handler-sent_all_example :
    (keyboard_handler log
      (sent_all events)
      (record { scancode_buffer = replicate 16 7; scancode_index = 0; scancode_set = 1 })
      []).1
    ≡ emit_all log events []
keyboard_handler-sent_all_example =
    keyboard_handler-sent_all log events (replicate 16 7) []
      (((λ e. omega arith), (λ e. omega arith), (λ e. omega arith)), (tt, (tt, (tt, tt)))) refl

-- Nobody waits, and no key is held.
abbrev quiet : Keyboard
quiet = record keyboard {
  key_modifiers = 0;
  key_wait_queue = record (keyboard.key_wait_queue) { head = 0 };
}

quiet-Calm : Calm 0 0 quiet
quiet-Calm = record {
  lock = refl;
  queue_lock = refl;
  size = refl;
  small = omega arith;
  at_index = refl;
  held = refl;
}

-- Shift and A are pressed before the task runs again.
kb_getkey-newest_example :
    Got 2 (mods_after (42 ∷ 30 ∷ []) 0) 30 [] (kb_getkey 2 60 ((42 ∷ 30 ∷ []) ∷ []) quiet)
kb_getkey-newest_example =
    kb_getkey-newest 1 60 0 0 (42 ∷ 30 ∷ []) [] [] quiet (λ e. omega arith) quiet-Calm refl tt
      (omega arith) (omega arith) (omega arith)

typed_a : typed 0 (42 ∷ 286 ∷ 30 ∷ 31 ∷ []) ≡ some (65, 31 ∷ [])
unfolding update_modifiers kb_map
typed_a = refl

-- Shift, the release of A, A, and S.
kb_getch-typed_example :
    GotCh 65 (singles (31 ∷ [])) (kb_getch 5 2 60 (singles (42 ∷ 286 ∷ 30 ∷ 31 ∷ [])) quiet)
kb_getch-typed_example =
    kb_getch-typed (42 ∷ 286 ∷ 30 ∷ 31 ∷ []) 5 1 60 0 0 65 (31 ∷ []) quiet (λ e. omega arith)
      quiet-Calm refl (omega arith) (omega arith) typed_a
