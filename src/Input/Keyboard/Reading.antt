-- ===== src/Input/Keyboard/Reading.antt =====
-- `kb_getkey` and `kb_getch` of kernel/kernel/input/keyboard.c. What happens while the task is away is
-- a schedule: for each time that it yields, the keycodes that are emitted before it runs again. A read
-- between two yields sees no emission. `none` is a call that does not return.
pub mod Emissions
pub mod Keys
pub mod Typed
use ikaros.Base.{
  ℕ, zero, suc, ◌+◌, ◌/◌, ◌%◌, Bool, true, false, Option, none, some, List, [], ◌∷◌, ◌==◌,
  if◌then◌else◌, get_or,
}
use ikaros.Sched.Task.{interruptible}
use ikaros.Sched.Wait.{
  Queue, Run, done, spins, endless, wait_init, wait_prepare_to_wait, wait_finish,
}
use ikaros.Input.Keyboard.{Keyboard, kb_emit_keycode, kb_getmods, kb_map}

unfoldable pub key_ring_idx : Keyboard → Option ℕ
key_ring_idx kb = if kb.key_state_lock == 0 then some kb.key_ring_index else none

unfoldable pub emit_keys : ℕ → List ℕ → Keyboard → Option Keyboard
emit_keys fuel [] kb = some kb
emit_keys fuel (keycode ∷ keys) kb = elim (kb_emit_keycode fuel keycode kb) [
  | none ↦ none
  | some kb1 ↦ emit_keys fuel keys kb1
]

abbrev pub with_queue : Keyboard → Queue → Keyboard
with_queue kb q = record kb { key_wait_queue = q }

-- The key, what is left of the schedule, and the keyboard.
abbrev pub Key : Type 0
Key = Option (ℕ × List (List ℕ) × Keyboard)

abbrev pub key_at : ℕ → List (List ℕ) → Keyboard → Run → Key
key_at cmp others kb (done q) = some (get_or kb.key_ring cmp 0, others, with_queue kb q)
key_at cmp others kb spins = none
key_at cmp others kb endless = none

abbrev pub check_key : ℕ → ℕ → ℕ → List (List ℕ) → (Keyboard → Key) → Keyboard → Option ℕ → Key
check_key fuel wq tmp others yield kb none = none
check_key fuel wq tmp others yield kb (some cmp) =
    if cmp == tmp then yield kb else key_at cmp others kb (wait_finish fuel wq kb.key_wait_queue)

abbrev pub prepared_key : ℕ → ℕ → ℕ → List (List ℕ) → (Keyboard → Key) → Keyboard → Run → Key
prepared_key fuel wq tmp others yield kb (done q) =
    check_key fuel wq tmp others yield (with_queue kb q) (key_ring_idx (with_queue kb q))
prepared_key fuel wq tmp others yield kb spins = none
prepared_key fuel wq tmp others yield kb endless = none

-- A round of the wait: `yield` is what follows where no key has come.
unfoldable pub getkey_round : ℕ → ℕ → ℕ → List (List ℕ) → (Keyboard → Key) → Keyboard → Key
getkey_round fuel wq tmp others yield kb =
    prepared_key fuel wq tmp others yield kb
      (wait_prepare_to_wait wq interruptible kb.key_wait_queue)

unfoldable pub getkey_loop : ℕ → ℕ → ℕ → List (List ℕ) → Keyboard → Key
getkey_loop fuel wq tmp [] kb = getkey_round fuel wq tmp [] (λ kb1. none) kb
getkey_loop fuel wq tmp (keys ∷ others) kb =
    getkey_round fuel wq tmp (keys ∷ others)
      (λ kb1. elim (emit_keys fuel keys kb1) [
        | none ↦ none
        | some kb2 ↦ getkey_loop fuel wq tmp others kb2
      ])
      kb

unfoldable pub kb_getkey : ℕ → ℕ → List (List ℕ) → Keyboard → Key
kb_getkey fuel wq others kb = elim (key_ring_idx kb) [
  | none ↦ none
  | some tmp ↦ getkey_loop fuel wq tmp others (with_queue kb (wait_init wq kb.key_wait_queue))
]

-- `while(1)` on fuel: rounds are spent on keys that give no character.
unfoldable pub kb_getch : ℕ → ℕ → ℕ → List (List ℕ) → Keyboard → Key
kb_getch zero fuel wq others kb = none
kb_getch (suc rounds) fuel wq others kb = elim (kb_getkey fuel wq others kb) [
  | none ↦ none
  | some (key, left, kb1) ↦
      let again = kb_getch rounds fuel wq left kb1 in
      if key / 256 % 256 == 0
      then elim (kb_getmods kb1) [
        | none ↦ none
        | some mods ↦
            let ch = kb_map (key % 256) mods in if ch == 0 then again else some (ch, left, kb1)
      ]
      else again
]
