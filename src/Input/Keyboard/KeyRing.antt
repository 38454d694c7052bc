-- ===== src/Input/Keyboard/KeyRing.antt =====
-- The ring of keycodes as the history of what was emitted.
use ikaros.Base.{
  ℕ, zero, suc, ◌+◌, ◌-◌, ◌%◌, ◌<◌, ◌≡◌, ◌≢◌, refl, ◌∙◌, List, [], ◌∷◌, arith, length, get_or, set,
  length-set, get_or-set_self, get_or-set_ne, some, bit_and,
}
use ikaros.Sched.Wait.Wake.{Entries, Woken, wait_wake_up_interruptible-Woken}
use ikaros.Input.Keyboard.Modifiers.{held, held_after, held-update_modifiers}
use ikaros.Input.Keyboard.{Keyboard, store_key, kb_emit_keycode, is_release}

-- The slot that was written `k` emissions ago.
abbrev pub slot : ℕ → ℕ → ℕ
slot index k = (index + 128 - k) % 128

-- `emitted`, newest first, with its last 128 keycodes in the ring.
pub record Recent (kb : Keyboard) (emitted : List ℕ) : Type 0 where
  pub size : length kb.key_ring ≡ 128
  pub index : kb.key_ring_index < 128
  pub recent :
      (k : ℕ)
      → k < 128
      → k < length emitted
      → get_or kb.key_ring (slot kb.key_ring_index k) 0 ≡ get_or emitted k 0

slot-suc : (index m : ℕ) → index < 128 → m < 127 → slot ((index + 1) % 128) (suc m) ≡ slot index m
slot-suc index m h hm = omega arith

slot-zero : (index : ℕ) → index < 128 → slot index 0 ≡ index
slot-zero index h = omega arith

slot-ne : (index m : ℕ) → index < 128 → m < 127 → (index + 1) % 128 ≢ slot index m
slot-ne index m h hm e = omega arith

recent-set :
    (ring emitted : List ℕ) (index keycode k : ℕ)
    → length ring ≡ 128
    → index < 128
    → ((m : ℕ) → m < 128 → m < length emitted → get_or ring (slot index m) 0 ≡ get_or emitted m 0)
    → k < 128
    → k < length (keycode ∷ emitted)
    → get_or (set ring ((index + 1) % 128) keycode) (slot ((index + 1) % 128) k) 0
      ≡ get_or (keycode ∷ emitted) k 0
recent-set ring emitted index keycode zero size h recent lt within =
    rw (slot-zero ((index + 1) % 128) (omega arith))
      (get_or-set_self ring ((index + 1) % 128) keycode 0 (omega arith))
recent-set ring emitted index keycode (suc m) size h recent lt within =
    rw (slot-suc index m h (omega arith)) (
      get_or-set_ne ring ((index + 1) % 128) (slot index m) keycode 0
        (slot-ne index m h (omega arith))
      ∙ recent m (omega arith) (omega arith))

store_key-Recent :
    (keycode : ℕ) (kb : Keyboard) (emitted : List ℕ)
    → Recent kb emitted
    → Recent (store_key keycode kb) (keycode ∷ emitted)
unfolding store_key
store_key-Recent keycode kb emitted is = record {
  size = length-set kb.key_ring ((kb.key_ring_index + 1) % 128) keycode ∙ is.size;
  index = omega arith;
  recent = λ k lt within.
      recent-set kb.key_ring emitted kb.key_ring_index keycode k is.size is.index is.recent lt
        within;
}

-- A keyboard whose locks are free, with the tasks `xs` waiting for a key.
pub record Ready (kb : Keyboard) (xs : List ℕ) : Type 0 where
  pub lock : kb.key_state_lock ≡ 0
  pub queue_lock : kb.key_wait_queue.lock ≡ 0
  pub waiting : Entries kb.key_wait_queue.entries kb.key_wait_queue.head xs

-- What an emission does.
pub record Emitted (keycode : ℕ) (kb : Keyboard) (emitted : List ℕ) (xs : List ℕ) (kb1 : Keyboard)
    : Type 0 where
  pub recent : Recent kb1 (keycode ∷ emitted)
  pub modifiers :
      held kb1.key_modifiers
      ≡ held_after (bit_and keycode 255) (is_release keycode) (held kb.key_modifiers)
  pub woken : Woken kb.key_wait_queue xs kb1.key_wait_queue
  pub ready : Ready kb1 []

-- `__kb_emit_keycode` with the locks free, `xs` the tasks that wait, and the last keycodes of
-- `emitted` in the ring, returns: the new keycode is the newest of the ring with up to 127 of the
-- former ones behind it, the modifiers held follow the key pressed or released, every task that
-- waited is ready to run, and the locks are free with no task waiting.
pub kb_emit_keycode-Emitted :
    (fuel keycode : ℕ) (kb : Keyboard) (emitted xs : List ℕ)
    → Recent kb emitted
    → Ready kb xs
    → length xs < fuel
    → (kb1 : Keyboard) × (kb_emit_keycode fuel keycode kb ≡ some kb1)
      × Emitted keycode kb emitted xs kb1
unfolding kb_emit_keycode
kb_emit_keycode-Emitted fuel keycode kb emitted xs is ready enough =
    let (q, runs, w) =
      wait_wake_up_interruptible-Woken fuel kb.key_wait_queue xs enough ready.queue_lock
        ready.waiting in
    let stored = store_key-Recent keycode kb emitted is in
    (
      record (store_key keycode kb) { key_wait_queue = q },
      rw ready.lock (rw runs refl),
      record {
        recent = record { size = stored.size; index = stored.index; recent = stored.recent };
        modifiers =
            unfold store_key in
            held-update_modifiers (bit_and keycode 255) (is_release keycode) kb.key_modifiers;
        woken = w;
        ready = record {
          lock = unfold store_key in ready.lock;
          queue_lock = w.lock ∙ ready.queue_lock;
          waiting = w.empty;
        };
      },
    )
