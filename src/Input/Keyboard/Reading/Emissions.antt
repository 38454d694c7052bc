-- ===== src/Input/Keyboard/Reading/Emissions.antt =====
-- Keys that are emitted while a task waits.
use ikaros.Base.{
  ℕ, suc, ◌+◌, ◌%◌, ◌<◌, ◌≡◌, refl, ◌∙◌, sym, ap, List, [], ◌∷◌, arith, length, get_or, length-set,
  get_or-set_self, some, bit_and,
}
use ikaros.Sched.Wait.Wake.{Entries, wait_wake_up_interruptible-Woken}
use ikaros.Input.Keyboard.{Keyboard, store_key, update_modifiers, kb_emit_keycode, is_release}
use ikaros.Input.Keyboard.Reading.{emit_keys, with_queue}

-- The locks are free, and the ring is whole.
pub record Calm (index mods : ℕ) (kb : Keyboard) : Type 0 where
  pub lock : kb.key_state_lock ≡ 0
  pub queue_lock : kb.key_wait_queue.lock ≡ 0
  pub size : length kb.key_ring ≡ 128
  pub small : index < 128
  pub at_index : kb.key_ring_index ≡ index
  pub held : kb.key_modifiers ≡ mods

-- The modifiers after some keys.
abbrev pub mods_after : List ℕ → ℕ → ℕ
mods_after [] mods = mods
mods_after (k ∷ keys) mods = mods_after keys (update_modifiers (bit_and k 255) (is_release k) mods)

-- The newest of the keys, or `old`.
abbrev pub newest : List ℕ → ℕ → ℕ
newest [] old = old
newest (k ∷ keys) old = newest keys k

-- The queue holds the entries `xs`.
abbrev pub Queued : List ℕ → Keyboard → Type 0
Queued xs kb = Entries kb.key_wait_queue.entries kb.key_wait_queue.head xs

-- Any key empties the queue.
abbrev pub left_after : List ℕ → List ℕ → List ℕ
left_after [] xs = xs
left_after (k ∷ keys) xs = []

left_after-nil : (keys : List ℕ) → left_after keys [] ≡ []
left_after-nil [] = refl
left_after-nil (k ∷ keys) = refl

emit_lem :
    (fuel keycode index mods : ℕ) (xs : List ℕ) (kb : Keyboard)
    → Calm index mods kb
    → Queued xs kb
    → length xs < fuel
    → (kb1 : Keyboard) × (kb_emit_keycode fuel keycode kb ≡ some kb1)
      × Calm
          ((index + 1) % 128)
          (update_modifiers (bit_and keycode 255) (is_release keycode) mods)
          kb1
      × Queued [] kb1
      × (get_or kb1.key_ring ((index + 1) % 128) 0 ≡ keycode)
unfolding kb_emit_keycode store_key
emit_lem fuel keycode index mods xs kb calm queued enough =
    let (q, run, w) =
      wait_wake_up_interruptible-Woken fuel kb.key_wait_queue xs enough calm.queue_lock queued in
    (
      with_queue (store_key keycode kb) q,
      rw (calm.lock) (rw run refl),
      record {
        lock = calm.lock;
        queue_lock = w.lock ∙ calm.queue_lock;
        size = length-set kb.key_ring ((kb.key_ring_index + 1) % 128) keycode ∙ calm.size;
        small = omega arith;
        at_index = ap (λ i. (i + 1) % 128) calm.at_index;
        held = ap (update_modifiers (bit_and keycode 255) (is_release keycode)) calm.held;
      },
      w.empty,
      rw (sym (calm.at_index)) (
          get_or-set_self kb.key_ring ((kb.key_ring_index + 1) % 128) keycode 0
            (omega (arith, calm.size))),
    )

-- Keys that are emitted in a row: the last is the one at the index.
pub emit_keys_lem :
    (fuel : ℕ) (keys : List ℕ) (index mods old : ℕ) (xs : List ℕ) (kb : Keyboard)
    → Calm index mods kb
    → Queued xs kb
    → get_or kb.key_ring index 0 ≡ old
    → length xs < fuel
    → (kb1 : Keyboard) × (emit_keys fuel keys kb ≡ some kb1)
      × Calm ((index + length keys) % 128) (mods_after keys mods) kb1
      × Queued (left_after keys xs) kb1
      × (get_or kb1.key_ring ((index + length keys) % 128) 0 ≡ newest keys old)
unfolding emit_keys
emit_keys_lem fuel [] index mods old xs kb calm queued at enough =
    let same : (index + 0) % 128 ≡ index = omega (arith, calm.small) in
    (kb, refl, rw same calm, queued, rw same at)
emit_keys_lem fuel (k ∷ keys) index mods old xs kb calm queued at enough =
    let (kb1, run1, calm1, queued1, at1) = emit_lem fuel k index mods xs kb calm queued enough in
    let (kb2, run2, calm2, queued2, at2) =
      emit_keys_lem fuel keys ((index + 1) % 128)
        (update_modifiers (bit_and k 255) (is_release k) mods) k [] kb1 calm1 queued1 at1
        (omega arith) in
    let same : ((index + 1) % 128 + length keys) % 128 ≡ (index + suc (length keys)) % 128 =
      omega arith in
    (
      kb2,
      rw (run1, emit_keys) run2,
      rw (sym same) calm2,
      rw (left_after-nil keys) at queued2,
      rw (sym same) at2,
    )
