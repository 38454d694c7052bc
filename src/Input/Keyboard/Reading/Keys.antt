-- ===== src/Input/Keyboard/Reading/Keys.antt =====
-- A wait for a key that is woken by an emission.
use ikaros.Base.{
  ℕ, suc, ◌+◌, ◌%◌, ◌<◌, ◌≡◌, ◌≢◌, refl, ◌∙◌, ap, List, [], ◌∷◌, arith, length, get_or, true, false,
  none, Option, All, some, ◌==◌,
}
use ikaros.Sched.Task.{running, task_set_state}
use ikaros.Sched.Wait.{wait_init}
use ikaros.Input.Keyboard.{Keyboard}
use ikaros.Input.Keyboard.Reading.{
  key_ring_idx, emit_keys, with_queue, Key, getkey_round, getkey_loop, kb_getkey,
}
use ikaros.Sched.Wait.Rounds.{prepared, Entries-set, prepare_lem, finished, finish_lem}
use ikaros.Input.Keyboard.Reading.Emissions.{Calm, mods_after, newest, Queued, emit_keys_lem}

module _ (fuel wq tmp : ℕ) (others : List (List ℕ)) (yield : Keyboard → Key) (kb : Keyboard)
    (some_entry : wq ≢ 0) (free : kb.key_state_lock ≡ 0)
    (queue_free : kb.key_wait_queue.lock ≡ 0) where
  round-wait :
      kb.key_ring_index ≡ tmp
      → getkey_round (suc fuel) wq tmp others yield kb
        ≡ yield (with_queue kb (prepared wq kb.key_wait_queue))
  unfolding getkey_round key_ring_idx
  round-wait same =
      let here : (kb.key_ring_index == tmp) ≡ true = ground arith in
      rw (prepare_lem wq kb.key_wait_queue queue_free) (rw free (rw here refl))

  round-return :
      kb.key_ring_index ≢ tmp
      → getkey_round (suc fuel) wq tmp others yield kb
        ≡ some (
          get_or kb.key_ring kb.key_ring_index 0,
          others,
          with_queue kb (finished wq kb.key_wait_queue),
        )
  unfolding getkey_round key_ring_idx
  round-return moved =
      let away : (kb.key_ring_index == tmp) ≡ false = ground arith in
      rw (prepare_lem wq kb.key_wait_queue queue_free)
        (rw free (rw away (rw (finish_lem fuel wq kb.key_wait_queue some_entry) refl)))

loop-return :
    (fuel wq tmp : ℕ) (others : List (List ℕ)) (kb : Keyboard)
    → wq ≢ 0
    → kb.key_state_lock ≡ 0
    → kb.key_wait_queue.lock ≡ 0
    → kb.key_ring_index ≢ tmp
    → getkey_loop (suc fuel) wq tmp others kb
      ≡ some (
        get_or kb.key_ring kb.key_ring_index 0,
        others,
        with_queue kb (finished wq kb.key_wait_queue),
      )
unfolding getkey_loop
loop-return fuel wq tmp [] kb ne free queue_free moved =
    round-return fuel wq tmp [] _ kb ne free queue_free moved
loop-return fuel wq tmp (keys ∷ others) kb ne free queue_free moved =
    round-return fuel wq tmp (keys ∷ others) _ kb ne free queue_free moved

start_lem :
    (fuel wq : ℕ) (others : List (List ℕ)) (kb : Keyboard)
    → kb.key_state_lock ≡ 0
    → kb_getkey fuel wq others kb
      ≡ getkey_loop fuel wq kb.key_ring_index others
          (with_queue kb (wait_init wq kb.key_wait_queue))
unfolding kb_getkey key_ring_idx
start_lem fuel wq others kb free = rw free refl

-- What a yield comes to.
abbrev after_keys : ℕ → ℕ → ℕ → List (List ℕ) → Option Keyboard → Key
after_keys fuel wq tmp others none = none
after_keys fuel wq tmp others (some kb) = getkey_loop fuel wq tmp others kb

loop-wait :
    (fuel wq : ℕ) (keys : List ℕ) (others : List (List ℕ)) (kb : Keyboard)
    → wq ≢ 0
    → kb.key_state_lock ≡ 0
    → kb.key_wait_queue.lock ≡ 0
    → getkey_loop (suc fuel) wq kb.key_ring_index (keys ∷ others) kb
      ≡ after_keys
          (suc fuel)
          wq
          kb.key_ring_index
          others
          (emit_keys (suc fuel) keys (with_queue kb (prepared wq kb.key_wait_queue)))
unfolding getkey_loop
loop-wait fuel wq keys others kb ne free queue_free =
    round-wait fuel wq kb.key_ring_index (keys ∷ others) _ kb ne free queue_free refl ∙ ground arith

-- What `kb_getkey` comes to: the key, the schedule that is left, and the keyboard with nobody waiting
-- and the task running.
pub record Got (index mods key : ℕ) (left : List (List ℕ)) (r : Key) : Type 0 where
  pub keyboard : Keyboard
  pub returns : r ≡ some (key, left, keyboard)
  pub calm : Calm index mods keyboard
  pub nobody : Queued [] keyboard
  pub awake : (keyboard.key_wait_queue.store keyboard.key_wait_queue.running_task).state ≡ running

-- A wait for a key with the locks free, whose task is woken by one to 127 keys that are emitted in a
-- row, returns the newest of them; the others are lost to it. The modifiers follow all of them, the
-- task runs, and nobody waits any more, whoever waited before.
pub kb_getkey-newest :
    (fuel wq index mods : ℕ) (keys : List ℕ) (others : List (List ℕ)) (xs : List ℕ) (kb : Keyboard)
    → wq ≢ 0
    → Calm index mods kb
    → Queued xs kb
    → All (λ x. x ≢ wq) xs
    → 0 < length keys
    → length keys < 128
    → length xs < fuel
    → Got
        ((index + length keys) % 128)
        (mods_after keys mods)
        (newest keys 0)
        others
        (kb_getkey (suc fuel) wq (keys ∷ others) kb)
unfolding wait_init
kb_getkey-newest fuel wq index mods [] others xs kb ne calm queued apart some_key few enough =
    absurd (omega arith)
kb_getkey-newest fuel wq index mods (k ∷ keys) others xs kb ne calm queued apart some_key few
      enough =
    let q0 = wait_init wq kb.key_wait_queue in
    let kb0 = with_queue kb q0 in
    let kb1 = with_queue kb (prepared wq q0) in
    let calm1 : Calm index mods kb1 = record {
      lock = calm.lock;
      queue_lock = refl;
      size = calm.size;
      small = calm.small;
      at_index = calm.at_index;
      held = calm.held;
    } in
    let here : (wq == wq) ≡ true = ground arith in
    let waiting : Queued (wq ∷ xs) kb1 = (
      refl,
      ne,
      rw here (
          Entries-set (q0.entries) kb.key_wait_queue.head wq _ xs apart
            (Entries-set kb.key_wait_queue.entries kb.key_wait_queue.head wq _ xs apart queued)),
    ) in
    let (kb2, run, calm2, queued2, at2) =
      emit_keys_lem (suc fuel) (k ∷ keys) index mods (get_or kb.key_ring index 0) (wq ∷ xs) kb1
        calm1 waiting refl (omega arith) in
    let moved : kb2.key_ring_index ≢ kb.key_ring_index =
      λ e. omega (arith, e, calm2.at_index, calm.at_index, calm.small) in
    let at_newest : get_or kb2.key_ring kb2.key_ring_index 0 ≡ newest keys k =
      rw (calm2.at_index) at2 in
    let returned =
      loop-return fuel wq kb.key_ring_index others kb2 ne calm2.lock calm2.queue_lock moved in
    record {
      keyboard = with_queue kb2 (finished wq kb2.key_wait_queue);
      returns =
          start_lem (suc fuel) wq ((k ∷ keys) ∷ others) kb calm.lock
          ∙ loop-wait fuel wq (k ∷ keys) others kb0 ne calm.lock calm.queue_lock
          ∙ ap (after_keys (suc fuel) wq kb.key_ring_index others) run
          ∙ returned
          ∙ ap (λ key. some (key, others, with_queue kb2 (finished wq kb2.key_wait_queue)))
              at_newest;
      calm = record {
        lock = calm2.lock;
        queue_lock = refl;
        size = calm2.size;
        small = calm2.small;
        at_index = calm2.at_index;
        held = calm2.held;
      };
      nobody = queued2;
      awake = unfold task_set_state in ground arith;
    }
