-- ===== src/Input/Keyboard/Reading/Typed.antt =====
-- The characters that `kb_getch` gives, against the keys that come.
use ikaros.Base.{
  ℕ, zero, suc, ◌+◌, ◌/◌, ◌%◌, ◌<◌, ◌≡◌, ◌≢◌, refl, ap, sym, subst, bit_and, Option, none, some,
  List, [], ◌∷◌, map, arith, length, ◌==◌, if◌then◌else◌, Bool-cases, inl, inr,
}
use ikaros.Input.Keyboard.{Keyboard, update_modifiers, is_release, kb_map, kb_getmods}
use ikaros.Input.Keyboard.Reading.{kb_getkey, kb_getch, Key}
use ikaros.Input.Keyboard.Reading.Emissions.{Calm, Queued}
use ikaros.Input.Keyboard.Reading.Keys.{kb_getkey-newest}

-- The first press with a character under the modifiers held then, and the keys behind it.
abbrev pub typed : ℕ → List ℕ → Option (ℕ × List ℕ)
typed mods [] = none
typed mods (k ∷ keys) =
    let held = update_modifiers (bit_and k 255) (is_release k) mods in
    let ch = kb_map (k % 256) held in
    let rest = typed held keys in
    if k / 256 % 256 == 0 then (if ch == 0 then rest else some (ch, keys)) else rest

-- Each key comes alone.
abbrev pub singles : List ℕ → List (List ℕ)
singles keys = map (λ k. k ∷ []) keys

abbrev key_with : Keyboard → Option (ℕ × List ℕ) → Key
key_with kb none = none
key_with kb (some (ch, keys)) = some (ch, singles keys, kb)

-- What `kb_getch` comes to.
pub record GotCh (ch : ℕ) (left : List (List ℕ)) (r : Key) : Type 0 where
  pub keyboard : Keyboard
  pub index : ℕ
  pub mods : ℕ
  pub returns : r ≡ some (ch, left, keyboard)
  pub calm : Calm index mods keyboard
  pub nobody : Queued [] keyboard

getch_step :
    (rounds fuel wq key : ℕ) (others left : List (List ℕ)) (kb kb1 : Keyboard) (mods : ℕ)
    → kb_getkey fuel wq others kb ≡ some (key, left, kb1)
    → kb_getmods kb1 ≡ some mods
    → kb_getch (suc rounds) fuel wq others kb ≡ (
        if key / 256 % 256 == 0
        then (if kb_map (key % 256) mods == 0
            then kb_getch rounds fuel wq left kb1
            else some (kb_map (key % 256) mods, left, kb1))
        else kb_getch rounds fuel wq left kb1)
unfolding kb_getch
getch_step rounds fuel wq key others left kb kb1 mods run held = rw (run, kb_getch) (rw held refl)

Calm-getmods : (index mods : ℕ) (kb : Keyboard) → Calm index mods kb → kb_getmods kb ≡ some mods
unfolding kb_getmods
Calm-getmods index mods kb calm = ground (arith, calm.lock, calm.held)

-- Where each key comes alone and the locks are free, `kb_getch` skips the releases and the keys without
-- a character, and returns the character of the first other key under the modifiers held then; the
-- keys behind it are left.
pub kb_getch-typed :
    (keys : List ℕ) (rounds fuel wq index mods ch : ℕ) (left : List ℕ) (kb : Keyboard)
    → wq ≢ 0
    → Calm index mods kb
    → Queued [] kb
    → 0 < fuel
    → length keys < rounds
    → typed mods keys ≡ some (ch, left)
    → GotCh ch (singles left) (kb_getch rounds (suc fuel) wq (singles keys) kb)
kb_getch-typed [] rounds fuel wq index mods ch left kb ne calm nobody some_fuel enough is =
    absurd (cc)
kb_getch-typed (k ∷ keys) zero fuel wq index mods ch left kb ne calm nobody some_fuel enough is =
    absurd (omega arith)
kb_getch-typed (k ∷ keys) (suc rounds) fuel wq index mods ch left kb ne calm nobody some_fuel enough
      is =
    let held = update_modifiers (bit_and k 255) (is_release k) mods in
    let got =
      kb_getkey-newest fuel wq index mods (k ∷ []) (singles keys) [] kb ne calm nobody tt
        (omega arith) (omega arith) some_fuel in
    let step =
      getch_step rounds (suc fuel) wq k (singles (k ∷ keys)) (singles keys) kb got.keyboard held
        got.returns (Calm-getmods _ held got.keyboard got.calm) in
    let go_on : typed held keys ≡ some (ch, left)
        → GotCh ch (singles left) (kb_getch rounds (suc fuel) wq (singles keys) got.keyboard) =
      λ later.
        kb_getch-typed keys rounds fuel wq ((index + 1) % 128) held ch left got.keyboard ne got.calm
          got.nobody some_fuel (omega arith) later in
    subst (GotCh ch (singles left)) (sym step) (elim (Bool-cases (k / 256 % 256 == 0)) [
      | inl press ↦ elim (Bool-cases (kb_map (k % 256) held == 0)) [
        | inl blank ↦ rw (press, blank) (go_on (rw (press, blank) at is))
        | inr shown ↦
            let same : some (kb_map (k % 256) held, keys) ≡ some (ch, left) =
              rw (press, shown) at is in
            rw (press, shown)
              (record {
                keyboard = got.keyboard;
                index = (index + 1) % 128;
                mods = held;
                returns = ap (key_with got.keyboard) same;
                calm = got.calm;
                nobody = got.nobody;
              })
      ]
      | inr release ↦ rw release (go_on (rw release at is))
    ])
