-- ===== src/Memory/Directory/Stores.antt =====
-- Stores through page tables whose entries are known.
use ikaros.Base.{
  ℕ, zero, suc, ◌+◌, ◌-◌, ◌*◌, ◌/◌, ◌%◌, ◌^◌, ◌≤◌, ◌<◌, ◌≡◌, ◌≢◌, ◌∙◌, refl, ap, sym, some, false,
  arith, ltb, leb, ◌&&◌, ◌==◌, if◌then◌else◌,
}
use mathlib.Core.Path.{fun_ext}
use ikaros.Base.Fields.{bit_or_add}
use ikaros.Memory.Directory.{
  Machine, Outcome, done, frame_of, write_word, store, load, store_each, entry,
}

pub entry_lem : (p flags : ℕ) → p < 2 ^ 20 → flags < 4096 → entry p flags ≡ p * 4096 + flags
entry_lem p flags low h =
    let plain : p * 4096 % 2 ^ 32 ≡ p * 4096 = omega arith in rw plain (bit_or_add 12 p flags h)

-- Both entries of an address are present, with the page `t` of its table and its own page `f`.
pub record Maps (words : ℕ → ℕ) (cr3 vaddr t f : ℕ) : Type 0 where
  pub pde : words (cr3 * 1024 + vaddr / 2 ^ 22) ≡ t * 4096 + 3
  pub pte : words (t * 1024 + vaddr / 2 ^ 12 % 1024) ≡ f * 4096 + 3

pub frame_of-Maps :
    (words : ℕ → ℕ) (cr3 vaddr t f : ℕ)
    → Maps words cr3 vaddr t f
    → frame_of words cr3 vaddr ≡ some f
unfolding frame_of
frame_of-Maps words cr3 vaddr t f maps =
    let table : (t * 4096 + 3) / 4096 ≡ t = omega arith in
    let own : (f * 4096 + 3) / 4096 ≡ f = omega arith in
    let odd_t : ((t * 4096 + 3) % 2 == 0) ≡ false = ground arith in
    let odd_f : ((f * 4096 + 3) % 2 == 0) ≡ false = ground arith in
    rw (maps.pde) (rw (table, odd_t) (rw (maps.pte) (rw (own, odd_f) refl)))

abbrev pub with_words : (ℕ → ℕ) → Machine → Machine
with_words words m = record m { words = words }

pub store-Maps :
    (vaddr x : ℕ) (m : Machine) (t f : ℕ)
    → Maps m.words m.cr3 vaddr t f
    → store vaddr x m ≡ done (with_words (write_word (f * 1024 + vaddr % 4096 / 4) x m.words) m)
unfolding store
store-Maps vaddr x m t f maps = rw (frame_of-Maps m.words m.cr3 vaddr t f maps) refl

pub load-Maps :
    (vaddr : ℕ) (m : Machine) (t f : ℕ)
    → Maps m.words m.cr3 vaddr t f
    → load vaddr m ≡ some (m.words (f * 1024 + vaddr % 4096 / 4))
unfolding load
load-Maps vaddr m t f maps = rw (frame_of-Maps m.words m.cr3 vaddr t f maps, load) refl

-- A store into a page that is neither the directory nor the table leaves an address mapped.
write_word-Maps :
    (words : ℕ → ℕ) (cr3 vaddr t f k x : ℕ)
    → k / 1024 ≢ cr3
    → k / 1024 ≢ t
    → vaddr < 2 ^ 32
    → Maps words cr3 vaddr t f
    → Maps (write_word k x words) cr3 vaddr t f
write_word-Maps words cr3 vaddr t f k x off_d off_t low maps = record {
  pde = let away : (cr3 * 1024 + vaddr / 2 ^ 22 == k) ≡ false = ground arith in rw away maps.pde;
  pte =
      let away : (t * 1024 + vaddr / 2 ^ 12 % 1024 == k) ≡ false = ground arith in rw away maps.pte;
}

-- Page `f` with its words from `i` on, `n` of them, given by `value`.
abbrev pub filled : ℕ → ℕ → ℕ → (ℕ → ℕ) → (ℕ → ℕ) → ℕ → ℕ
filled f i n value words k =
    if leb (f * 1024 + i) k && ltb k (f * 1024 + i + n) then value (k - f * 1024) else words k

filled-suc :
    (f i n : ℕ) (value words : ℕ → ℕ) (k : ℕ)
    → filled f (i + 1) n value (write_word (f * 1024 + i) (value i) words) k
      ≡ filled f i (suc n) value words k
filled-suc f i n value words k =
    let here : f * 1024 + i - f * 1024 ≡ i = omega arith in ground (arith, here)

-- The address `vaddr + i * 4` of a page is mapped as the page is.
Maps-within :
    (words : ℕ → ℕ) (cr3 vaddr i t f : ℕ)
    → vaddr % 4096 ≡ 0
    → i < 1024
    → Maps words cr3 vaddr t f
    → Maps words cr3 (vaddr + i * 4) t f
Maps-within words cr3 vaddr i t f on_page low maps =
    let same_d : (vaddr + i * 4) / 2 ^ 22 ≡ vaddr / 2 ^ 22 = omega arith in
    let same_t : (vaddr + i * 4) / 2 ^ 12 % 1024 ≡ vaddr / 2 ^ 12 % 1024 = omega arith in
    record { pde = rw same_d maps.pde; pte = rw same_t maps.pte }

pub store_each-filled :
    (n i vaddr : ℕ) (value : ℕ → ℕ) (m : Machine) (t f : ℕ)
    → vaddr % 4096 ≡ 0
    → vaddr < 2 ^ 32
    → i + n ≤ 1024
    → f ≢ m.cr3
    → f ≢ t
    → Maps m.words m.cr3 vaddr t f
    → store_each n i vaddr value m ≡ done (with_words (filled f i n value m.words) m)
unfolding store_each
store_each-filled zero i vaddr value m t f on_page low room off_d off_t maps =
    let same : filled f i 0 value m.words ≡ m.words = fun_ext (λ k. ground arith) in
    ap (λ w. done (with_words w m)) (sym same)
store_each-filled (suc n) i vaddr value m t f on_page low room off_d off_t maps =
    let at : (vaddr + i * 4) % 4096 / 4 ≡ i = omega arith in
    let words1 = write_word (f * 1024 + i) (value i) m.words in
    let page_of : (f * 1024 + i) / 1024 ≡ f = omega arith in
    let maps1 =
      write_word-Maps m.words m.cr3 vaddr t f (f * 1024 + i) (value i) (rw page_of off_d)
        (rw page_of off_t) low maps in
    let run =
      store-Maps (vaddr + i * 4) (value i) m t f
        (Maps-within m.words m.cr3 vaddr i t f on_page (omega arith) maps) in
    rw (run, store_each)
      (rw at (
        store_each-filled n (i + 1) vaddr value (with_words words1 m) t f on_page low (omega arith)
          off_d off_t maps1
        ∙ ap {B = Outcome} (λ w. done (with_words w m)) (fun_ext (filled-suc f i n value m.words))))
