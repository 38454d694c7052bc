-- ===== src/Ide/Detect/Polling.antt =====
-- What a drive is taken for, by its statuses.
use ikaros.Base.{
  ℕ, zero, suc, ◌+◌, ◌-◌, ◌*◌, ◌%◌, ◌<◌, ◌≡◌, refl, bit_and, Bool, true, false, not, ◌&&◌, ◌||◌,
  some, List, [], ◌∷◌, ◌++◌, ◌==◌, if◌then◌else◌, All, arith, get_or,
}
use ikaros.Ide.Detect.{Drive, absent, drive, poll, name_from, is_atapi, signature, detect_drive}

abbrev pub has_error : ℕ → Bool
has_error status = not (bit_and status 1 == 0)

abbrev pub has_words : ℕ → Bool
has_words status = bit_and status 128 == 0 && not (bit_and status 8 == 0)

-- Neither an error nor words to read.
abbrev pub Busy : ℕ → Type 0
Busy status = (has_error status ≡ false) × (has_words status ≡ false)

poll-Busy :
    (busy reads : List ℕ) (status : ℕ)
    → All Busy busy
    → has_error status || has_words status ≡ true
    → poll (busy ++ status ∷ reads) ≡ some (has_error status, reads)
unfolding poll
poll-Busy [] reads status all ends = ground arith
poll-Busy (s ∷ busy) reads status ((no_error, no_words), all) ends =
    rw (no_error, poll) (rw no_words (poll-Busy busy reads status all ends))

-- What the drive is, by the first status that ends the polling and by the signature.
abbrev pub kind : ℕ → ℕ → ℕ → (ℕ → ℕ) → Drive
kind status cl ch ide_buf =
    if has_error status
    then (if is_atapi cl ch then drive 1 (name_from 20 0 ide_buf) else absent)
    else drive 0 (name_from 20 0 ide_buf)

-- A drive whose first status is not 0, and that is busy for a time, is taken for what its next status
-- says: a disk where there are words to read and no error, a drive for packets where there is an error
-- and one of the two signatures, and nothing otherwise. A first status of 0 is no drive.
pub detect_drive_lem :
    (first status cl ch : ℕ) (busy reads : List ℕ) (ide_buf : ℕ → ℕ)
    → All Busy busy
    → has_error status || has_words status ≡ true
    → detect_drive (first ∷ busy ++ status ∷ cl ∷ ch ∷ reads) ide_buf
      ≡ (if first == 0 then absent else kind status cl ch ide_buf)
unfolding detect_drive signature
detect_drive_lem first status cl ch busy reads ide_buf all ends =
    rw (poll-Busy busy (cl ∷ ch ∷ reads) status all ends) (ground arith)

-- The place in the buffer of character `k` of the name.
abbrev pub swapped : ℕ → ℕ
swapped k = if k % 2 == 0 then k + 1 else k - 1

pub name_from_lem :
    (n k i : ℕ) (ide_buf : ℕ → ℕ)
    → k % 2 ≡ 0
    → i < 2 * n
    → get_or (name_from n k ide_buf) i 0 ≡ ide_buf (54 + swapped (k + i))
unfolding name_from
name_from_lem zero k i ide_buf even h = absurd (omega arith)
name_from_lem (suc n) k zero ide_buf even h =
    let e : 54 + k + 1 ≡ 54 + swapped (k + 0) = ground arith in rw e refl
name_from_lem (suc n) k (suc zero) ide_buf even h =
    let e : 54 + k ≡ 54 + swapped (k + 1) = ground arith in rw e refl
name_from_lem (suc n) k (suc (suc i)) ide_buf even h =
    let e : k + 2 + i ≡ k + suc (suc i) = omega arith in
    rw (← e) (name_from_lem n (k + 2) i ide_buf (omega arith) (omega arith))
