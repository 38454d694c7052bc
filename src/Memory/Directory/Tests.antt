-- ===== src/Memory/Directory/Tests.antt =====
-- A machine whose boot code has its directory on page 10 and its table on page 11, with the kernel up to
-- page 20 and a region of 512 pages behind the first 256.
use ikaros.Base.{ℕ, ◌+◌, ◌*◌, ◌≡◌, refl, ◌∷◌, [], arith, ◌==◌, if◌then◌else◌, replicate}
use ikaros.Memory.Region.{State, memory_bitmap_size}
use ikaros.Memory.Region.Order.{Filled, early_init-Filled}
use ikaros.Memory.Directory.{Machine, done, paging_earlyinit}
use ikaros.Memory.Directory.Built.{Booted, high}
use ikaros.Memory.Directory.Kernel.{KernelSpace, paging_earlyinit_lem}

abbrev boot_words : ℕ → ℕ
boot_words a =
    if a == 10 * 1024 + 768
    then 11 * 4096 + 3
    else if a == 11 * 1024 + 10
    then 10 * 4096 + 3
    else if a == 11 * 1024 + 11
    then 11 * 4096 + 3
    else 0

region : State
region = record {
  chain = record { base = 256; length = 512; bitmap = replicate memory_bitmap_size 0 } ∷ [];
  last_free = 0;
}

region-Filled : Filled 256 512 0 region
unfolding region
region-Filled = early_init-Filled memory_bitmap_size 256 512 (omega arith) (omega arith)

abbrev machine : Machine
machine = record { words = boot_words; cr3 = 10; allocator = region }

boot_words-Booted : Booted boot_words 10 11
boot_words-Booted = record { kernel = refl; directory = refl; itself = refl }

paging_earlyinit_lem_example :
    (m' : Machine) × (paging_earlyinit (high 10) (high 11) 3221229568 3221307492 machine ≡ done m')
    × KernelSpace 256 512 2 256 21 m'
paging_earlyinit_lem_example =
    paging_earlyinit_lem 256 512 0 10 11 3221229568 3221307492 machine refl boot_words-Booted
      region-Filled (omega arith) (omega arith) (omega arith) (omega arith) (omega arith)
      (omega arith) (omega arith) (omega arith) (omega arith) (omega arith) (omega arith)
