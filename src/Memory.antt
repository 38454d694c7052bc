-- ===== src/Memory.antt =====
-- The physical memory: its map at boot (Map), the page allocator (Region), and what the boot code
-- does with both (Boot).
pub mod Region
pub mod Map
pub mod Boot
pub mod Tags
pub mod Paging
pub mod Directory
pub mod Mmio
pub mod Tests
