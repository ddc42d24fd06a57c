-- ===== src/MemoryManager.antt =====
-- rtos/src/memory_manager.c and rtos/include/memory_manager.h: a first-fit allocator over a buffer,
-- with a free list in address order whose neighbours are merged.
pub mod Store
pub mod Functions
pub mod FreeList
pub mod Chain
pub mod InsertBlock
pub mod Insert
pub mod Rep
pub mod Free
pub mod FirstFit
pub mod Split
pub mod Take
pub mod Allocate
pub mod Init
pub mod RoundTrip
mod Tests
