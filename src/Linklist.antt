-- ===== src/Linklist.antt =====
-- linux/src/linklist.c and linux/include/linklist.h: the doubly linked list (list_*) and the locked
-- object around it (Linklist_*).
pub mod Store
pub mod Functions
pub mod Chain
pub mod Commands
pub mod Rep
mod Link
pub mod Insert
mod Unlink
pub mod Remove
pub mod Index
pub mod InsertIndex
pub mod Headers
pub mod Mutex
pub mod Objects
pub mod Locking
mod Tests
mod ObjectTests
