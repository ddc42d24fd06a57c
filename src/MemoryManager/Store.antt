-- ===== src/MemoryManager/Store.antt =====
-- The memory that rtos/src/memory_manager.c works on: a header `BlockLink_t` is read and written at an
-- address, a fault at NULL. `size_t` has 64 bits.
use libjoe.Base.{
  ℕ, ◌+◌, ◌-◌, ◌/◌, ◌%◌, ◌^◌, Bool, false, ◌==◌, if◌then◌else◌, Run, ok, fault, ◌>>=◌,
}

abbrev pub Ptr : Type 0
Ptr = ℕ

abbrev pub null : Ptr
null = 0

-- `BlockLink_t`
pub record BlockLink : Type 0 where
  pub next_free_block : Ptr
  pub block_size : ℕ

abbrev pub link : Ptr → ℕ → BlockLink
link n s = record { next_free_block = n; block_size = s }

-- The data of `struct _memory_manager`. Its `start_block` is a header at the address of this name,
-- outside the buffer.
pub record Manager : Type 0 where
  pub buff : Ptr
  pub buff_size : ℕ
  pub start_block : Ptr
  pub end_of_list : Ptr
  pub align_byte : ℕ
  pub align_mask : ℕ
  pub struct_size : ℕ
  pub byte_left : ℕ
  pub mini_byte_left : ℕ
  pub block_alloc_bit : ℕ

abbrev pub Cell : Type 0
Cell = Ptr → BlockLink

unfoldable pub write : Cell → Ptr → BlockLink → Cell
write c p b a = if a == p then b else c a

pub record Heap : Type 0 where
  pub mgr : Manager
  pub cell : Cell

abbrev pub Cmd : Type 0 → Type 0
Cmd A = Heap → Run Heap A

-- `size_t` arithmetic
abbrev pub size_mod : ℕ
size_mod = 2 ^ 64

abbrev pub add_size : ℕ → ℕ → ℕ
add_size a b = (a + b) % size_mod

abbrev pub sub_size : ℕ → ℕ → ℕ
sub_size a b = (a + size_mod - b) % size_mod

-- `x & mask` and `x & ~mask`, for a mask of the low bits.
abbrev pub low_bits : ℕ → ℕ → ℕ
low_bits x mask = x % (mask + 1)

abbrev pub clear_low : ℕ → ℕ → ℕ
clear_low x mask = x - x % (mask + 1)

-- `(x & bit) != 0`, `x | bit` and `x & ~bit`, for a `bit` that is 0 or a power of two.
abbrev pub has_bit : ℕ → ℕ → Bool
has_bit x bit = if bit == 0 then false else x / bit % 2 == 1

abbrev pub set_bit : ℕ → ℕ → ℕ
set_bit x bit = if has_bit x bit then x else x + bit

abbrev pub clear_bit : ℕ → ℕ → ℕ
clear_bit x bit = if has_bit x bit then x - bit else x

unfoldable pub load : Ptr → Cmd BlockLink
load p h = if p == null then fault else ok (h.cell p) h

-- `p->pxNextFreeBlock = q` and `p->xBlockSize = s`
unfoldable pub set_next : Ptr → Ptr → Cmd (Unit {0})
unfolding load
set_next p q = do
  b ← load p
  λ h. ok tt (record h { cell = write h.cell p (record b { next_free_block = q }) })

unfoldable pub set_size : Ptr → ℕ → Cmd (Unit {0})
unfolding load
set_size p s = do
  b ← load p
  λ h. ok tt (record h { cell = write h.cell p (record b { block_size = s }) })

abbrev pub get : Cmd Manager
get h = ok h.mgr h

abbrev pub put : Manager → Cmd (Unit {0})
put m h = ok tt (record h { mgr = m })
