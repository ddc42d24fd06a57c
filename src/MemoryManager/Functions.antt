-- ===== src/MemoryManager/Functions.antt =====
-- The functions of rtos/src/memory_manager.c, statement by statement. The walks over the free list run
-- on fuel, one more than `buff_size`.
use libjoe.Base.{
  ℕ, zero, suc, ◌+◌, ◌-◌, ◌*◌, ◌/◌, ◌%◌, ◌^◌, not, ◌&&◌, Option, none, some, ℤ, pos, minus_one, leb,
  ltb, ◌==◌, if◌then◌else◌, Run, ok, fault, out_of_fuel, pure, ◌>>=◌, ◌>>◌,
}
use libjoe.MemoryManager.Store.{
  Ptr, null, link, Manager, Cell, write, Heap, Cmd, size_mod, add_size, sub_size, low_bits,
  clear_low, has_bit, set_bit, clear_bit, load, set_next, set_size, get, put,
}

-- `prv_mini_block_size`
abbrev pub mini_block_size : Manager → ℕ
mini_block_size m = m.struct_size * 2 % size_mod

-- The loop of `prv_insert_block_into_free_list`.
unfoldable pub find_before : ℕ → (iterator block : Ptr) → Cmd Ptr
find_before zero iterator block = λ _. out_of_fuel
find_before (suc k) iterator block = do
  i ← load iterator
  if ltb i.next_free_block block then find_before k i.next_free_block block else pure iterator

-- What follows the loop: the block is merged with the one before it, then with the one behind it.
unfoldable pub merge_before : (iterator block : Ptr) → Cmd Ptr
merge_before iterator block = do
  i ← load iterator
  if add_size iterator i.block_size == block
      then (do
        b ← load block
        set_size iterator (add_size i.block_size b.block_size)
        pure iterator)
      else pure block

unfoldable pub merge_behind : (end_of_list iterator block : Ptr) → Cmd (Unit {0})
merge_behind end_of_list iterator block = do
  i ← load iterator
  b ← load block
  if add_size block b.block_size == i.next_free_block
      then if i.next_free_block == end_of_list then set_next block end_of_list else (do
        n ← load i.next_free_block
        set_size block (add_size b.block_size n.block_size)
        i' ← load iterator
        n' ← load i'.next_free_block
        set_next block n'.next_free_block)
      else set_next block i.next_free_block

unfoldable pub insert_behind : (end_of_list iterator block : Ptr) → Cmd (Unit {0})
unfolding merge_before merge_behind
insert_behind end_of_list iterator block = do
  block' ← merge_before iterator block
  merge_behind end_of_list iterator block'
  if iterator == block' then pure tt else set_next iterator block'

-- `prv_insert_block_into_free_list`
unfoldable pub insert_block_into_free_list : Ptr → Cmd (Unit {0})
unfolding insert_behind
insert_block_into_free_list block = do
  m ← get
  iterator ← find_before (m.buff_size + 1) m.start_block block
  insert_behind m.end_of_list iterator block

-- `prv_heap_init`: the address of the first block, and of the end marker.
unfoldable pub aligned_heap : Manager → Ptr × ℕ
aligned_heap m =
    if low_bits m.buff m.align_mask == 0
    then (m.buff, m.buff_size)
    else let a = clear_low (add_size m.buff (m.align_byte - 1)) m.align_mask in
      (a, sub_size m.buff_size (sub_size a m.buff))

unfoldable pub end_marker : Manager → Ptr
end_marker m =
    let (a, total) = aligned_heap m in
    clear_low (sub_size (add_size a total) m.struct_size) m.align_mask

-- The headers of the first block and of the end marker overlap if the one begins in the middle of the other: what
-- is written to the first block is then in the end marker too.
abbrev pub overlap : (a e : Ptr) → Cmd (Unit {0})
overlap a e =
    if e == a + 8 then set_next e (sub_size e a) else if a == e + 8 then set_size e e else pure tt

-- The test for a NULL manager is left out: the only call comes after the manager was read.
-- MMR_BUFF_NO_ASSIGN is 2. On the other path `prv_heap_init` returns no value; its caller uses none.
unfoldable pub heap_init : Cmd (Option ℤ)
unfolding aligned_heap end_marker
heap_init = do
  m ← get
  if m.buff == null then pure (some (pos 2)) else (do
    let a = (aligned_heap m).0
    let e = end_marker m
    set_next m.start_block a
    set_size m.start_block 0
    set_size e 0
    set_next e null
    set_size a (sub_size e a)
    set_next a e
    overlap a e
    put (record m {
      end_of_list = e;
      byte_left = sub_size e a;
      mini_byte_left = sub_size e a;
      block_alloc_bit = 2 ^ 63;
    })
    pure none)

-- The size that `memory_manager_allocate` looks for.
unfoldable pub wanted_size : Manager → ℕ → ℕ
wanted_size m size =
    if size == 0
    then 0
    else let s = add_size size m.struct_size in
      let r = low_bits s m.align_mask in if r == 0 then s else add_size s (m.align_byte - r)

unfoldable pub find_fit : ℕ → (previous block : Ptr) → (want : ℕ) → Cmd (Ptr × Ptr)
find_fit zero previous block want = λ _. out_of_fuel
find_fit (suc k) previous block want = do
  b ← load block
  if ltb b.block_size want && not (b.next_free_block == null)
      then find_fit k block b.next_free_block want
      else pure (previous, block)

-- The part of the block that is not needed goes back to the free list.
unfoldable pub split_block : Ptr → ℕ → Cmd (Unit {0})
split_block block want = do
  m ← get
  b ← load block
  if ltb (mini_block_size m) (sub_size b.block_size want)
      then (do
        let rest = add_size block want
        set_size rest (sub_size b.block_size want)
        set_size block want
        insert_block_into_free_list rest)
      else pure tt

unfoldable pub take_block : (previous block : Ptr) → (want : ℕ) → Cmd Ptr
take_block previous block want = do
  m ← get
  p ← load previous
  let result = add_size p.next_free_block m.struct_size
  b ← load block
  set_next previous b.next_free_block
  split_block block want
  b' ← load block
  m' ← get
  let left = sub_size m'.byte_left b'.block_size
  put (record m' {
    byte_left = left;
    mini_byte_left = if ltb left m'.mini_byte_left then left else m'.mini_byte_left;
  })
  set_size block (set_bit b'.block_size m'.block_alloc_bit)
  set_next block null
  pure result

unfoldable pub allocate_wanted : (want : ℕ) → Cmd Ptr
allocate_wanted want = do
  m ← get
  if ltb 0 want && leb want m.byte_left
      then (do
        s ← load m.start_block
        (previous, block) ← find_fit (m.buff_size + 1) m.start_block s.next_free_block want
        if block == m.end_of_list then pure null else take_block previous block want)
      else pure null

-- `memory_manager_allocate`
unfoldable pub allocate : ℕ → Cmd Ptr
unfolding allocate_wanted
allocate size = do
  m ← get
  _ ← (if m.end_of_list == null then heap_init else pure none)
  m' ← get
  if has_bit size m'.block_alloc_bit then pure null else allocate_wanted (wanted_size m' size)

-- `memory_manager_free`
unfoldable pub free : Ptr → Cmd ℤ
free pv = if pv == null then pure (pos 0) else (do
  m ← get
  let block = sub_size pv m.struct_size
  b ← load block
  if has_bit b.block_size m.block_alloc_bit && b.next_free_block == null
      then (do
        let size = clear_bit b.block_size m.block_alloc_bit
        set_size block size
        put (record m { byte_left = add_size m.byte_left size })
        insert_block_into_free_list block
        pure (pos 0))
      else pure (pos 0))

-- `memory_manager_left`, `none` for a NULL pointer
unfoldable pub memory_left : Option Manager → ℕ
memory_left none = 0
memory_left (some m) = m.byte_left

-- `memory_manager_remaining`, `none` for the division by 0
unfoldable pub remaining : Manager → Option ℕ
remaining m = if m.buff_size == 0 then none else some (m.byte_left * 100 % size_mod / m.buff_size)

-- The mask for an alignment of 1 to 32 bytes; otherwise it stays as it is.
abbrev pub mask_of : ℕ → ℕ → ℕ
mask_of align old =
    if align == 1
    then 0
    else if align == 2
    then 1
    else if align == 4
    then 3
    else if align == 8
    then 7
    else if align == 16
    then 15
    else if align == 32
    then 31
    else old

-- `memset(p, 0, n)`, for the headers in the range.
abbrev pub clear_range : Cell → Ptr → ℕ → Cell
clear_range c p n a = if leb p a && ltb a (p + n) then link null 0 else c a

-- The manager that `memory_manager_static_init` sets up; `sizeof(BlockLink_t)` is 16.
abbrev pub assigned : Manager → (buff : Ptr) → (buff_size : ℕ) → Manager
assigned m buff buff_size =
    let mask = mask_of 8 m.align_mask in
    record {
      buff = buff;
      buff_size = buff_size;
      start_block = m.start_block;
      end_of_list = null;
      align_byte = 8;
      align_mask = mask;
      struct_size = clear_low (add_size 16 7) mask;
      byte_left = 0;
      mini_byte_left = 0;
      block_alloc_bit = 0;
    }

-- `memory_manager_static_init`, `none` for a NULL pointer
unfoldable pub static_init : Option Heap → (buff : Ptr) → (buff_size : ℕ) → Run (Option Heap) ℤ
static_init none buff buff_size = ok minus_one none
static_init (some h) buff buff_size =
    if buff == null && ltb 0 buff_size
    then fault
    else ok (pos 0) (
        some record {
          mgr = assigned h.mgr buff buff_size;
          cell = write (clear_range h.cell buff buff_size) h.mgr.start_block (link null 0);
        })

-- `memory_manager_init` and `memory_manager_destroy`, which do nothing
abbrev pub memory_manager_init : Cmd ℤ
memory_manager_init = pure (pos 0)

abbrev pub memory_manager_destroy : Cmd ℤ
memory_manager_destroy = pure (pos 0)
