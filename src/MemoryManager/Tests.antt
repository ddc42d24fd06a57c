-- ===== src/MemoryManager/Tests.antt =====
-- The functions of rtos/src/memory_manager.c on a buffer of 256 bytes, and the theorems at it.
use libjoe.Base.{
  ℕ, ◌+◌, ◌^◌, ◌≤◌, ◌<◌, ◌≡◌, refl, inl, inr, ◌||◌, some, [], ◌∷◌, ◌==◌, false, arith, pos, ok,
}
use libjoe.MemoryManager.Store.{Ptr, null, link, Manager, Cell, write, Heap}
use libjoe.MemoryManager.Functions.{
  wanted_size, insert_block_into_free_list, allocate, free, static_init,
}
use libjoe.MemoryManager.FreeList.{Blocks, Apart, covers, inside, total, insert_merged}
use libjoe.MemoryManager.Chain.{heap, has, write_self}
use libjoe.MemoryManager.Rep.{IsFreeList, insert_block_into_free_list-IsFreeList}
use libjoe.MemoryManager.Free.{
  IsManager, IsTaken, with_left, top_bit, IsFreeList-write, free-IsManager,
}
use libjoe.MemoryManager.FirstFit.{IsFit, here}
use libjoe.MemoryManager.Split.{taken_size}
use libjoe.MemoryManager.Allocate.{wanted_size-rounded, allocate-IsFit, allocate-NoFit}
use libjoe.MemoryManager.Take.{after_taking}
use libjoe.MemoryManager.Init.{IsFilledIn}
use libjoe.MemoryManager.RoundTrip.{free-allocate, allocate-static_init}

-- A buffer of 256 bytes at 1000, of which the 80 bytes at 1080 are taken.
abbrev half_used : Manager
half_used = record {
  buff = 1000;
  buff_size = 256;
  start_block = 64;
  end_of_list = 1240;
  align_byte = 8;
  align_mask = 7;
  struct_size = 16;
  byte_left = 160;
  mini_byte_left = 160;
  block_alloc_bit = 2 ^ 63;
}

abbrev two_free : Blocks
two_free = (1000, 80) ∷ (1160, 80) ∷ []

abbrev blank : Cell
blank = λ _. link null 0

abbrev two_blocks : Cell
two_blocks =
    write (write (write (write blank 64 (link 1000 0)) 1000 (link 1160 80)) 1160 (link 1240 80))
      1080 (link null (80 + top_bit))

two_blocks-IsManager : IsManager half_used two_blocks two_free
unfolding write total
two_blocks-IsManager = record {
  free_list = record {
    given = omega arith;
    ends = omega arith;
    fits = omega arith;
    start_given = λ z. omega arith;
    start_small = omega arith;
    start_outside = inl (omega arith);
    start = refl;
    chain = (refl, (refl, refl));
    spaced = (omega arith, omega arith, (omega arith, omega arith, omega arith));
  };
  struct_size = refl;
  align_byte = refl;
  align_mask = refl;
  alloc_bit = refl;
  sizes = omega arith;
  left = refl;
}

taken : IsTaken two_blocks 1080 80
unfolding write
taken = refl

free-IsManager_example :
    (c' : Cell) × (let m' = with_left half_used (160 + 80) 160 in
      (free (1080 + 16) (heap half_used two_blocks) ≡ ok (pos 0) (heap m' c'))
      × IsManager m' c' (insert_merged 1080 80 two_free))
    × ((x : Ptr)
        → (x == 1080) ≡ false
        → (x == 64) ≡ false
        → has x 1240 two_free ≡ false
        → c' x ≡ two_blocks x)
free-IsManager_example =
    free-IsManager half_used two_blocks two_free 1080 80 two_blocks-IsManager (omega arith)
      (omega arith) (omega arith) (inr (omega arith), (inl (omega arith), omega arith)) taken

-- The block and both of its neighbours become one.
free_merges : insert_merged 1080 80 two_free ≡ (1000, 240) ∷ []
unfolding insert_merged
free_merges = refl

insert_block_into_free_list-IsFreeList_example :
    (c' : Cell) × (insert_block_into_free_list 1080
        (heap half_used (write two_blocks 1080 (link 0 80)))
      ≡ ok tt (heap half_used c'))
    × IsFreeList half_used c' (insert_merged 1080 80 two_free)
    × ((x : Ptr)
        → (x == 1080) ≡ false
        → (x == 64) ≡ false
        → has x 1240 two_free ≡ false
        → c' x ≡ write two_blocks 1080 (link 0 80) x)
insert_block_into_free_list-IsFreeList_example =
    insert_block_into_free_list-IsFreeList half_used (write two_blocks 1080 (link 0 80)) two_free
      1080 0 80
      (IsFreeList-write half_used two_blocks two_free 1080 (link 0 80) refl refl
        two_blocks-IsManager.free_list)
      (omega arith) (omega arith) (inr (omega arith), (inl (omega arith), omega arith))
      (write_self two_blocks 1080 (link 0 80))

ten : IsFit (wanted_size half_used 10) two_free 1000 80 ((1160, 80) ∷ [])
ten =
    here 1000 80 ((1160, 80) ∷ [])
      (omega (arith, wanted_size-rounded half_used 10 refl refl refl (omega arith) (omega arith)))

allocate-IsFit_example :
    (c' : Cell) × (bs' : Blocks) × (let s = taken_size (wanted_size half_used 10) 80 in
      (allocate 10 (heap half_used two_blocks)
        ≡ ok (1000 + 16) (heap (after_taking half_used s) c'))
      × IsManager (after_taking half_used s) c' bs'
      × IsTaken c' 1000 s
      × (10 + 16 ≤ s)
      × (1000 ≤ 1000)
      × Apart 1000 s 1240 bs'
      × ((x : ℕ) → covers two_free x ≡ (inside 1000 s x || covers bs' x))
      × ((x : ℕ)
          → covers two_free x ≡ false
          → (x == 64) ≡ false
          → (x == 1240) ≡ false
          → c' x ≡ two_blocks x))
allocate-IsFit_example =
    allocate-IsFit half_used two_blocks two_free two_blocks-IsManager 10 (omega arith) (omega arith)
      ten

hundred : 100 + 16 ≤ wanted_size half_used 100
hundred = (wanted_size-rounded half_used 100 refl refl refl (omega arith) (omega arith)).0

allocate-NoFit_example :
    allocate 100 (heap half_used two_blocks) ≡ ok null (heap half_used two_blocks)
allocate-NoFit_example =
    allocate-NoFit half_used two_blocks two_free two_blocks-IsManager 100 (omega arith)
      (omega arith) (omega (arith, hundred), (omega (arith, hundred), tt))

free-allocate_example :
    (p : Ptr) × (h : Heap) × (m' : Manager) × (c' : Cell) × (bs' : Blocks) × (allocate 10
        (heap half_used two_blocks)
      ≡ ok p h)
    × (free p h ≡ ok (pos 0) (heap m' c'))
    × IsManager m' c' bs'
    × ((x : ℕ) → covers bs' x ≡ covers two_free x)
    × (m'.byte_left ≡ 160)
free-allocate_example =
    free-allocate half_used two_blocks two_free 10 two_blocks-IsManager (omega arith) (omega arith)
      ten

half_used-IsFilledIn : IsFilledIn half_used
half_used-IsFilledIn = record {
  given = omega arith;
  fits = omega arith;
  room = omega arith;
  sizes = omega arith;
  start_given = λ z. omega arith;
  start_small = omega arith;
  start_outside = inl (omega arith);
  struct_size = refl;
  align_byte = refl;
  align_mask = refl;
}

allocate-static_init_example :
    (h' : Heap) × (m : Manager) × (c : Cell) × (a : ℕ) × (s : ℕ) × (static_init
        (some (heap half_used blank))
        2001
        128
      ≡ ok (pos 0) (some h'))
    × IsManager m c ((a, s) ∷ [])
    × (allocate 10 h' ≡ allocate 10 (heap m c))
    × (2001 ≤ a)
    × (a < 2001 + 8)
    × (2001 + 128 < a + s + 24)
allocate-static_init_example =
    allocate-static_init (heap half_used blank) 2001 128 10 (omega arith) (omega arith)
      (omega arith) (omega arith) (λ z. omega arith) (omega arith) (inl (omega arith))
