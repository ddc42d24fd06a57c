-- ===== src/MemoryManager/RoundTrip.antt =====
-- Calls of rtos/src/memory_manager.c one after the other: the first allocation, which sets the heap up,
-- and an allocation that is given back.
use libjoe.Base.{
  ℕ, ◌+◌, ◌-◌, ◌^◌, ◌≤◌, ◌≡◌, refl, ◌∙◌, sym, ◌<◌, ◌⊎◌, ◌≢◌, false, some, [], ◌∷◌, arith, ◌==◌,
  ==-false, pos, ok,
}
use libjoe.MemoryManager.Store.{size_mod, Ptr, null, Manager, Cell, Heap, write, link}
use libjoe.MemoryManager.Functions.{
  static_init, assigned, clear_range, aligned_heap, end_marker, wanted_size, allocate, free,
}
use libjoe.MemoryManager.FreeList.{
  Blocks, covers, insert_merged, covers-insert_merged, Apart-end, Spaced-end,
}
use libjoe.MemoryManager.Chain.{heap}
use libjoe.MemoryManager.InsertBlock.{==-true}
use libjoe.MemoryManager.Free.{top_bit, IsManager, with_left, free-IsManager}
use libjoe.MemoryManager.FirstFit.{IsFit, IsFit-le, total-IsFit}
use libjoe.MemoryManager.Allocate.{allocate-IsFit}
use libjoe.MemoryManager.Take.{after_taking, taken-bounds}
use libjoe.MemoryManager.Split.{taken_size}
use libjoe.MemoryManager.Init.{IsFilledIn, heap_init-IsManager}

-- What is allocated from a manager that stands for its free blocks can be given back, for a size above
-- 0 and below 2 ^ 63 where a free block is large enough: both calls end, and then the same bytes are
-- free as before and as many are left.
pub free-allocate :
    (m : Manager) (c : Cell) (bs : Blocks) (size : ℕ) {b t : ℕ} {r : Blocks}
    → IsManager m c bs
    → 0 < size
    → size < top_bit
    → IsFit (wanted_size m size) bs b t r
    → (p : Ptr) × (h : Heap) × (m' : Manager) × (c' : Cell) × (bs' : Blocks) × (allocate size
          (heap m c)
        ≡ ok p h)
      × (free p h ≡ ok (pos 0) (heap m' c'))
      × IsManager m' c' bs'
      × ((x : ℕ) → covers bs' x ≡ covers bs x)
      × (m'.byte_left ≡ m.byte_left)
free-allocate m c bs size {b} {t} {r} rep full half fit =
    let (c1, bs1, (run, rep1, taken, wide, low, apart, bytes, same1)) =
      allocate-IsFit m c bs rep size full half fit in
    let f = rep.free_list in
    let s = taken_size (wanted_size m size) t in
    let m1 = after_taking m s in
    let room : b + s ≤ m.end_of_list = Apart-end b s m.end_of_list bs1 apart in
    let most : s ≤ t = (taken-bounds (wanted_size m size) t (IsFit-le fit)).1 in
    let (c2, (run2, rep2), same) =
      free-IsManager m1 c1 bs1 b s rep1 low (omega arith) (omega (arith, f.ends, rep.sizes)) apart
        taken in
    (
      b + 16,
      heap m1 c1,
      with_left m1 (m1.byte_left + s) m1.mini_byte_left,
      c2,
      insert_merged b s bs1,
      run,
      run2,
      rep2,
      λ x. covers-insert_merged b s bs1 x ∙ sym (bytes x),
      omega (arith, rep.left, total-IsFit fit),
    )

-- The first allocation of a manager that is filled in sets the heap up, and then is an allocation from
-- the one free block.
pub allocate-first :
    (m : Manager) (c : Cell) (size : ℕ)
    → IsFilledIn m
    → m.end_of_list ≡ null
    → let a = (aligned_heap m).0 in
      let e = end_marker m in
      (m' : Manager) × (c' : Cell) × IsManager m' c' ((a, e - a) ∷ [])
      × (allocate size (heap m c) ≡ allocate size (heap m' c'))
      × (m.buff ≤ a)
      × (a < m.buff + 8)
      × (m.buff + m.buff_size < e + 24)
unfolding allocate
allocate-first m c size filled fresh =
    let a = (aligned_heap m).0 in
    let e = end_marker m in
    let (m', c', run, rep, low, high, near) = heap_init-IsManager m filled c in
    let set_up : (m'.end_of_list == null) ≡ false = ==-false m'.end_of_list null (λ z. omega (
      arith,
      rep.free_list.given,
      Spaced-end (m'.buff - 1) m'.end_of_list ((a, e - a) ∷ []) rep.free_list.spaced,
    )) in
    (m', c', rep, rw (==-true m.end_of_list null fresh, run, set_up) refl, low, high, near)

-- After `memory_manager_static_init` with a buffer of at least 39 bytes, not at address 0 or 1, that does
-- not wrap round and that the manager lies outside of, the first allocation works on one free block: all
-- of the buffer but less than 8 bytes in front and 24 behind.
pub allocate-static_init :
    (h : Heap) (buff buff_size size : ℕ)
    → 1 < buff
    → 39 ≤ buff_size
    → buff_size < 2 ^ 32
    → buff + buff_size ≤ size_mod
    → h.mgr.start_block ≢ null
    → h.mgr.start_block < size_mod
    → ((h.mgr.start_block < buff - 1) ⊎ (buff + buff_size ≤ h.mgr.start_block))
    → (h' : Heap) × (m : Manager) × (c : Cell) × (a : ℕ) × (s : ℕ) × (static_init
          (some h)
          buff
          buff_size
        ≡ ok (pos 0) (some h'))
      × IsManager m c ((a, s) ∷ [])
      × (allocate size h' ≡ allocate size (heap m c))
      × (buff ≤ a)
      × (a < buff + 8)
      × (buff + buff_size < a + s + 24)
unfolding static_init
allocate-static_init h buff buff_size size given room word fits sne ssmall outside =
    let m = assigned h.mgr buff buff_size in
    let c = write (clear_range h.cell buff buff_size) h.mgr.start_block (link null 0) in
    let filled : IsFilledIn m = record {
      given = given;
      fits = fits;
      room = room;
      sizes = omega arith;
      start_given = sne;
      start_small = ssmall;
      start_outside = outside;
      struct_size = refl;
      align_byte = refl;
      align_mask = refl;
    } in
    let a = (aligned_heap m).0 in
    let e = end_marker m in
    let (m', c', rep, run, low, high, near) = allocate-first m c size filled refl in
    (
      heap m c,
      m',
      c',
      a,
      e - a,
      rw (==-false buff null (λ z. omega arith)) refl,
      rep,
      run,
      low,
      high,
      omega (arith, rep.free_list.spaced),
    )
