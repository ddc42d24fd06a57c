-- ===== src/MemoryManager/Rep.antt =====
-- What a manager of rtos/src/memory_manager.c stands for once its heap is set up: the list of its free
-- blocks.
use libjoe.Base.{
  ℕ, suc, ◌+◌, ◌-◌, ◌≤◌, ◌<◌, ◌≡◌, ◌≢◌, ◌⊎◌, inl, inr, false, [], ◌∷◌, arith, ◌==◌, ==-false,
  length, ok,
}
use libjoe.MemoryManager.Store.{Ptr, null, link, Manager, Cell, size_mod}
use libjoe.MemoryManager.Functions.{insert_block_into_free_list}
use libjoe.MemoryManager.FreeList.{
  Blocks, first_of, Spaced, Apart, insert_merged, Spaced-insert_merged, Spaced-end, Apart-end,
}
use libjoe.MemoryManager.Chain.{heap, Chain, has, not-has_of_lt}
use libjoe.MemoryManager.Insert.{insert_from_start}

-- The end marker lies in the buffer, the header at `start_block` outside of it, and the headers link
-- the blocks `bs`, which stand in the buffer in front of the marker.
pub record IsFreeList (m : Manager) (c : Cell) (bs : Blocks) : Type 0 where
  pub given : 1 < m.buff
  pub ends : m.end_of_list < m.buff + m.buff_size
  pub fits : m.buff + m.buff_size ≤ size_mod
  pub start_given : m.start_block ≢ null
  pub start_small : m.start_block < size_mod
  pub start_outside : (m.start_block < m.buff - 1) ⊎ (m.buff + m.buff_size ≤ m.start_block)
  pub start : c m.start_block ≡ link (first_of bs m.end_of_list) 0
  pub chain : Chain c m.end_of_list bs
  pub spaced : Spaced (m.buff - 1) m.end_of_list bs

not-has_of_gt : (x lo e : ℕ) (bs : Blocks) → e < x → Spaced lo e bs → has x e bs ≡ false
not-has_of_gt x lo e [] h sp = ==-false x e (λ z. omega arith)
not-has_of_gt x lo e ((a, s) ∷ bs) h (p, q, sp) =
    ground (arith, not-has_of_gt x (a + s) e bs h sp, Spaced-end (a + s) e bs sp)

pub length-Spaced : (lo e : ℕ) (bs : Blocks) → Spaced lo e bs → length bs + lo ≤ e
length-Spaced lo e [] sp = omega arith
length-Spaced lo e ((a, s) ∷ bs) (p, q, sp) = omega (arith, length-Spaced (a + s) e bs sp)

module _ (m : Manager) (c : Cell) (bs : Blocks) (rep : IsFreeList m c bs) where
  pub start-has : has m.start_block m.end_of_list bs ≡ false
  start-has = elim rep.start_outside [
    | inl below ↦ not-has_of_lt m.start_block (m.buff - 1) m.end_of_list bs below rep.spaced
    | inr above ↦
        not-has_of_gt m.start_block (m.buff - 1) m.end_of_list bs (omega (arith, rep.ends))
          rep.spaced
  ]

-- Putting back a block of `s` bytes at `a` that is in the buffer and apart from the free ones: the call
-- ends, the list of free blocks has it in its place, merged with its neighbours, and no header but that
-- of the block, of the free blocks and of the start is changed.
pub insert_block_into_free_list-IsFreeList :
    (m : Manager) (c : Cell) (bs : Blocks) (a n s : ℕ)
    → IsFreeList m c bs
    → m.buff ≤ a
    → 0 < s
    → Apart a s m.end_of_list bs
    → c a ≡ link n s
    → (c' : Cell) × (insert_block_into_free_list a (heap m c) ≡ ok tt (heap m c'))
      × IsFreeList m c' (insert_merged a s bs)
      × ((x : Ptr)
          → (x == a) ≡ false
          → (x == m.start_block) ≡ false
          → has x m.end_of_list bs ≡ false
          → c' x ≡ c x)
unfolding insert_block_into_free_list
insert_block_into_free_list-IsFreeList m c bs a n s rep low full apart ca =
    let e = m.end_of_list in
    let lo = m.buff - 1 in
    let room : a + s ≤ e = Apart-end a s e bs apart in
    let sa : (m.start_block == a) ≡ false =
      ground (arith, rep.start_outside, rep.ends, low, full, room) in
    let (c', run, start', chain', same) =
      insert_from_start m e (omega (arith, rep.ends, rep.fits)) a n s full c m.buff_size
        m.start_block lo bs rep.start_given rep.start_small sa (start-has m c bs rep)
        (omega (arith, rep.given)) rep.start ca rep.chain rep.spaced apart
        (omega (arith, length-Spaced lo e bs rep.spaced, rep.ends)) in
    let more : m.buff_size + 1 ≡ suc m.buff_size = omega arith in
    (
      c',
      rw more run,
      record {
        given = rep.given;
        ends = rep.ends;
        fits = rep.fits;
        start_given = rep.start_given;
        start_small = rep.start_small;
        start_outside = rep.start_outside;
        start = start';
        chain = chain';
        spaced = Spaced-insert_merged a s lo e bs (omega (arith, rep.given)) full apart rep.spaced;
      },
      same,
    )
