-- ===== src/MemoryManager/Free.antt =====
-- `memory_manager_free` of rtos/src/memory_manager.c, for a manager of 16-byte headers aligned to 8.
use libjoe.Base.{
  ℕ, ◌+◌, ◌-◌, ◌^◌, ◌/◌, ◌≤◌, ◌<◌, ◌≡◌, refl, ◌∙◌, true, false, [], ◌∷◌, arith, ◌==◌, ==-false, pos,
  ok,
}
use libjoe.MemoryManager.Store.{
  Ptr, null, BlockLink, link, Manager, Cell, write, add_size, sub_size, has_bit,
}
use libjoe.MemoryManager.Functions.{free}
use libjoe.MemoryManager.FreeList.{
  Blocks, total, Spaced, Apart, insert_merged, total-insert_merged, Apart-end,
}
use libjoe.MemoryManager.Chain.{
  heap, has, write_self, write_other, Chain-write, not-has_of_Apart, load-ok, set_size-ok,
}
use libjoe.MemoryManager.InsertBlock.{add_small}
use libjoe.MemoryManager.Rep.{IsFreeList, insert_block_into_free_list-IsFreeList}

abbrev pub top_bit : ℕ
top_bit = 2 ^ 63

-- A manager of 16-byte headers aligned to 8 whose free blocks are `bs`.
pub record IsManager (m : Manager) (c : Cell) (bs : Blocks) : Type 0 where
  pub free_list : IsFreeList m c bs
  pub struct_size : m.struct_size ≡ 16
  pub align_byte : m.align_byte ≡ 8
  pub align_mask : m.align_mask ≡ 7
  pub alloc_bit : m.block_alloc_bit ≡ top_bit
  pub sizes : m.buff_size ≤ top_bit
  pub left : m.byte_left ≡ total bs

abbrev pub with_left : Manager → ℕ → ℕ → Manager
with_left m left low = record m { byte_left = left; mini_byte_left = low }

pub has_bit-top : (s : ℕ) → s < top_bit → has_bit (s + top_bit) top_bit ≡ true
has_bit-top s h = let q : (s + top_bit) / top_bit ≡ 1 = omega arith in rw q refl

pub not-has_bit-top : (s : ℕ) → s < top_bit → has_bit s top_bit ≡ false
not-has_bit-top s h = let q : s / top_bit ≡ 0 = omega arith in rw q refl

pub total-Spaced : (lo e : ℕ) (bs : Blocks) → Spaced lo e bs → total bs + lo ≤ e
unfolding total
total-Spaced lo e [] sp = omega arith
total-Spaced lo e ((a, s) ∷ bs) (p, q, sp) = omega (arith, total-Spaced (a + s) e bs sp)

pub IsFreeList-with_left :
    (m : Manager) (c : Cell) (bs : Blocks) (left low : ℕ)
    → IsFreeList m c bs
    → IsFreeList (with_left m left low) c bs
IsFreeList-with_left m c bs left low rep = record {
  given = rep.given;
  ends = rep.ends;
  fits = rep.fits;
  start_given = rep.start_given;
  start_small = rep.start_small;
  start_outside = rep.start_outside;
  start = rep.start;
  chain = rep.chain;
  spaced = rep.spaced;
}

-- Writing outside the list keeps it.
pub IsFreeList-write :
    (m : Manager) (c : Cell) (bs : Blocks) (p : Ptr) (b : BlockLink)
    → (m.start_block == p) ≡ false
    → has p m.end_of_list bs ≡ false
    → IsFreeList m c bs
    → IsFreeList m (write c p b) bs
IsFreeList-write m c bs p b sp out rep = record {
  given = rep.given;
  ends = rep.ends;
  fits = rep.fits;
  start_given = rep.start_given;
  start_small = rep.start_small;
  start_outside = rep.start_outside;
  start = write_other c m.start_block p b sp ∙ rep.start;
  chain = Chain-write c p b m.end_of_list bs out rep.chain;
  spaced = rep.spaced;
}

pub start-ne :
    (m : Manager) (c : Cell) (bs : Blocks) (a : ℕ)
    → IsFreeList m c bs
    → m.buff ≤ a
    → a < m.end_of_list
    → (m.start_block == a) ≡ false
start-ne m c bs a rep low high = ground (arith, rep.start_outside, rep.ends)

-- The block at `a` is allocated, with `s` bytes.
abbrev pub IsTaken : Cell → Ptr → ℕ → Type 0
IsTaken c a s = c a ≡ link null (s + top_bit)

-- Giving back an allocated block of `s` bytes, above 0 and below 2 ^ 63, that is in the buffer and apart
-- from the free ones: the call ends and returns
-- 0, the block joins the free ones in its place, the bytes left grow by `s`, and no header but that of
-- the block, of the free blocks and of the start is changed.
pub free-IsManager :
    (m : Manager) (c : Cell) (bs : Blocks) (a s : ℕ)
    → IsManager m c bs
    → m.buff ≤ a
    → 0 < s
    → s < top_bit
    → Apart a s m.end_of_list bs
    → IsTaken c a s
    → (c' : Cell) × (let m' = with_left m (m.byte_left + s) m.mini_byte_left in
        (free (a + 16) (heap m c) ≡ ok (pos 0) (heap m' c'))
        × IsManager m' c' (insert_merged a s bs))
      × ((x : Ptr)
          → (x == a) ≡ false
          → (x == m.start_block) ≡ false
          → has x m.end_of_list bs ≡ false
          → c' x ≡ c x)
unfolding free
free-IsManager m c bs a s rep low full half apart ca =
    let e = m.end_of_list in
    let f = rep.free_list in
    let room : a + s ≤ e = Apart-end a s e bs apart in
    let m' = with_left m (m.byte_left + s) m.mini_byte_left in
    let c1 = write c a (link null s) in
    let out : has a e bs ≡ false = not-has_of_Apart a s e (m.buff - 1) bs full apart f.spaced in
    let f1 : IsFreeList m' c1 bs =
      IsFreeList-with_left m c1 bs (m.byte_left + s) m.mini_byte_left
        (IsFreeList-write m c bs a (link null s) (start-ne m c bs a f low (omega arith)) out f) in
    let (c', run, f', same) =
      insert_block_into_free_list-IsFreeList m' c1 bs a null s f1 low full apart
        (write_self c a (link null s)) in
    let sum : total (insert_merged a s bs) ≡ s + total bs = total-insert_merged a s bs in
    let most : total (insert_merged a s bs) + (m.buff - 1) ≤ e =
      total-Spaced (m.buff - 1) e (insert_merged a s bs) f'.spaced in
    let back : sub_size (a + 16) m.struct_size ≡ a =
      rw rep.struct_size (omega (arith, f.ends, f.fits)) in
    let marked : has_bit (s + top_bit) m.block_alloc_bit ≡ true =
      rw rep.alloc_bit (has_bit-top s half) in
    let kept : s + top_bit - m.block_alloc_bit ≡ s = rw rep.alloc_bit (omega arith) in
    let grown : add_size m.byte_left s ≡ m.byte_left + s =
      add_small m.byte_left s (omega (arith, rep.left, f.ends, f.fits)) in
    (
      c',
      (
        rw
            (
              ==-false (a + 16) null (λ z. omega arith),
              back,
              load-ok m c a (link null (s + top_bit)) (λ z. omega (arith, f.given)) ca,
              marked,
              kept,
              set_size-ok m c a (link null (s + top_bit)) (λ z. omega (arith, f.given)) ca s,
              grown,
              run,
            )
            refl,
        record {
          free_list = f';
          struct_size = rep.struct_size;
          align_byte = rep.align_byte;
          align_mask = rep.align_mask;
          alloc_bit = rep.alloc_bit;
          sizes = rep.sizes;
          left = rw sum (omega (arith, rep.left));
        },
      ),
      λ x xa xs h. same x xa xs h ∙ write_other c x a (link null s) xa,
    )
