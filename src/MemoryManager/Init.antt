-- ===== src/MemoryManager/Init.antt =====
-- `prv_heap_init` of rtos/src/memory_manager.c, for a manager of 16-byte headers aligned to 8.
use libjoe.Base.{
  ℕ, ◌+◌, ◌-◌, ◌%◌, ◌≤◌, ◌<◌, ◌≡◌, refl, ◌∙◌, ◌≢◌, ◌⊎◌, inl, inr, false, [], ◌∷◌, arith, ◌==◌,
  ==-false, ==_iff, ok, Bool-cases, none,
}
use libjoe.MemoryManager.Store.{
  null, link, Manager, Cell, write, size_mod, add_size, sub_size, clear_low,
}
use libjoe.MemoryManager.Functions.{aligned_heap, end_marker, heap_init}
use libjoe.MemoryManager.FreeList.{total}
use libjoe.MemoryManager.Chain.{heap, write_self, write_other, set_next-ok, set_size-ok}
use libjoe.MemoryManager.Free.{top_bit, IsManager}

-- A manager as a client fills it in: a buffer of at least 39 bytes, with `start_block` outside of it.
pub record IsFilledIn (m : Manager) : Type 0 where
  pub given : 1 < m.buff
  pub fits : m.buff + m.buff_size ≤ size_mod
  pub room : 39 ≤ m.buff_size
  pub sizes : m.buff_size ≤ top_bit
  pub start_given : m.start_block ≢ null
  pub start_small : m.start_block < size_mod
  pub start_outside : (m.start_block < m.buff - 1) ⊎ (m.buff + m.buff_size ≤ m.start_block)
  pub struct_size : m.struct_size ≡ 16
  pub align_byte : m.align_byte ≡ 8
  pub align_mask : m.align_mask ≡ 7

-- Rounding up to, and down to, a multiple of 8.
round_up :
    (x n : ℕ)
    → 0 < x
    → x + n ≤ size_mod
    → 39 ≤ n
    → let a = clear_low (add_size x 7) 7 in
      (x ≤ a) × (a < x + 8) × (a % 8 ≡ 0) × (a + sub_size n (sub_size a x) ≡ x + n)
round_up x n given fits room =
    let up : add_size x 7 ≡ x + 7 = omega arith in
    let a = clear_low (x + 7) 7 in
    let less : sub_size a x ≡ a - x = omega arith in
    let left : sub_size n (a - x) ≡ n - (a - x) = omega arith in
    rw (up, less, left) (omega arith, omega arith, omega arith, omega arith)

round_down :
    (a t struct_size mask lo hi : ℕ)
    → struct_size ≡ 16
    → mask ≡ 7
    → lo ≤ a
    → a < lo + 8
    → a % 8 ≡ 0
    → lo + 39 ≤ hi
    → a + t ≡ hi
    → hi ≤ size_mod
    → let e = clear_low (sub_size (add_size a t) struct_size) mask in
      (a + 16 ≤ e) × (e + 16 ≤ hi) × (e % 8 ≡ 0) × (hi < e + 24)
round_down a t struct_size mask lo hi size16 mask7 low high even room all fits =
    let back : sub_size (add_size a t) 16 ≡ hi - 16 = omega arith in
    rw (size16, mask7, back) (omega arith, omega arith, omega arith, omega arith)

module _ (m : Manager) (filled : IsFilledIn m) where
  -- The first block starts less than 8 bytes into the buffer, on a multiple of 8.
  aligned-bounds :
      let (a, t) = aligned_heap m in
      (m.buff ≤ a) × (a < m.buff + 8) × (a % 8 ≡ 0) × (a + t ≡ m.buff + m.buff_size)
  unfolding aligned_heap
  aligned-bounds =
      rw (filled.align_byte, filled.align_mask)
        (elim (Bool-cases (m.buff % 8 == 0)) [
          | inl even ↦
              rw even (omega arith, omega arith, (==_iff (m.buff % 8) 0).0 even, omega arith)
          | inr odd ↦
              rw odd
                (round_up m.buff m.buff_size (omega (arith, filled.given)) filled.fits filled.room)
        ])

  -- The end marker has room for its header behind it, and the block in front of it for its own.
  marker-bounds :
      ((aligned_heap m).0 + 16 ≤ end_marker m)
      × (end_marker m + 16 ≤ m.buff + m.buff_size)
      × (end_marker m % 8 ≡ 0)
      × (m.buff + m.buff_size < end_marker m + 24)
  unfolding end_marker
  marker-bounds =
      let (low, high, even, all) = aligned-bounds in
      round_down (aligned_heap m).0 (aligned_heap m).1 m.struct_size m.align_mask m.buff
        (m.buff + m.buff_size) filled.struct_size filled.align_mask low high even
        (omega (arith, filled.room)) all filled.fits

  -- For a manager that is filled in: the buffer becomes one free block, from the first multiple of 8 to
  -- the end marker, less than 8 bytes from the start of the buffer and less than 24 from its end.
  pub heap_init-IsManager :
      (c : Cell)
      → let a = (aligned_heap m).0 in
        let e = end_marker m in
        (m' : Manager) × (c' : Cell) × (heap_init (heap m c) ≡ ok none (heap m' c'))
        × IsManager m' c' ((a, e - a) ∷ [])
        × (m.buff ≤ a)
        × (a < m.buff + 8)
        × (m.buff + m.buff_size < e + 24)
  unfolding heap_init total
  heap_init-IsManager c =
      let a = (aligned_heap m).0 in
      let e = end_marker m in
      let s = m.start_block in
      let (low, high, even, all) = aligned-bounds in
      let (less, fits, even', near) = marker-bounds in
      let ane : a ≢ null = λ z. omega (arith, filled.given) in
      let ene : e ≢ null = λ z. omega (arith, filled.given) in
      let m' = record m {
        end_of_list = e;
        byte_left = e - a;
        mini_byte_left = e - a;
        block_alloc_bit = top_bit;
      } in
      let size : sub_size e a ≡ e - a = omega (arith, filled.fits) in
      let c1 = write c s (link a (c s).block_size) in
      let c2 = write c1 s (link a 0) in
      let c3 = write c2 e (link (c2 e).next_free_block 0) in
      let c4 = write c3 e (link null 0) in
      let c5 = write c4 a (link (c4 a).next_free_block (e - a)) in
      let c6 = write c5 a (link e (e - a)) in
      let se : (s == e) ≡ false = ground (arith, filled.start_outside, low, less, fits) in
      let sa : (s == a) ≡ false = ground (arith, filled.start_outside, low, less, fits) in
      let ea : (e == a) ≡ false = ==-false e a (λ z. omega arith) in
      let apart : (e == a + 8) ≡ false = ==-false e (a + 8) (λ z. omega arith) in
      let apart' : (a == e + 8) ≡ false = ==-false a (e + 8) (λ z. omega arith) in
      (
        m',
        c6,
        rw
            (
              ==-false m.buff null (λ z. omega (arith, filled.given)),
              size,
              set_next-ok m c s (c s) filled.start_given refl a,
              set_size-ok m c1 s (link a (c s).block_size) filled.start_given
                  (write_self c s (link a (c s).block_size)) 0,
              set_size-ok m c2 e (c2 e) ene refl 0,
              set_next-ok m c3 e (link (c2 e).next_free_block 0) ene
                  (write_self c2 e (link (c2 e).next_free_block 0)) null,
              set_size-ok m c4 a (c4 a) ane refl (e - a),
              set_next-ok m c5 a (link (c4 a).next_free_block (e - a)) ane
                  (write_self c4 a (link (c4 a).next_free_block (e - a))) e,
              apart,
              apart',
            )
            refl,
        record {
          free_list = record {
            given = filled.given;
            ends = omega arith;
            fits = filled.fits;
            start_given = filled.start_given;
            start_small = filled.start_small;
            start_outside = filled.start_outside;
            start =
                write_other c5 s a (link e (e - a)) sa
                ∙ write_other c4 s a (link (c4 a).next_free_block (e - a)) sa
                ∙ write_other c3 s e (link null 0) se
                ∙ write_other c2 s e (link (c2 e).next_free_block 0) se
                ∙ write_self c1 s (link a 0);
            chain = (
              write_self c5 a (link e (e - a)),
              write_other c5 e a (link e (e - a)) ea
                  ∙ write_other c4 e a (link (c4 a).next_free_block (e - a)) ea
                  ∙ write_self c3 e (link null 0),
            );
            spaced = (omega (arith, filled.given), omega arith, omega arith);
          };
          struct_size = filled.struct_size;
          align_byte = filled.align_byte;
          align_mask = filled.align_mask;
          alloc_bit = refl;
          sizes = filled.sizes;
          left = omega arith;
        },
        low,
        high,
        omega arith,
      )
