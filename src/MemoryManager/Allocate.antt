-- ===== src/MemoryManager/Allocate.antt =====
-- `memory_manager_allocate` of rtos/src/memory_manager.c, for a manager of 16-byte headers aligned to 8.
use libjoe.Base.{
  ℕ, ◌+◌, ◌-◌, ◌%◌, ◌≤◌, ◌<◌, ◌≡◌, refl, ◌∙◌, inl, inr, false, ◌||◌, arith, ◌==◌, ==-false, ==_iff,
  lt→ltb, leb, le→leb, ==_refl, ok, Bool-cases,
}
use libjoe.MemoryManager.Store.{null, link, Manager, Cell, has_bit}
use libjoe.MemoryManager.Functions.{wanted_size, allocate_wanted, allocate}
use libjoe.MemoryManager.FreeList.{Blocks, first_of, covers, inside, Apart, Spaced-end, Apart-end}
use libjoe.MemoryManager.Chain.{heap, load-ok}
use libjoe.MemoryManager.InsertBlock.{add_small}
use libjoe.MemoryManager.Rep.{start-has, length-Spaced}
use libjoe.MemoryManager.Free.{top_bit, IsManager, IsTaken, not-has_bit-top}
use libjoe.MemoryManager.FirstFit.{
  not-has-covers, IsFit, NoFit, IsFit-le, covers-IsFit, total-IsFit, Spaced-IsFit, find_fit-IsFit,
  find_fit-NoFit,
}
use libjoe.MemoryManager.Split.{taken_size, rest_given_back}
use libjoe.MemoryManager.Take.{
  taken-bounds, covers-rest_given_back, Apart-rest_given_back, after_taking, take_block-ok,
}

-- With 16-byte headers aligned to 8, for a size above 0 and below 2 ^ 63: the size that is looked for
-- is the next multiple of 8 that has room for the header, with no overflow.
pub wanted_size-rounded :
    (m : Manager) (size : ℕ)
    → m.struct_size ≡ 16
    → m.align_byte ≡ 8
    → m.align_mask ≡ 7
    → 0 < size
    → size < top_bit
    → (size + 16 ≤ wanted_size m size)
      × (wanted_size m size < size + 24)
      × (wanted_size m size % 8 ≡ 0)
unfolding wanted_size
wanted_size-rounded m size size16 byte8 mask7 full half =
    rw (size16, byte8, mask7, ==-false size 0 (λ z. omega arith), add_small size 16 (omega arith))
      (elim (Bool-cases ((size + 16) % 8 == 0)) [
        | inl even ↦ rw even (omega arith, omega arith, (==_iff ((size + 16) % 8) 0).0 even)
        | inr odd ↦
            let over : 0 < (size + 16) % 8 = ground (arith, odd) in
            rw (odd, add_small (size + 16) (8 - (size + 16) % 8) (omega arith))
              (omega arith, omega arith, omega arith)
      ])

module _ (m : Manager) (c : Cell) (bs : Blocks) (rep : IsManager m c bs) (size : ℕ)
    (full : 0 < size) (half : size < top_bit) where
  allocate_steps : allocate size (heap m c) ≡ allocate_wanted (wanted_size m size) (heap m c)
  unfolding allocate
  allocate_steps =
      let f = rep.free_list in
      let set_up : (m.end_of_list == null) ≡ false =
        ==-false m.end_of_list null
          (λ z. omega (arith, Spaced-end (m.buff - 1) m.end_of_list bs f.spaced, f.given)) in
      let unmarked : has_bit size m.block_alloc_bit ≡ false =
        rw rep.alloc_bit (not-has_bit-top size half) in
      rw (set_up, unmarked) refl

  -- For a manager that stands for its free blocks and a size above 0 and below 2 ^ 63, where a free
  -- block is large enough: the call returns the
  -- address behind the header of the first such one, which holds at least the bytes asked for; it is
  -- marked as taken, its bytes and no others leave the free blocks, the bytes left are still the sum of
  -- these, and no header outside of the free bytes but that of the start and of the marker is changed.
  pub allocate-IsFit :
      {b t : ℕ} {r : Blocks}
      → IsFit (wanted_size m size) bs b t r
      → (c' : Cell) × (bs' : Blocks) × (let s = taken_size (wanted_size m size) t in
          (allocate size (heap m c) ≡ ok (b + 16) (heap (after_taking m s) c'))
          × IsManager (after_taking m s) c' bs'
          × IsTaken c' b s
          × (size + 16 ≤ s)
          × (m.buff ≤ b)
          × Apart b s m.end_of_list bs'
          × ((x : ℕ) → covers bs x ≡ (inside b s x || covers bs' x))
          × ((x : ℕ)
              → covers bs x ≡ false
              → (x == m.start_block) ≡ false
              → (x == m.end_of_list) ≡ false
              → c' x ≡ c x))
  unfolding allocate_wanted
  allocate-IsFit {b} {t} {r} fit =
      let e = m.end_of_list in
      let f = rep.free_list in
      let want = wanted_size m size in
      let s = taken_size want t in
      let (wide, wide', round) =
        wanted_size-rounded m size rep.struct_size rep.align_byte rep.align_mask full half in
      let (low, tpos, spaced, apart) = Spaced-IsFit fit (m.buff - 1) e f.spaced in
      let enough : want ≤ t = IsFit-le fit in
      let (sizes, sizes') = taken-bounds want t enough in
      let room : b + t ≤ e = Apart-end b t e r apart in
      let (prev, v, next, run, pne, cp, cb, among, pb, chain) =
        find_fit-IsFit m c e want (omega arith) fit (m.buff_size + 1) m.start_block 0 (m.buff - 1)
          f.start_given f.start (start-has m c bs f) f.chain f.spaced
          (omega (arith, length-Spaced (m.buff - 1) e bs f.spaced, f.ends)) in
      let (c', (taking, rep', taken, same)) =
        take_block-ok m c bs rep fit (omega arith) prev v next pne cp cb among pb chain in
      (
        c',
        rest_given_back want b t r,
        (
          allocate_steps
              ∙ rw
                  (
                    lt→ltb 0 want (omega arith),
                    le→leb want m.byte_left (omega (arith, rep.left, total-IsFit fit)),
                    load-ok m c m.start_block (link (first_of bs e) 0) f.start_given f.start,
                    run,
                    ==-false b e (λ z. omega arith),
                  )
                  taking,
          rep',
          taken,
          omega arith,
          omega arith,
          Apart-rest_given_back want b t e r enough (omega arith) apart,
          λ x. covers-IsFit fit x ∙ covers-rest_given_back want b t e r enough x,
          λ x out xs xe.
              same x (ground (arith, covers-IsFit fit x)) xs
                (not-has-covers x (m.buff - 1) e bs f.spaced out xe),
        ),
      )

  -- For a manager that stands for its free blocks and a size above 0 and below 2 ^ 63, where no free
  -- block is large enough: the call returns NULL and changes nothing.
  pub allocate-NoFit : NoFit (wanted_size m size) bs → allocate size (heap m c) ≡ ok null (heap m c)
  unfolding allocate_wanted
  allocate-NoFit small =
      let e = m.end_of_list in
      let f = rep.free_list in
      let want = wanted_size m size in
      let (wide, wide', round) =
        wanted_size-rounded m size rep.struct_size rep.align_byte rep.align_mask full half in
      let (prev, run) =
        find_fit-NoFit m c e want (omega arith) bs (m.buff_size + 1) m.start_block (m.buff - 1)
          small (λ z. omega (arith, Spaced-end (m.buff - 1) e bs f.spaced, f.given)) f.chain
          f.spaced (omega (arith, length-Spaced (m.buff - 1) e bs f.spaced, f.ends)) in
      allocate_steps
      ∙ rw (lt→ltb 0 want (omega arith)) (elim (Bool-cases (leb want m.byte_left)) [
        | inl enough ↦
            rw
              (
                enough,
                load-ok m c m.start_block (link (first_of bs e) 0) f.start_given f.start,
                run,
                ==_refl e,
              )
              refl
        | inr short ↦ rw short refl
      ])
