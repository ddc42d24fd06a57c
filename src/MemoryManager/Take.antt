-- ===== src/MemoryManager/Take.antt =====
-- How `memory_manager_allocate` of rtos/src/memory_manager.c takes the block that its search has found.
use libjoe.Base.{
  ℕ, ◌+◌, ◌-◌, ◌≤◌, ◌<◌, ◌≡◌, refl, ◌∙◌, ◌≢◌, inl, inr, true, false, ◌||◌, ◌∷◌, arith, ◌==◌,
  ==-sym_false, ltb, if◌then◌else◌, ok, Bool-cases,
}
use libjoe.MemoryManager.Store.{null, link, Manager, Cell, write, add_size, sub_size, has_bit}
use libjoe.MemoryManager.Functions.{take_block}
use libjoe.MemoryManager.FreeList.{
  Blocks, covers, inside, total, Apart, Apart-end, covers-insert_merged, total-insert_merged,
}
use libjoe.MemoryManager.Chain.{
  ne_of_has, heap, Chain, has, write_self, write_other, not-has_of_Apart, load-ok, set_next-ok,
  set_size-ok,
}
use libjoe.MemoryManager.InsertBlock.{add_small}
use libjoe.MemoryManager.Rep.{IsFreeList}
use libjoe.MemoryManager.Free.{
  top_bit, IsManager, IsTaken, with_left, not-has_bit-top, total-Spaced, IsFreeList-write,
  IsFreeList-with_left, start-ne,
}
use libjoe.MemoryManager.FirstFit.{
  not-has-IsFit, IsFit, IsFit-le, total-IsFit, Spaced-IsFit, Apart-part,
}
use libjoe.MemoryManager.Split.{taken_size, rest_given_back, Apart-insert_merged, split_block-ok}

not-inside_self : (b t x : ℕ) → 0 < t → inside b t x ≡ false → (x == b) ≡ false
not-inside_self b t x full out = ground arith

not-has-cons :
    (x a e : ℕ) (bs : Blocks)
    → (x == a) ≡ false
    → has x e bs ≡ false
    → has x e ((a, 0) ∷ bs) ≡ false
not-has-cons x a e bs xa out = ground arith

pub taken-bounds : (want t : ℕ) → want ≤ t → (want ≤ taken_size want t) × (taken_size want t ≤ t)
unfolding taken_size
taken-bounds want t h = elim (Bool-cases (ltb 32 (t - want))) [
  | inl large ↦ rw large (omega arith, h)
  | inr exact ↦ rw exact (h, omega arith)
]

module _ (want b t e : ℕ) (r : Blocks) (enough : want ≤ t) where
  pub covers-rest_given_back :
      (x : ℕ)
      → (inside b t x || covers r x)
        ≡ (inside b (taken_size want t) x || covers (rest_given_back want b t r) x)
  unfolding taken_size rest_given_back
  covers-rest_given_back x = elim (Bool-cases (ltb 32 (t - want))) [
    | inl large ↦ rw (large, covers-insert_merged (b + want) (t - want) r x) (ground arith)
    | inr exact ↦ rw exact refl
  ]

  total-rest_given_back : t + total r ≡ taken_size want t + total (rest_given_back want b t r)
  unfolding taken_size rest_given_back
  total-rest_given_back = elim (Bool-cases (ltb 32 (t - want))) [
    | inl large ↦ rw (large, total-insert_merged (b + want) (t - want) r) (omega arith)
    | inr exact ↦ rw exact refl
  ]

  pub Apart-rest_given_back :
      0 < want → Apart b t e r → Apart b (taken_size want t) e (rest_given_back want b t r)
  unfolding taken_size rest_given_back
  Apart-rest_given_back full apart = elim (Bool-cases (ltb 32 (t - want))) [
    | inl large ↦ rw large (
        Apart-insert_merged b want e (b + want) (t - want) r full (inl (omega arith))
          (Apart-part b t e b want r apart (omega arith) (omega arith)))
    | inr exact ↦ rw exact apart
  ]

-- What a call that takes a block of `t` bytes at `b` for `want` bytes leaves, where the others are `r`.
abbrev pub low_of : Manager → ℕ → ℕ
low_of m left = if ltb left m.mini_byte_left then left else m.mini_byte_left

abbrev pub after_taking : Manager → ℕ → Manager
after_taking m s = with_left m (m.byte_left - s) (low_of m (m.byte_left - s))

module _ (m : Manager) (c : Cell) (bs : Blocks) (rep : IsManager m c bs) {want b t : ℕ} {r : Blocks}
    (fit : IsFit want bs b t r) (full : 16 ≤ want) where
  -- Taking the block that the search has found.
  pub take_block-ok :
      (prev v next : ℕ)
      → prev ≢ null
      → c prev ≡ link b v
      → c b ≡ link next t
      → has prev m.end_of_list ((m.start_block, 0) ∷ bs) ≡ true
      → (prev == b) ≡ false
      → Chain (write c prev (link next v)) m.end_of_list ((m.start_block, 0) ∷ r)
      → (c' : Cell) × (let s = taken_size want t in
          (take_block prev b want (heap m c) ≡ ok (b + 16) (heap (after_taking m s) c'))
          × IsManager (after_taking m s) c' (rest_given_back want b t r)
          × IsTaken c' b s
          × ((x : ℕ)
              → inside b t x ≡ false
              → (x == m.start_block) ≡ false
              → has x m.end_of_list bs ≡ false
              → c' x ≡ c x))
  unfolding take_block
  take_block-ok prev v next pne cp cb among pb chain =
      let e = m.end_of_list in
      let f = rep.free_list in
      let (low, tpos, spaced, apart) = Spaced-IsFit fit (m.buff - 1) e f.spaced in
      let room : b + t ≤ e = Apart-end b t e r apart in
      let enough : want ≤ t = IsFit-le fit in
      let s = taken_size want t in
      let (sizes, sizes') = taken-bounds want t enough in
      let m' = after_taking m s in
      let r' = rest_given_back want b t r in
      let bne : b ≢ null = λ z. omega arith in
      let c1 = write c prev (link next v) in
      let rep1 : IsFreeList m c1 r = record {
        given = f.given;
        ends = f.ends;
        fits = f.fits;
        start_given = f.start_given;
        start_small = f.start_small;
        start_outside = f.start_outside;
        start = chain.0;
        chain = chain.1;
        spaced = spaced;
      } in
      let cb1 : c1 b ≡ link next t =
        write_other c b prev (link next v) (==-sym_false prev b pb) ∙ cb in
      let (c2, run, rep2, cb2, same) =
        split_block-ok m c1 b t want next r rep1 rep.struct_size (omega arith) (omega arith) enough
          apart cb1 in
      let c3 = write c2 b (link next (s + top_bit)) in
      let c4 = write c3 b (link null (s + top_bit)) in
      let sb : (m.start_block == b) ≡ false = start-ne m c bs b f (omega arith) (omega arith) in
      let apart' : Apart b s e r' = Apart-rest_given_back want b t e r enough (omega arith) apart in
      let out : has b e r' ≡ false =
        not-has_of_Apart b s e (m.buff - 1) r' (omega arith) apart' rep2.spaced in
      let rep4 : IsFreeList m' c4 r' =
        IsFreeList-with_left m c4 r' (m.byte_left - s) (low_of m (m.byte_left - s)) (
          IsFreeList-write m c3 r' b (link null (s + top_bit)) sb out
            (IsFreeList-write m c2 r' b (link next (s + top_bit)) sb out rep2)) in
      let sum : total bs ≡ s + total r' =
        total-IsFit fit ∙ total-rest_given_back want b t e r enough in
      let half : s < top_bit = omega (arith, f.ends, rep.sizes) in
      let unmarked : has_bit s m.block_alloc_bit ≡ false =
        rw rep.alloc_bit (not-has_bit-top s half) in
      let marked : s + m.block_alloc_bit ≡ s + top_bit = rw rep.alloc_bit refl in
      let result : add_size b m.struct_size ≡ b + 16 =
        rw rep.struct_size (add_small b 16 (omega (arith, f.ends, f.fits))) in
      let most : total bs + (m.buff - 1) ≤ e = total-Spaced (m.buff - 1) e bs f.spaced in
      let less : sub_size m.byte_left s ≡ m.byte_left - s =
        omega (arith, rep.left, sum, f.ends, f.fits) in
      (
        c4,
        (
          rw
              (
                load-ok m c prev (link b v) pne cp,
                load-ok m c b (link next t) bne cb,
                set_next-ok m c prev (link b v) pne cp next,
                run,
                load-ok m c2 b (link next s) bne cb2,
                less,
                unmarked,
                marked,
                result,
                set_size-ok m' c2 b (link next s) bne cb2 (s + top_bit),
                set_next-ok m' c3 b (link next (s + top_bit)) bne
                    (write_self c2 b (link next (s + top_bit))) null,
              )
              refl,
          record {
            free_list = rep4;
            struct_size = rep.struct_size;
            align_byte = rep.align_byte;
            align_mask = rep.align_mask;
            alloc_bit = rep.alloc_bit;
            sizes = rep.sizes;
            left = omega (arith, rep.left, sum);
          },
          write_self c3 b (link null (s + top_bit)),
          λ x xi xs xh.
              let xb : (x == b) ≡ false = not-inside_self b t x tpos xi in
              let xp : (x == prev) ≡ false =
                ne_of_has x prev e ((m.start_block, 0) ∷ bs)
                  (not-has-cons x m.start_block e bs xs xh) among in
              write_other c3 x b (link null (s + top_bit)) xb
              ∙ write_other c2 x b (link next (s + top_bit)) xb
              ∙ same x xi xs (not-has-IsFit fit x e xh)
              ∙ write_other c x prev (link next v) xp,
        ),
      )
