-- ===== src/MemoryManager/Split.antt =====
-- How `memory_manager_allocate` of rtos/src/memory_manager.c splits the block it has found.
use libjoe.Base.{
  ℕ, ◌+◌, ◌-◌, ◌≤◌, ◌<◌, ◌≡◌, refl, ◌∙◌, ◌≢◌, ◌⊎◌, inl, inr, true, false, [], ◌∷◌, arith, ◌==◌,
  ==-false, ==-sym_false, ==_iff, ltb, ltb→lt, if◌then◌else◌, ok, Bool-cases,
}
use libjoe.MemoryManager.Store.{Ptr, null, link, Manager, Cell, write, load, sub_size}
use libjoe.MemoryManager.Functions.{mini_block_size, split_block}
use libjoe.MemoryManager.FreeList.{Blocks, inside, Apart, cons_merged, insert_merged, Apart-end}
use libjoe.MemoryManager.Chain.{
  heap, has, write_self, write_other, not-has_of_Apart, load-ok, set_size-ok,
}
use libjoe.MemoryManager.InsertBlock.{add_small}
use libjoe.MemoryManager.Rep.{IsFreeList, insert_block_into_free_list-IsFreeList}
use libjoe.MemoryManager.Free.{IsFreeList-write, start-ne}
use libjoe.MemoryManager.FirstFit.{Apart-part}

-- The bytes that are taken of a block of `t` bytes at `b`, and the free blocks afterwards, where the
-- others are `r`: what is left over is given back when it is more than two headers.
unfoldable pub taken_size : ℕ → ℕ → ℕ
taken_size want t = if ltb 32 (t - want) then want else t

unfoldable pub rest_given_back : ℕ → ℕ → ℕ → Blocks → Blocks
rest_given_back want b t r = if ltb 32 (t - want) then insert_merged (b + want) (t - want) r else r

beside_sum :
    (b s a t d u : ℕ)
    → 0 < s
    → ((b + s ≤ a) ⊎ (a + t ≤ b))
    → ((b + s ≤ d) ⊎ (d + u ≤ b))
    → (a + t == d) ≡ true
    → (b + s ≤ a) ⊎ (a + (t + u) ≤ b)
beside_sum b s a t d u q (inl h) beside touch = inl h
beside_sum b s a t d u q (inr h) (inl g) touch = absurd (omega (arith, (==_iff (a + t) d).0 touch))
beside_sum b s a t d u q (inr h) (inr g) touch = inr (omega (arith, (==_iff (a + t) d).0 touch))

Apart-cons_merged :
    (b s e a t : ℕ) (bs : Blocks)
    → 0 < s
    → ((b + s ≤ a) ⊎ (a + t ≤ b))
    → Apart b s e bs
    → Apart b s e (cons_merged a t bs)
unfolding cons_merged
Apart-cons_merged b s e a t [] q h aps = (h, aps)
Apart-cons_merged b s e a t ((d, u) ∷ bs) q h (beside, aps) = elim (Bool-cases (a + t == d)) [
  | inl touch ↦ rw touch (beside_sum b s a t d u q h beside touch, aps)
  | inr gap ↦ rw gap (h, (beside, aps))
]

pub Apart-insert_merged :
    (b s e a t : ℕ) (bs : Blocks)
    → 0 < s
    → ((b + s ≤ a) ⊎ (a + t ≤ b))
    → Apart b s e bs
    → Apart b s e (insert_merged a t bs)
unfolding insert_merged
Apart-insert_merged b s e a t [] q h aps = (h, aps)
Apart-insert_merged b s e a t ((d, u) ∷ bs) q h (beside, aps) = elim (Bool-cases (ltb a d)) [
  | inl before ↦ rw before (Apart-cons_merged b s e a t ((d, u) ∷ bs) q h (beside, aps))
  | inr after ↦ rw after (elim (Bool-cases (d + u == a)) [
    | inl touch ↦
        rw touch
          (Apart-cons_merged b s e d (u + t) bs q (beside_sum b s d u a t q beside h touch) aps)
    | inr gap ↦ rw gap (beside, Apart-insert_merged b s e a t bs q h aps)
  ])
]

module _ (m : Manager) (c : Cell) (b t want next : ℕ) (r : Blocks) (rep : IsFreeList m c r) where
  -- The block keeps the bytes taken of it, and the list of free blocks gets the rest.
  pub split_block-ok :
      m.struct_size ≡ 16
      → m.buff ≤ b
      → 0 < want
      → want ≤ t
      → Apart b t m.end_of_list r
      → c b ≡ link next t
      → (c' : Cell) × (split_block b want (heap m c) ≡ ok tt (heap m c'))
        × IsFreeList m c' (rest_given_back want b t r)
        × (c' b ≡ link next (taken_size want t))
        × ((x : Ptr)
            → inside b t x ≡ false
            → (x == m.start_block) ≡ false
            → has x m.end_of_list r ≡ false
            → c' x ≡ c x)
  unfolding split_block rest_given_back taken_size
  split_block-ok size16 low full enough apart cb =
      let e = m.end_of_list in
      let ne : b ≢ null = λ z. omega (arith, rep.given) in
      let room : b + t ≤ e = Apart-end b t e r apart in
      let mini : mini_block_size m ≡ 32 = rw size16 refl in
      let over : sub_size t want ≡ t - want = omega (arith, rep.ends, rep.fits) in
      let whole : load b (heap m c) ≡ ok (link next t) (heap m c) =
        load-ok m c b (link next t) ne cb in
      rw (whole, mini, over)
        (elim (Bool-cases (ltb 32 (t - want))) [
          | inl large ↦
              let more : 32 < t - want = ltb→lt 32 (t - want) large in
              let rest = b + want in
              let rb : (rest == b) ≡ false = ==-false rest b (λ z. omega arith) in
              let part : Apart rest (t - want) e r =
                Apart-part b t e rest (t - want) r apart (omega arith) (omega arith) in
              let n = (c rest).next_free_block in
              let c1 = write c rest (link n (t - want)) in
              let c2 = write c1 b (link next want) in
              let rout : has rest e r ≡ false =
                not-has_of_Apart rest (t - want) e (m.buff - 1) r (omega arith) part rep.spaced in
              let bout : has b e r ≡ false =
                not-has_of_Apart b t e (m.buff - 1) r (omega arith) apart rep.spaced in
              let srest : (m.start_block == rest) ≡ false =
                start-ne m c r rest rep (omega arith) (omega arith) in
              let sb : (m.start_block == b) ≡ false = start-ne m c r b rep low (omega arith) in
              let rep2 : IsFreeList m c2 r =
                IsFreeList-write m c1 r b (link next want) sb bout
                  (IsFreeList-write m c r rest (link n (t - want)) srest rout rep) in
              let at : c2 rest ≡ link n (t - want) =
                write_other c1 rest b (link next want) rb ∙ write_self c rest (link n (t - want)) in
              let cb1 : c1 b ≡ link next t =
                write_other c b rest (link n (t - want)) (==-sym_false rest b rb) ∙ cb in
              let (c', run, rep', same) =
                insert_block_into_free_list-IsFreeList m c2 r rest n (t - want) rep2 (omega arith)
                  (omega arith) part at in
              (
                c',
                rw
                    (
                      large,
                      add_small b want (omega (arith, rep.ends, rep.fits)),
                      set_size-ok m c rest (c rest) (λ z. omega (arith, rep.given)) refl (t - want),
                      set_size-ok m c1 b (link next t) ne cb1 want,
                    )
                    run,
                rw large rep',
                rw large (
                    same b (==-sym_false rest b rb) (==-sym_false m.start_block b sb) bout
                    ∙ write_self c1 b (link next want)),
                λ x xi xs xh.
                    let xr : (x == rest) ≡ false = ground (arith, xi) in
                    let xb : (x == b) ≡ false = ground (arith, xi) in
                    same x xr xs xh
                    ∙ write_other c1 x b (link next want) xb
                    ∙ write_other c x rest (link n (t - want)) xr,
              )
          | inr exact ↦ (c, rw exact refl, rw exact rep, rw exact cb, λ x xi xs xh. refl)
        ])
