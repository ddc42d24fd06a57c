-- ===== src/MemoryManager/Insert.antt =====
-- The loop of `prv_insert_block_into_free_list` of rtos/src/memory_manager.c and what follows it, from a
-- block of the list in front of the new one.
use libjoe.Base.{
  ℕ, zero, suc, ◌+◌, ◌≤◌, ◌<◌, ◌≡◌, refl, ◌∙◌, ◌≢◌, inl, inr, true, false, [], ◌∷◌, arith, ◌==◌,
  length, ==-false, ==_iff, ltb, le→ltb_false, ltb_false→le, ltb→lt, ok, ◌>>=◌, Bool-cases,
}
use libjoe.MemoryManager.Store.{Ptr, null, link, Manager, Cell, Cmd, size_mod, add_size}
use libjoe.MemoryManager.Functions.{find_before, insert_behind}
use libjoe.MemoryManager.FreeList.{
  Blocks, first_of, Spaced, Apart, cons_merged, insert_merged, Spaced-weaken, first_of-cons_merged,
  first_of-insert_merged, insert_merged-past,
}
use libjoe.MemoryManager.Chain.{heap, Chain, has, not-has_of_lt, not-has_of_Apart, load-ok}
use libjoe.MemoryManager.InsertBlock.{
  add_small, insert_behind_gap, insert_behind_touch, first_of-le,
}

abbrev pub insert_from : ℕ → (end_of_list iterator block : Ptr) → Cmd (Unit {0})
insert_from k e it a = find_before k it a >>= λ i. insert_behind e i a

pub insert_merged-front :
    (a s e : ℕ) (bs : Blocks) → a < first_of bs e → insert_merged a s bs ≡ cons_merged a s bs
unfolding insert_merged cons_merged
insert_merged-front a s e [] h = refl
insert_merged-front a s e ((b, t) ∷ bs) h = ground arith

Apart-next :
    (a s lo e : ℕ) (bs : Blocks)
    → a ≤ first_of bs e
    → 0 < s
    → Apart a s e bs
    → Spaced lo e bs
    → a + s ≤ first_of bs e
Apart-next a s lo e [] h q ap sp = ap
Apart-next a s lo e ((b, t) ∷ bs) h q (inl l, ap) sp = l
Apart-next a s lo e ((b, t) ∷ bs) h q (inr r, ap) (p, pos, sp) = absurd (omega arith)

Spaced-raise : (a lo e : ℕ) (bs : Blocks) → a < first_of bs e → Spaced lo e bs → Spaced a e bs
Spaced-raise a lo e [] h sp = omega arith
Spaced-raise a lo e ((b, t) ∷ bs) h (p, q, sp) = (h, q, sp)

module _ (m : Manager) (e : Ptr) (small : e < size_mod) (a n s : ℕ) (full : 0 < s) where
  -- Where the next block is behind the new one.
  insert_here :
      (c : Cell) (k it t : ℕ) (bs : Blocks)
      → it ≢ null
      → 0 < t
      → it + t ≤ a
      → c it ≡ link (first_of bs e) t
      → c a ≡ link n s
      → Chain c e bs
      → Spaced (it + t) e bs
      → Apart a s e bs
      → ltb (first_of bs e) a ≡ false
      → (c' : Cell) × (insert_from (suc k) e it a (heap m c) ≡ ok tt (heap m c'))
        × Chain c' e (insert_merged a s ((it, t) ∷ bs))
        × ((x : Ptr) → (x == a) ≡ false → has x e ((it, t) ∷ bs) ≡ false → c' x ≡ c x)
  unfolding find_before insert_merged
  insert_here c k it t bs ine tpos low ci ca chain sp apart stop =
      let room : a + s ≤ first_of bs e =
        Apart-next a s (it + t) e bs (ltb_false→le (first_of bs e) a stop) full apart sp in
      let ane : a ≢ null = λ z. omega arith in
      let iout : has it e bs ≡ false = not-has_of_lt it (it + t) e bs (omega arith) sp in
      let aout : has a e bs ≡ false = not-has_of_Apart a s e (it + t) bs full apart sp in
      let ia : (it == a) ≡ false = ==-false it a (λ z. omega arith) in
      rw (load-ok m c it (link (first_of bs e) t) ine ci, stop, le→ltb_false a it (omega arith))
        (elim (Bool-cases (it + t == a)) [
          | inl touch ↦
              let touches : it + t ≡ a = (==_iff (it + t) a).0 touch in
              let (c', run, chain', same) =
                insert_behind_touch m c e small it t a n s bs ine ane ci ca (omega arith)
                  (Spaced-weaken (it + t) it e bs (omega arith) sp) chain iout touches in
              rw touch (c', run, chain', λ x xa h. same x (ground arith))
          | inr gap ↦
              let far : it + t < a = ground (arith, gap) in
              let (c', run, ci', chain', same) =
                insert_behind_gap m c e small it t a n s bs ine ane ci ca room
                  (Spaced-raise a (it + t) e bs (omega arith) sp) chain aout iout ia
                  (rw (add_small it t (omega (arith, first_of-le (it + t) e bs sp))) gap) in
              rw gap (
                c',
                run,
                rw (insert_merged-front a s e bs (omega arith))
                    (rw (first_of-cons_merged a s e bs) ci', chain'),
                λ x xa h. same x xa (ground arith),
              )
        ])

  -- From any block in front of the new one.
  pub insert_from-ok :
      (c : Cell) (k it t : ℕ) (bs : Blocks)
      → it ≢ null
      → 0 < t
      → it + t ≤ a
      → c it ≡ link (first_of bs e) t
      → c a ≡ link n s
      → Chain c e bs
      → Spaced (it + t) e bs
      → Apart a s e bs
      → length bs < k
      → (c' : Cell) × (insert_from k e it a (heap m c) ≡ ok tt (heap m c'))
        × Chain c' e (insert_merged a s ((it, t) ∷ bs))
        × ((x : Ptr) → (x == a) ≡ false → has x e ((it, t) ∷ bs) ≡ false → c' x ≡ c x)
  unfolding find_before
  insert_from-ok c zero it t bs ine tpos low ci ca chain sp apart fuel = absurd (omega arith)
  insert_from-ok c (suc k) it t [] ine tpos low ci ca chain sp apart fuel =
      insert_here c k it t [] ine tpos low ci ca chain sp apart (le→ltb_false e a (omega arith))
  insert_from-ok c (suc k) it t ((b, u) ∷ bs) ine tpos low ci ca chain sp apart fuel =
      elim (Bool-cases (ltb b a)) [
        | inl before ↦
            let less : b < a = ltb→lt b a before in
            let far : it + t < a = omega (arith, sp.0) in
            let near : b + u ≤ a = ground (arith, apart.0) in
            let (c', run, chain', same) =
              insert_from-ok c k b u bs (λ z. omega (arith, sp.0)) sp.1 near chain.0 ca chain.1 sp.2
                apart.1 (omega arith) in
            let iout : has it e ((b, u) ∷ bs) ≡ false =
              not-has_of_lt it (it + t) e ((b, u) ∷ bs) (omega arith) sp in
            (
              c',
              rw (load-ok m c it (link b t) ine ci, before) run,
              rw (insert_merged-past a s it t ((b, u) ∷ bs) far) (
                rw (first_of-insert_merged a s b u e bs (omega arith))
                    (same it (==-false it a (λ z. omega arith)) iout ∙ ci),
                chain',
              ),
              λ x xa h. same x xa (ground arith),
            )
        | inr stop ↦ insert_here c k it t ((b, u) ∷ bs) ine tpos low ci ca chain sp apart stop
      ]

  insert_first :
      (c : Cell) (k st lo : ℕ) (bs : Blocks)
      → st ≢ null
      → st < size_mod
      → (st == a) ≡ false
      → has st e bs ≡ false
      → lo < a
      → c st ≡ link (first_of bs e) 0
      → c a ≡ link n s
      → Chain c e bs
      → Spaced lo e bs
      → Apart a s e bs
      → ltb (first_of bs e) a ≡ false
      → (c' : Cell) × (insert_from (suc k) e st a (heap m c) ≡ ok tt (heap m c'))
        × (c' st ≡ link (first_of (insert_merged a s bs) e) 0)
        × Chain c' e (insert_merged a s bs)
        × ((x : Ptr) → (x == a) ≡ false → (x == st) ≡ false → has x e bs ≡ false → c' x ≡ c x)
  unfolding find_before
  insert_first c k st lo bs sne ssmall sa sout low cs ca chain sp apart stop =
      let next = first_of bs e in
      let room : a + s ≤ next = Apart-next a s lo e bs (ltb_false→le next a stop) full apart sp in
      let aout : has a e bs ≡ false = not-has_of_Apart a s e lo bs full apart sp in
      let at : add_size st 0 ≡ st = omega arith in
      let (c', run, cs', chain', same) =
        insert_behind_gap m c e small st 0 a n s bs sne (λ z. omega arith) cs ca room
          (Spaced-raise a lo e bs (omega arith) sp) chain aout sout sa (rw at sa) in
      (
        c',
        rw (load-ok m c st (link next 0) sne cs, stop) run,
        rw (insert_merged-front a s e bs (omega arith), first_of-cons_merged a s e bs) cs',
        rw (insert_merged-front a s e bs (omega arith)) chain',
        λ x xa xs h. same x xa xs,
      )

  insert_later :
      (c : Cell) (k st lo b u : ℕ) (bs : Blocks)
      → st ≢ null
      → (st == a) ≡ false
      → has st e ((b, u) ∷ bs) ≡ false
      → c st ≡ link b 0
      → c a ≡ link n s
      → Chain c e ((b, u) ∷ bs)
      → Spaced lo e ((b, u) ∷ bs)
      → Apart a s e ((b, u) ∷ bs)
      → suc (length bs) ≤ k
      → ltb b a ≡ true
      → (c' : Cell) × (insert_from (suc k) e st a (heap m c) ≡ ok tt (heap m c'))
        × (c' st ≡ link (first_of (insert_merged a s ((b, u) ∷ bs)) e) 0)
        × Chain c' e (insert_merged a s ((b, u) ∷ bs))
        × ((x : Ptr)
            → (x == a) ≡ false
            → (x == st) ≡ false
            → has x e ((b, u) ∷ bs) ≡ false
            → c' x ≡ c x)
  unfolding find_before
  insert_later c k st lo b u bs sne sa sout cs ca chain (low, full_u, sp) (beside, apart) fuel
        before =
      let less : b < a = ltb→lt b a before in
      let near : b + u ≤ a = ground (arith, beside) in
      let (c', run, chain', same) =
        insert_from-ok c k b u bs (λ z. omega arith) full_u near chain.0 ca chain.1 sp apart
          (omega arith) in
      (
        c',
        rw (load-ok m c st (link b 0) sne cs, before) run,
        rw (first_of-insert_merged a s b u e bs (omega arith)) (same st sa sout ∙ cs),
        chain',
        λ x xa xs h. same x xa h,
      )

  -- From the header in front of the first block.
  pub insert_from_start :
      (c : Cell) (k st lo : ℕ) (bs : Blocks)
      → st ≢ null
      → st < size_mod
      → (st == a) ≡ false
      → has st e bs ≡ false
      → lo < a
      → c st ≡ link (first_of bs e) 0
      → c a ≡ link n s
      → Chain c e bs
      → Spaced lo e bs
      → Apart a s e bs
      → length bs ≤ k
      → (c' : Cell) × (insert_from (suc k) e st a (heap m c) ≡ ok tt (heap m c'))
        × (c' st ≡ link (first_of (insert_merged a s bs) e) 0)
        × Chain c' e (insert_merged a s bs)
        × ((x : Ptr) → (x == a) ≡ false → (x == st) ≡ false → has x e bs ≡ false → c' x ≡ c x)
  insert_from_start c k st lo [] sne ssmall sa sout low cs ca chain sp apart fuel =
      insert_first c k st lo [] sne ssmall sa sout low cs ca chain sp apart
        (le→ltb_false e a (omega arith))
  insert_from_start c k st lo ((b, u) ∷ bs) sne ssmall sa sout low cs ca chain sp apart fuel =
      elim (Bool-cases (ltb b a)) [
        | inl before ↦ insert_later c k st lo b u bs sne sa sout cs ca chain sp apart fuel before
        | inr stop ↦
            insert_first c k st lo ((b, u) ∷ bs) sne ssmall sa sout low cs ca chain sp apart stop
      ]
