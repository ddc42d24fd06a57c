-- ===== src/MemoryManager/InsertBlock.antt =====
-- `prv_insert_block_into_free_list` of rtos/src/memory_manager.c against insertion into a list.
use libjoe.Base.{
  ℕ, ◌+◌, ◌≤◌, ◌<◌, ◌≡◌, refl, ◌∙◌, ◌≢◌, true, false, [], ◌∷◌, arith, ◌==◌, ==_refl, inl, inr,
  ==-false, ==-sym_false, ==_iff, ok, Bool-cases,
}
use libjoe.MemoryManager.Store.{Ptr, null, link, Manager, Cell, write, size_mod, add_size}
use libjoe.MemoryManager.Functions.{merge_before, merge_behind, insert_behind}
use libjoe.MemoryManager.FreeList.{Blocks, first_of, Spaced, cons_merged, Spaced-end}
use libjoe.MemoryManager.Chain.{
  heap, Chain, has, write_self, write_other, Chain-write, load-ok, set_next-ok, set_size-ok,
}

pub add_small : (a b : ℕ) → a + b < size_mod → add_size a b ≡ a + b
add_small a b h = omega arith

not-has-cons_merged :
    (x a s e : ℕ) (bs : Blocks)
    → (x == a) ≡ false
    → has x e bs ≡ false
    → has x e (cons_merged a s bs) ≡ false
unfolding cons_merged
not-has-cons_merged x a s e [] p q = ground arith
not-has-cons_merged x a s e ((b, t) ∷ bs) p q = ground arith

pub first_of-le : (lo e : ℕ) (bs : Blocks) → Spaced lo e bs → first_of bs e ≤ e
first_of-le lo e [] sp = omega arith
first_of-le lo e ((a, s) ∷ bs) (p, q, sp) = omega (arith, Spaced-end (a + s) e bs sp)

pub ==-true : (a b : ℕ) → a ≡ b → (a == b) ≡ true
==-true a b h = (==_iff a b).1 h

module _ (m : Manager) (c : Cell) (e : Ptr) (small : e < size_mod) where
  -- `merge_behind`, where the iterator keeps its next block when the size of the block is changed.
  merge_behind-cons :
      (it t a n s : ℕ) (bs : Blocks)
      → it ≢ null
      → a ≢ null
      → c it ≡ link (first_of bs e) t
      → c a ≡ link n s
      → a + s ≤ first_of bs e
      → Spaced a e bs
      → Chain c e bs
      → has a e bs ≡ false
      → ((k : ℕ) → (w : ℕ) × (write c a (link n k) it ≡ link (first_of bs e) w))
      → (c' : Cell) × (merge_behind e it a (heap m c) ≡ ok tt (heap m c'))
        × Chain c' e (cons_merged a s bs)
        × ((x : Ptr) → (x == a) ≡ false → c' x ≡ c x)
  unfolding merge_behind cons_merged
  merge_behind-cons it t a n s [] ine ane ci ca room sp chain out reload =
      let c1 = write c a (link e s) in
      let next = set_next-ok m c a (link n s) ane ca e in
      (
        c1,
        rw (load-ok m c it (link e t) ine ci, load-ok m c a (link n s) ane ca)
            (elim (Bool-cases (add_size a s == e)) [
              | inl touch ↦ rw (touch, ==_refl e) next
              | inr gap ↦ rw gap next
            ]),
        (write_self c a (link e s), Chain-write c a (link e s) e [] out chain),
        λ x h. write_other c x a (link e s) h,
      )
  merge_behind-cons it t a n s ((d, u) ∷ bs) ine ane ci ca room (p, q, sp) (cd, chain) out reload =
      elim (Bool-cases (a + s == d)) [
        | inl touch ↦
            let c1 = write c a (link n (s + u)) in
            let next = first_of bs e in
            let end : d + u ≤ e = Spaced-end (d + u) e bs sp in
            let ad : (a == d) ≡ false = ground arith in
            let da : (d == a) ≡ false = ==-sym_false a d ad in
            let out' : has a e bs ≡ false = ground arith in
            let dne : d ≢ null = λ z. omega arith in
            (
              write c1 a (link next (s + u)),
              rw
                  (
                    load-ok m c it (link d t) ine ci,
                    load-ok m c a (link n s) ane ca,
                    add_small a s (omega arith),
                    touch,
                    ==-false d e (λ z. omega arith),
                    load-ok m c d (link next u) dne cd,
                    add_small s u (omega arith),
                    set_size-ok m c a (link n s) ane ca (s + u),
                    load-ok m c1 it (link d (reload (s + u)).0) ine (reload (s + u)).1,
                    load-ok m c1 d (link next u) dne (write_other c d a (link n (s + u)) da ∙ cd),
                  )
                  (set_next-ok m c1 a (link n (s + u)) ane (write_self c a (link n (s + u))) next),
              rw touch (
                write_self c1 a (link next (s + u)),
                Chain-write c1 a (link next (s + u)) e bs out'
                    (Chain-write c a (link n (s + u)) e bs out' chain),
              ),
              λ x h.
                  write_other c1 x a (link next (s + u)) h ∙ write_other c x a (link n (s + u)) h,
            )
        | inr gap ↦ (
          write c a (link d s),
          rw
              (
                load-ok m c it (link d t) ine ci,
                load-ok m c a (link n s) ane ca,
                add_small a s (omega (arith, Spaced-end (d + u) e bs sp)),
                gap,
              )
              (set_next-ok m c a (link n s) ane ca d),
          rw gap (
            write_self c a (link d s),
            Chain-write c a (link d s) e ((d, u) ∷ bs) out (cd, chain),
          ),
          λ x h. write_other c x a (link d s) h,
        )
      ]

module _ (m : Manager) (c : Cell) (e : Ptr) (small : e < size_mod) where
  -- What follows the loop, at a block that does not touch the one before it.
  pub insert_behind_gap :
      (it t a n s : ℕ) (bs : Blocks)
      → it ≢ null
      → a ≢ null
      → c it ≡ link (first_of bs e) t
      → c a ≡ link n s
      → a + s ≤ first_of bs e
      → Spaced a e bs
      → Chain c e bs
      → has a e bs ≡ false
      → has it e bs ≡ false
      → (it == a) ≡ false
      → (add_size it t == a) ≡ false
      → (c' : Cell) × (insert_behind e it a (heap m c) ≡ ok tt (heap m c'))
        × (c' it ≡ link a t)
        × Chain c' e (cons_merged a s bs)
        × ((x : Ptr) → (x == a) ≡ false → (x == it) ≡ false → c' x ≡ c x)
  unfolding insert_behind merge_before
  insert_behind_gap it t a n s bs ine ane ci ca room sp chain out iout ia gap =
      let next = first_of bs e in
      let (c1, run, chain1, same) =
        merge_behind-cons m c e small it t a n s bs ine ane ci ca room sp chain out
          (λ k. (t, write_other c it a (link n k) ia ∙ ci)) in
      let i1 : c1 it ≡ link next t = same it ia ∙ ci in
      (
        write c1 it (link a t),
        rw (load-ok m c it (link next t) ine ci, gap, run, ia)
            (set_next-ok m c1 it (link next t) ine i1 a),
        write_self c1 it (link a t),
        Chain-write c1 it (link a t) e (cons_merged a s bs)
            (not-has-cons_merged it a s e bs ia iout) chain1,
        λ x xa xi. write_other c1 x it (link a t) xi ∙ same x xa,
      )

  -- At a block that touches the one before it.
  pub insert_behind_touch :
      (it t a n s : ℕ) (bs : Blocks)
      → it ≢ null
      → a ≢ null
      → c it ≡ link (first_of bs e) t
      → c a ≡ link n s
      → it + (t + s) ≤ first_of bs e
      → Spaced it e bs
      → Chain c e bs
      → has it e bs ≡ false
      → it + t ≡ a
      → (c' : Cell) × (insert_behind e it a (heap m c) ≡ ok tt (heap m c'))
        × Chain c' e (cons_merged it (t + s) bs)
        × ((x : Ptr) → (x == it) ≡ false → c' x ≡ c x)
  unfolding insert_behind merge_before
  insert_behind_touch it t a n s bs ine ane ci ca room sp chain out touch =
      let next = first_of bs e in
      let whole = link next (t + s) in
      let c1 = write c it whole in
      let end : next ≤ e = first_of-le it e bs sp in
      let (c', run, chain', same) =
        merge_behind-cons m c1 e small it (t + s) it next (t + s) bs ine ine (write_self c it whole)
          (write_self c it whole) room sp (Chain-write c it whole e bs out chain) out
          (λ k. (k, write_self c1 it (link next k))) in
      (
        c',
        rw
            (
              load-ok m c it (link next t) ine ci,
              add_small it t (omega arith),
              ==-true (it + t) a touch,
              load-ok m c a (link n s) ane ca,
              add_small t s (omega arith),
              set_size-ok m c it (link next t) ine ci (t + s),
              run,
              ==_refl it,
            )
            refl,
        chain',
        λ x xi. same x xi ∙ write_other c x it whole xi,
      )
