-- ===== src/Linklist/Link.antt =====
-- The statements by which linux/src/linklist.c links a new node in, behind a list and in front of it.
use libjoe.Base.{
  fault, ok, ℕ, ◌≡◌, refl, ◌∙◌, ◌≢◌, true, false, some, [], ◌∷◌, ◌++◌, arith, length, pos, to_int,
  ◌==◌, ==-false,
}
use libjoe.Mem.{Table}
use libjoe.Linklist.Store.{Ptr, null, Node, node, Cell, load, set_next, write}
use libjoe.Linklist.Functions.{header, incr, link_tail, link_first}
use libjoe.Linklist.Chain.{
  Cells, has, distinct, first_of, last_of, Chain, write_self, write_other, Chain-write,
  Chain-append, relink_next, relink_prev, has-last_of, ne_of_has, not-has-append,
}
use libjoe.Linklist.Commands.{set_prev-null, set_next-ok, set_prev-ok, set_ins-ok}
use libjoe.Linklist.Rep.{header_of}

-- The stores that linking a new node goes through.
module _ (c : Cell) (log : Table) (p : Ptr) (g : Node) (v : ℕ) (ne : p ≢ null)
    (e : c p ≡ some g) where
  -- In an empty list.
  link_tail-nil :
      (c' : Cell) × (link_tail (header null null 0) p v (record { cell = c; log = log })
        ≡ ok (pos 0, header p p 1) (record { cell = c'; log = log }))
      × Chain c' null null ((p, v) ∷ [])
      × ((a : Ptr) → (a == p) ≡ false → c' a ≡ c a)
  unfolding link_tail
  link_tail-nil =
      let n1 : Node = record g { next = null } in
      let c1 = write c p (some n1) in
      let n2 : Node = record n1 { prev = null } in
      let c2 = write c1 p (some n2) in
      let c3 = write c2 p (some (node v null null)) in
      (
        c3,
        rw (
          set_next-ok (record { cell = c; log = log }) p g ne e null,
          set_prev-ok (record { cell = c1; log = log }) p n1 ne (write_self c p (some n1)) null,
          set_ins-ok (record { cell = c2; log = log }) p n2 ne (write_self c1 p (some n2)) v,
        ),
        (ne, write_self c2 p (some (node v null null)), tt),
        λ a h. write_other c2 a p _ h ∙ write_other c1 a p _ h ∙ write_other c a p _ h,
      )

  -- Behind the last node of a list.
  link_tail-cons :
      (y : Ptr × ℕ) (ys : Cells)
      → let xs : Cells = y ∷ ys in
        has p xs ≡ false
        → distinct xs ≡ true
        → Chain c null null xs
        → (c' : Cell) × (link_tail (header_of xs) p v (record { cell = c; log = log })
            ≡ ok
                (to_int (pos (length xs)), header (first_of xs null) p (incr (length xs)))
                (record { cell = c'; log = log }))
          × Chain c' null null (xs ++ (p, v) ∷ [])
          × ((a : Ptr) → has a (xs ++ (p, v) ∷ []) ≡ false → c' a ≡ c a)
  unfolding link_tail
  link_tail-cons y ys out apart chain =
      let xs : Cells = y ∷ ys in
      let l = last_of xs null in
      let (nd, lne, le, ln, chain1) = relink_next c null null p y ys apart chain in
      let pl = ne_of_has p l xs out (has-last_of y ys null) in
      let c1 = write c l (some (record nd { next = p })) in
      let n2 : Node = record g { prev = l } in
      let c2 = write c1 p (some n2) in
      let n3 : Node = record n2 { next = null } in
      let c3 = write c2 p (some n3) in
      let n4 = node v null l in
      let c4 = write c3 p (some n4) in
      (
        c4,
        rw (
          ==-false y.0 null chain.0,
          set_next-ok (record { cell = c; log = log }) l nd lne le p,
          set_prev-ok (record { cell = c1; log = log }) p g ne (write_other c p l _ pl ∙ e) l,
          set_next-ok (record { cell = c2; log = log }) p n2 ne (write_self c1 p (some n2)) null,
          set_ins-ok (record { cell = c3; log = log }) p n3 ne (write_self c2 p (some n3)) v,
        ),
        Chain-append c4 null null xs ((p, v) ∷ [])
            (Chain-write c3 p (some n4) null p xs out (
              Chain-write c2 p (some n3) null p xs out
                (Chain-write c1 p (some n2) null p xs out chain1)))
            (ne, write_self c3 p (some n4), tt),
        λ a h.
            let (hx, hp) = not-has-append a xs ((p, v) ∷ []) h in
            let ap : (a == p) ≡ false = ground (arith, hp) in
            write_other c3 a p _ ap
            ∙ write_other c2 a p _ ap
            ∙ write_other c1 a p _ ap
            ∙ write_other c a l _ (ne_of_has a l xs hx (has-last_of y ys null)),
      )

  link_first-nil :
      (c' : Cell) × (link_first (header null null 0) p v (record { cell = c; log = log })
        ≡ ok (pos 0, header p p 1) (record { cell = c'; log = log }))
      × Chain c' null null ((p, v) ∷ [])
      × ((a : Ptr) → (a == p) ≡ false → c' a ≡ c a)
  unfolding link_first
  link_first-nil =
      let n1 : Node = record g { next = null } in
      let c1 = write c p (some n1) in
      let n2 : Node = record n1 { prev = null } in
      let c2 = write c1 p (some n2) in
      let c3 = write c2 p (some (node v null null)) in
      (
        c3,
        rw (
          set_next-ok (record { cell = c; log = log }) p g ne e null,
          set_prev-ok (record { cell = c1; log = log }) p n1 ne (write_self c p (some n1)) null,
          set_ins-ok (record { cell = c2; log = log }) p n2 ne (write_self c1 p (some n2)) v,
        ),
        (ne, write_self c2 p (some (node v null null)), tt),
        λ a h. write_other c2 a p _ h ∙ write_other c1 a p _ h ∙ write_other c a p _ h,
      )

  -- In front of the first node of a list.
  link_first-cons :
      (q w : ℕ) (ys : Cells)
      → let xs : Cells = (q, w) ∷ ys in
        has p xs ≡ false
        → has q ys ≡ false
        → Chain c null null xs
        → (c' : Cell) × (link_first (header_of xs) p v (record { cell = c; log = log })
            ≡ ok
                (pos 0, header p (last_of xs null) (incr (length xs)))
                (record { cell = c'; log = log }))
          × Chain c' null null ((p, v) ∷ xs)
          × ((a : Ptr) → has a ((p, v) ∷ xs) ≡ false → c' a ≡ c a)
  unfolding link_first
  link_first-cons q w ys out apart (qne, qe, rest) =
      let xs : Cells = (q, w) ∷ ys in
      let old = node w (first_of ys null) null in
      let pq : (p == q) ≡ false = ground arith in
      let c1 = write c q (some (node w (first_of ys null) p)) in
      let n2 : Node = record g { prev = null } in
      let c2 = write c1 p (some n2) in
      let n3 : Node = record n2 { next = q } in
      let c3 = write c2 p (some n3) in
      let n4 = node v q null in
      let c4 = write c3 p (some n4) in
      let chain1 = relink_prev c null p null q w ys apart (qne, qe, rest) in
      (
        c4,
        rw (
          ==-false q null qne,
          set_prev-ok (record { cell = c; log = log }) q old qne qe p,
          set_prev-ok (record { cell = c1; log = log }) p g ne (write_other c p q _ pq ∙ e) null,
          set_next-ok (record { cell = c2; log = log }) p n2 ne (write_self c1 p (some n2)) q,
          set_ins-ok (record { cell = c3; log = log }) p n3 ne (write_self c2 p (some n3)) v,
        ),
        (
          ne,
          write_self c3 p (some n4),
          Chain-write c3 p (some n4) p null xs out (
              Chain-write c2 p (some n3) p null xs out
                (Chain-write c1 p (some n2) p null xs out chain1)),
        ),
        λ a h.
            let ap : (a == p) ≡ false = ground (arith, h) in
            let aq : (a == q) ≡ false = ground (arith, h) in
            write_other c3 a p _ ap
            ∙ write_other c2 a p _ ap
            ∙ write_other c1 a p _ ap
            ∙ write_other c a q _ aq,
      )

  pub link_tail-run :
      (xs : Cells)
      → has p xs ≡ false
      → distinct xs ≡ true
      → Chain c null null xs
      → (c' : Cell) × (link_tail (header_of xs) p v (record { cell = c; log = log })
          ≡ ok
              (to_int (pos (length xs)), header (first_of xs p) p (incr (length xs)))
              (record { cell = c'; log = log }))
        × Chain c' null null (xs ++ (p, v) ∷ [])
        × ((a : Ptr) → has a (xs ++ (p, v) ∷ []) ≡ false → c' a ≡ c a)
  link_tail-run [] out apart chain =
      let (c', run, chain', same) = link_tail-nil in
      (c', run, chain', λ a h. same a (ground (arith, h)))
  link_tail-run (y ∷ ys) out apart chain = link_tail-cons y ys out apart chain

  pub link_first-run :
      (xs : Cells)
      → has p xs ≡ false
      → distinct xs ≡ true
      → Chain c null null xs
      → (c' : Cell) × (link_first (header_of xs) p v (record { cell = c; log = log })
          ≡ ok
              (pos 0, header p (last_of xs p) (incr (length xs)))
              (record { cell = c'; log = log }))
        × Chain c' null null ((p, v) ∷ xs)
        × ((a : Ptr) → has a ((p, v) ∷ xs) ≡ false → c' a ≡ c a)
  link_first-run [] out apart chain =
      let (c', run, chain', same) = link_first-nil in
      (c', run, chain', λ a h. same a (ground (arith, h)))
  link_first-run ((q, w) ∷ ys) out apart chain =
      link_first-cons q w ys out (ground (arith, apart)) chain

module _ (c : Cell) (log : Table) (v : ℕ) where
  -- Linking NULL in front of a list writes through it.
  pub link_first-null :
      (xs : Cells)
      → Chain c null null xs
      → link_first (header_of xs) null v (record { cell = c; log = log }) ≡ fault
  unfolding link_first set_next load
  link_first-null [] chain = refl
  link_first-null ((q, w) ∷ ys) (qne, qe, rest) = rw (
    ==-false q null qne,
    set_prev-ok (record { cell = c; log = log }) q (node w (first_of ys null) null) qne qe null,
    set_prev-null,
  )
