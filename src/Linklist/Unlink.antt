-- ===== src/Linklist/Unlink.antt =====
-- The statements by which linux/src/linklist.c takes a node out: at the front, at the back, and between
-- two others.
use libjoe.Base.{
  Run, ok, ℕ, ◌≡◌, ◌∙◌, ◌≢◌, true, false, none, some, [], ◌∷◌, ◌++◌, arith, length, ℤ, pos, ◌==◌,
  ==-false, ==_refl, ==-sym_false, ap,
}
use libjoe.Mem.{Table, ofree}
use libjoe.Mem.Live.{is_live, IsLog}
use libjoe.Linklist.Store.{Ptr, null, node, Cell, Store, write, ofree_node}
use libjoe.Linklist.Functions.{Header, header, decr, unlink_first, unlink_tail, unlink_middle}
use libjoe.Linklist.Chain.{
  Cells, has, distinct, first_of, last_of, Chain, write_self, write_other, Chain-write,
  Chain-append, Chain-split, relink_next, relink_prev, has-last_of, ne_of_has, not-has-append,
  not-has-cons, distinct-cons, distinct_apart, distinct_apart_back, distinct_parts,
}
use libjoe.Linklist.Commands.{load-ok, set_next-ok, set_prev-ok, ofree_node-ok}
use libjoe.Linklist.Rep.{header_of}

-- What is left when the node `p` is gone: the header `hd`, the nodes `ys`, and all other addresses.
pub record Left (c : Cell) (log : Table) (touched : Cells) (p : Ptr) (hd : Header) (ys : Cells)
    (r : Run Store (ℤ × Header)) : Type 0 where
  pub cell : Cell
  pub run : r ≡ ok (pos 0, hd) (record { cell = cell; log = (ofree p log).1 })
  pub chain : Chain cell null null ys
  pub gone : cell p ≡ none
  pub same : (a : Ptr) → has a touched ≡ false → cell a ≡ c a

module _ (c : Cell) (log : Table) (is_log : IsLog log) (p : Ptr) (v : ℕ)
    (l : is_live p log ≡ true) where
  freed :
      (c1 : Cell)
      → p ≢ null
      → ofree_node p (record { cell = c1; log = log })
        ≡ ok (pos 0) (record { cell = write c1 p none; log = (ofree p log).1 })
  freed c1 ne =
      let (st', run, rel) = ofree_node-ok (record { cell = c1; log = log }) p is_log ne l in
      run ∙ λ i. ok (pos 0) (record { cell = rel.cell i; log = rel.log i })

  pub unlink_first-run :
      (ys : Cells)
      → has p ys ≡ false
      → distinct ys ≡ true
      → Chain c null null ((p, v) ∷ ys)
      → let xs : Cells = (p, v) ∷ ys in
        Left c log xs p
          (header (first_of ys null) (last_of ys null) (decr (length xs)))
          ys
          (unlink_first (header_of xs) (record { cell = c; log = log }))
  unfolding unlink_first
  unlink_first-run [] out apart (ne, e, s) =
      let st : Store = record { cell = c; log = log } in
      record {
        cell = write c p none;
        run = rw (
          load-ok st p (node v null null) ne e,
          load-ok st p (node v null null) ne e,
          ==_refl p,
          freed c ne,
        );
        chain = tt;
        gone = write_self c p none;
        same = λ a h. write_other c a p none (ground (arith, h));
      }
  unlink_first-run ((q, w) ∷ ys) out apart (ne, e, (qne, qe, s)) =
      let st : Store = record { cell = c; log = log } in
      let n = node v q null in
      let c1 = write c q (some (node w (first_of ys null) null)) in
      let st1 : Store = record { cell = c1; log = log } in
      let xs : Cells = (q, w) ∷ ys in
      let pq : (p == q) ≡ false = ground (arith, out) in
      record {
        cell = write c1 p none;
        run = rw (
          load-ok st p n ne e,
          ==-false q null qne,
          set_prev-ok st q (node w (first_of ys null) p) qne qe null,
          load-ok st1 p n ne (write_other c p q _ pq ∙ e),
          ==-sym_false p (last_of ys q)
              (ne_of_has p (last_of ys q) xs out (has-last_of (q, w) ys null)),
          freed c1 ne,
        );
        chain =
            Chain-write c1 p none null null xs out
              (relink_prev c p null null q w ys (distinct-cons q w ys apart).0 (qne, qe, s));
        gone = write_self c1 p none;
        same = λ a h.
            let (ap, hxs) = not-has-cons a p v xs h in
            write_other c1 a p none ap ∙ write_other c a q _ (not-has-cons a q w ys hxs).0;
      }

  pub unlink_tail-cons :
      (x : Ptr × ℕ) (ys : Cells)
      → let xs : Cells = x ∷ ys in
        has p xs ≡ false
        → distinct xs ≡ true
        → Chain c null null (xs ++ (p, v) ∷ [])
        → Left c log
            (xs ++ (p, v) ∷ [])
            p
            (header (first_of xs null) (last_of xs null) (decr (length (xs ++ (p, v) ∷ []))))
            xs
            (unlink_tail
              (header (first_of xs null) p (length (xs ++ (p, v) ∷ [])))
              (record { cell = c; log = log }))
  unfolding unlink_tail
  unlink_tail-cons x ys out apart chain =
      let xs : Cells = x ∷ ys in
      let l = last_of xs null in
      let (front, (ne, e, _)) = Chain-split c null null xs ((p, v) ∷ []) chain in
      let (nd, lne, le, ln, chain1) = relink_next c null p null x ys apart front in
      let st : Store = record { cell = c; log = log } in
      let n = node v null l in
      let c1 = write c l (some (record nd { next = null })) in
      let st1 : Store = record { cell = c1; log = log } in
      let pl = ne_of_has p l xs out (has-last_of x ys null) in
      record {
        cell = write c1 p none;
        run = rw (
          load-ok st p n ne e,
          ==-false l null lne,
          set_next-ok st l nd lne le null,
          load-ok st1 p n ne (write_other c p l _ pl ∙ e),
          ==-sym_false p x.0 (ground (arith, out)),
          freed c1 ne,
        );
        chain = Chain-write c1 p none null null xs out chain1;
        gone = write_self c1 p none;
        same = λ a h.
            let (hx, hp) = not-has-append a xs ((p, v) ∷ []) h in
            write_other c1 a p none (ground (arith, hp))
            ∙ write_other c a l _ (ne_of_has a l xs hx (has-last_of x ys null));
      }

  pub unlink_tail-nil :
      Chain c null null ((p, v) ∷ [])
      → Left c log
          ((p, v) ∷ [])
          p
          (header null null (decr 1))
          []
          (unlink_tail (header p p 1) (record { cell = c; log = log }))
  unfolding unlink_tail
  unlink_tail-nil (ne, e, s) =
      let st : Store = record { cell = c; log = log } in
      record {
        cell = write c p none;
        run = rw (
          load-ok st p (node v null null) ne e,
          load-ok st p (node v null null) ne e,
          ==_refl p,
          freed c ne,
        );
        chain = tt;
        gone = write_self c p none;
        same = λ a h. write_other c a p none (ground (arith, h));
      }

  -- Between the nodes `x ∷ xs` and `(q, w) ∷ ys`.
  pub unlink_middle-run :
      (x : Ptr × ℕ) (xs : Cells) (q w : ℕ) (ys : Cells) (hd : Header)
      → let pre : Cells = x ∷ xs in
        let post : Cells = (q, w) ∷ ys in
        has p (pre ++ post) ≡ false
        → distinct (pre ++ post) ≡ true
        → Chain c null null (pre ++ (p, v) ∷ post)
        → (c' : Cell) × (unlink_middle hd p (record { cell = c; log = log })
            ≡ ok
                (pos 0, some (header hd.first hd.tail (decr hd.node_cnt)))
                (record { cell = c'; log = (ofree p log).1 }))
          × Chain c' null null (pre ++ post)
          × (c' p ≡ none)
          × ((a : Ptr) → has a (pre ++ (p, v) ∷ post) ≡ false → c' a ≡ c a)
  unfolding unlink_middle
  unlink_middle-run x xs q w ys hd out apart chain =
      let pre : Cells = x ∷ xs in
      let post : Cells = (q, w) ∷ ys in
      let l = last_of pre null in
      let st : Store = record { cell = c; log = log } in
      let (front, (ne, e, back)) = Chain-split c null null pre ((p, v) ∷ post) chain in
      let (dpre, dpost) = distinct_parts pre post apart in
      let (opre, opost) = not-has-append p pre post out in
      let (nd, lne, le, ln, chain1) = relink_next c null p q x xs dpre front in
      let lpre = has-last_of x xs null in
      let c1 = write c l (some (record nd { next = q })) in
      let st1 : Store = record { cell = c1; log = log } in
      let n = node v q l in
      let e1 = write_other c p l _ (ne_of_has p l pre opre lpre) ∙ e in
      let back1 =
        Chain-write c l (some (record nd { next = q })) p null post
          (distinct_apart l pre post apart lpre) back in
      let c2 = write c1 q (some (node w (first_of ys null) l)) in
      let qpost : has q post ≡ true = rw ==_refl in
      (
        write c2 p none,
        rw (
          load-ok st p n ne e,
          set_next-ok st l nd lne le q,
          load-ok st1 p n ne e1,
          set_prev-ok st1 q (node w (first_of ys null) p) back1.0 back1.1 l,
          freed c2 ne,
        ),
        Chain-append (write c2 p none) null null pre post
            (Chain-write c2 p none null q pre opre
              (Chain-write c1 q _ null q pre (distinct_apart_back q pre post apart qpost) chain1))
            (Chain-write c2 p none l null post opost
              (relink_prev c1 p l null q w ys (distinct-cons q w ys dpost).0 back1)),
        write_self c2 p none,
        λ a h.
            let (hpre, hrest) = not-has-append a pre ((p, v) ∷ post) h in
            let (ap, hpost) = not-has-cons a p v post hrest in
            write_other c2 a p none ap
            ∙ write_other c1 a q _ (not-has-cons a q w ys hpost).0
            ∙ write_other c a l _ (ne_of_has a l pre hpre lpre),
      )
