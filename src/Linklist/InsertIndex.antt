-- ===== src/Linklist/InsertIndex.antt =====
-- `list_insert_index` of linux/src/linklist.c between two nodes.
use mathlib.Core.Path.{subst}
use libjoe.Base.{
  Ensures, ok, ℕ, zero, suc, ◌+◌, ◌^◌, ◌≤◌, ◌<◌, ◌≡◌, refl, ◌∙◌, ap, ◌≢◌, true, false, some, [],
  ◌∷◌, ◌++◌, arith, length, length-append, pos, to_int, to_int-pos, ◌==◌, ==-false, ==_refl, leb,
  lt→leb_false, suc-ne-zero, sym,
}
use libjoe.Mem.{Table}
use libjoe.Linklist.Store.{Ptr, null, Node, node, Cell, Store, Libc, IsLibc, write, node_size}
use libjoe.Linklist.Functions.{Header, header, incr, insert_loop, insert_at, list_insert_index}
use libjoe.Linklist.Chain.{
  Cells, has, distinct, first_of, last_of, Chain, Owned-append, Owned-split, write_self,
  write_other, Chain-write, Chain-append, Chain-split, relink_next, relink_prev, last_of-append,
  has-last_of, ne_of_has, not-has-append, not-has-cons, distinct-cons, distinct_apart,
  distinct_apart_back, distinct_parts, distinct_middle,
}
use libjoe.Linklist.Commands.{
  load-ok, set_next-ok, set_prev-ok, HasRoom, Allocated, omalloc_node-ok,
}
use libjoe.Linklist.Insert.{held, spared, outside, still_linked, still_live}
use libjoe.Linklist.Rep.{IsList, Leaves, node_cnt-le}

-- The loop reaches the last node of `x ∷ xs`.
insert_loop-walk :
    (st : Store) (hd : Header) (new : Ptr) (k cnt idx b : ℕ) (x : Ptr × ℕ) (xs post : Cells)
    → Chain st.cell b null ((x ∷ xs) ++ post)
    → length xs ≤ k
    → idx ≡ cnt + length xs
    → idx < 2 ^ 32
    → (j : ℕ) × (insert_loop (suc k) hd new x.0 cnt idx st
        ≡ insert_loop (suc j) hd new (last_of xs x.0) idx idx st)
unfolding insert_loop
insert_loop-walk st hd new k cnt idx b x [] post chain fuel e small =
    let same : cnt ≡ idx = omega arith in (k, rw same)
insert_loop-walk st hd new zero cnt idx b x (y ∷ xs) post chain fuel e small = absurd (omega arith)
insert_loop-walk st hd new (suc k) cnt idx b x (y ∷ xs) post (ne, g, chain) fuel e small =
    let (j, rest) =
      insert_loop-walk st hd new k (incr cnt) idx x.0 y xs post chain (omega arith) (omega arith)
        small in
    let miss : (cnt == idx) ≡ false = ground arith in
    (j, rw (==-false x.0 null ne, miss, load-ok st x.0 (node x.1 y.0 b) ne g) rest)

module _ (c : Cell) (log : Table) (p : Ptr) (g : Node) (ne : p ≢ null) (e : c p ≡ some g) where
  -- Linking the node between `x ∷ xs` and `(q, w) ∷ ys`: its `ins` stays as it was.
  link_middle-run :
      (k idx : ℕ) (hd : Header) (x : Ptr × ℕ) (xs : Cells) (q w : ℕ) (ys : Cells)
      → let pre : Cells = x ∷ xs in
        let post : Cells = (q, w) ∷ ys in
        has p (pre ++ post) ≡ false
        → distinct (pre ++ post) ≡ true
        → Chain c null null (pre ++ post)
        → (c' : Cell) × (insert_loop
              (suc k)
              hd
              p
              (last_of pre null)
              idx
              idx
              (record { cell = c; log = log })
            ≡ ok
                (to_int (pos idx), header hd.first hd.tail (incr hd.node_cnt))
                (record { cell = c'; log = log }))
          × Chain c' null null (pre ++ (p, g.ins) ∷ post)
          × ((a : Ptr) → has a (pre ++ (p, g.ins) ∷ post) ≡ false → c' a ≡ c a)
  unfolding insert_loop
  link_middle-run k idx hd x xs q w ys out apart chain =
      let pre : Cells = x ∷ xs in
      let post : Cells = (q, w) ∷ ys in
      let l = last_of pre null in
      let st : Store = record { cell = c; log = log } in
      let (front, back) = Chain-split c null null pre post chain in
      let (dpre, dpost) = distinct_parts pre post apart in
      let (opre, opost) = not-has-append p pre post out in
      let lpre = has-last_of x xs null in
      let lpost = distinct_apart l pre post apart lpre in
      let (oq, oys) = distinct-cons q w ys dpost in
      let pq = (not-has-cons p q w ys opost).0 in
      let pl = ne_of_has p l pre opre lpre in
      let qpost : has q post ≡ true = rw ==_refl in
      let qpre = distinct_apart_back q pre post apart qpost in
      let c1 = write c q (some (node w (first_of ys null) p)) in
      let front1 = Chain-write c q (some (node w (first_of ys null) p)) null q pre qpre front in
      let back1 = relink_prev c l p null q w ys oq back in
      let n2 : Node = record g { next = q } in
      let c2 = write c1 p (some n2) in
      let front2 = Chain-write c1 p (some n2) null q pre opre front1 in
      let back2 = Chain-write c1 p (some n2) p null post opost back1 in
      let n3 : Node = record n2 { prev = l } in
      let c3 = write c2 p (some n3) in
      let front3 = Chain-write c2 p (some n3) null q pre opre front2 in
      let back3 = Chain-write c2 p (some n3) p null post opost back2 in
      let (nd0, lne, le0, ln0, _) = relink_next c null q p x xs dpre front in
      let le1 = write_other c l q _ (ne_of_has l q post lpost qpost) ∙ le0 in
      let (nd, _, le, ln, front4) = relink_next c3 null q p x xs dpre front3 in
      let st1 : Store = record { cell = c1; log = log } in
      let st2 : Store = record { cell = c2; log = log } in
      let st3 : Store = record { cell = c3; log = log } in
      let c4 = write c3 l (some (record nd { next = p })) in
      (
        c4,
        rw (
          ==-false l null lne,
          ==_refl idx,
          load-ok st l nd0 lne le0,
          ln0,
          set_prev-ok st q (node w (first_of ys null) l) back.0 back.1 p,
          load-ok st1 l nd0 lne le1,
          ln0,
          set_next-ok st1 p g ne (write_other c p q _ pq ∙ e) q,
          set_prev-ok st2 p n2 ne (write_self c1 p (some n2)) l,
          set_next-ok st3 l nd lne le p,
        ),
        Chain-append c4 null null pre ((p, g.ins) ∷ post) front4 (
          ne,
          write_other c3 p l _ pl ∙ write_self c2 p (some n3),
          Chain-write c3 l (some (record nd { next = p })) p null post lpost back3,
        ),
        λ a h.
            let (hpre, hrest) = not-has-append a pre ((p, g.ins) ∷ post) h in
            let (ap, hpost) = not-has-cons a p g.ins post hrest in
            write_other c3 a l _ (ne_of_has a l pre hpre lpre)
            ∙ write_other c2 a p _ ap
            ∙ write_other c1 a p _ ap
            ∙ write_other c a q _ (not-has-cons a q w ys hpost).0,
      )

-- The list with the new node between `pre` and `post`.
module _ {lc : Libc} {st : Store} {hd : Header} {st1 : Store} (p : Ptr) (g : ℕ) (x : Ptr × ℕ)
    (xs : Cells) (q w : ℕ) (ys : Cells) (is : IsList st hd ((x ∷ xs) ++ (q, w) ∷ ys))
    (ne : p ≢ null) (new : Allocated lc st p st1) where
  spliced :
      (c' : Cell)
      → let all : Cells = (x ∷ xs) ++ (p, g) ∷ (q, w) ∷ ys in
        Chain c' null null all
        → IsList
            (record { cell = c'; log = st1.log })
            (header hd.first hd.tail (incr hd.node_cnt))
            all
  spliced c' chain =
      let pre : Cells = x ∷ xs in
      let post : Cells = (q, w) ∷ ys in
      let len : incr (length (pre ++ post)) ≡ length (pre ++ (p, g) ∷ post) =
        omega (arith, node_cnt-le is, length-append pre post, length-append pre ((p, g) ∷ post)) in
      let (o1, o2) = Owned-split st1.log pre post (still_live p g is ne new) in
      record {
        ends = rw (is.ends, last_of-append, last_of-append, len);
        chain = chain;
        apart = distinct_middle pre p g post ∙ rw (outside p g is ne new, is.apart);
        owned = Owned-append st1.log pre ((p, g) ∷ post) o1 (new.live, o2);
        log = new.log;
      }

module _ {lc : Libc} (libc : IsLibc lc) {st : Store} {hd : Header} (v : ℕ) (ne : v ≢ 0) where
  -- Between two nodes, with a free slot and memory from `malloc`, `list_insert_index` links one new
  -- node in at the index and returns the index, but the value of that node is what the memory from
  -- `malloc` happens to hold: `ins` is never stored.
  pub list_insert_index-garbage :
      (x : Ptr × ℕ) (xs : Cells) (q w : ℕ) (ys : Cells)
      → let pre : Cells = x ∷ xs in
        let post : Cells = (q, w) ∷ ys in
        let ys' : Cells = pre ++ (lc.malloc st node_size, (lc.garbage st).ins) ∷ post in
        IsList st hd (pre ++ post)
        → HasRoom lc st
        → Ensures
            (Leaves st ys' (pos (length pre)) ys')
            (list_insert_index lc (some hd) v (length pre) st)
  unfolding list_insert_index insert_at
  list_insert_index-garbage x xs q w ys is room =
      let pre : Cells = x ∷ xs in
      let post : Cells = (q, w) ∷ ys in
      let n = length pre in
      let p = lc.malloc st node_size in
      let cnt = node_cnt-le is in
      let total = length-append pre post in
      let (st1, got, new) = omalloc_node-ok libc is.log room in
      let chain1 = still_linked p v is room.given new in
      let (j, walk) =
        insert_loop-walk st1 hd p hd.node_cnt 1 n null x xs post chain1 (omega (arith, cnt, total))
          (omega arith) (omega (arith, cnt, total)) in
      let (c', run, chain, same) =
        link_middle-run st1.cell st1.log p (lc.garbage st) room.given (held p v is room.given new) j
          n hd x xs q w ys (outside p v is room.given new) is.apart chain1 in
      let within : leb hd.node_cnt n ≡ false =
        lt→leb_false hd.node_cnt n (omega (arith, cnt, total)) in
      let e1 : hd.node_cnt + 1 ≡ suc hd.node_cnt = omega arith in
      let front : hd.first ≡ x.0 = ap (λ (h : Header). h.first) is.ends in
      let all =
        subst
          (λ f.
            insert_loop (suc hd.node_cnt) hd p f 1 n st1
            ≡ ok (to_int (pos n), header hd.first hd.tail (incr hd.node_cnt))
                (record { cell = c'; log = st1.log }))
          (sym front) (walk ∙ run) in
      rw (==-false v 0 ne, suc-ne-zero (length xs), within, got, e1, all)
        (
          to_int-pos n (omega (arith, cnt, total)),
          (_, refl, spliced p (lc.garbage st).ins x xs q w ys is room.given new c' chain),
          λ a h.
              let (hpre, hrest) = not-has-append a pre ((p, (lc.garbage st).ins) ∷ post) h in
              same a h
              ∙ spared p v is room.given new a (not-has-cons a p (lc.garbage st).ins post hrest).0,
        )
