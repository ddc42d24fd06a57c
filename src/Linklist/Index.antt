-- ===== src/Linklist/Index.antt =====
-- Access and removal by index in linux/src/linklist.c: `list_get_index`, `list_get_first`,
-- `list_get_tail` and `list_remove_index`.
use libjoe.Base.{
  Ensures, ok, ==_iff, ℕ, zero, suc, ◌+◌, ◌^◌, ◌≤◌, ◌<◌, ◌≡◌, refl, ap, ◌≢◌, inl, inr, true, false,
  Option, some, [], ◌∷◌, ◌++◌, arith, length, length-append, ℤ, minus_one, ◌==◌, ==-false,
  ltb_false→le, le→ltb_false, suc-ne-zero, ==_refl, sym, ltb, Bool-cases, if◌then◌else◌,
}
use mathlib.Core.List.{append-nil}
use mathlib.Core.Path.{subst}
use libjoe.Linklist.Store.{Ptr, null, node, Cell, Store, Cmd}
use libjoe.Linklist.Functions.{
  Header, header, incr, decr, get_loop, list_get_first, list_get_tail, list_get_index,
  unlink_middle, remove_loop, list_remove_index, list_remove_first, list_remove_tail,
}
use libjoe.Linklist.Chain.{
  Cells, first_of, last_of, Chain, last_of-append, has-last_of, not-has-cons, not-has-append,
  ne_of_has,
}
use libjoe.Linklist.Commands.{load-ok}
use libjoe.Linklist.Unlink.{unlink_middle-run}
use libjoe.Linklist.Rep.{header_of, IsList, node_cnt-le}
use libjoe.Linklist.Remove.{
  Removes, list_remove_first-tail, list_remove_tail-init, middle, p_live, removed, shorter,
}

-- The value at an index, NULL past the end.
unfoldable pub value_at : Cells → ℕ → ℕ
value_at [] i = 0
value_at ((p, v) ∷ xs) zero = v
value_at ((p, v) ∷ xs) (suc i) = value_at xs i

-- The value of the last node, `d` where there is none.
unfoldable pub last_value : Cells → ℕ → ℕ
last_value [] d = d
last_value ((p, v) ∷ xs) d = last_value xs v

get_loop-value_at :
    (st : Store) (k cnt i idx b : ℕ) (xs : Cells)
    → Chain st.cell b null xs
    → length xs < k
    → idx ≡ cnt + i
    → idx < 2 ^ 32
    → get_loop k (first_of xs null) cnt idx st ≡ ok (value_at xs i) st
unfolding get_loop value_at
get_loop-value_at st zero cnt i idx b xs chain fuel e small = absurd (omega arith)
get_loop-value_at st (suc k) cnt i idx b [] chain fuel e small = refl
get_loop-value_at st (suc k) cnt zero idx b ((p, v) ∷ xs) (ne, q, chain) fuel e small =
    let hit : (cnt == idx) ≡ true = ground arith in
    rw (==-false p null ne, load-ok st p (node v (first_of xs null) b) ne q, hit)
get_loop-value_at st (suc k) cnt (suc i) idx b ((p, v) ∷ xs) (ne, q, chain) fuel e small =
    let miss : (cnt == idx) ≡ false = ground arith in
    rw (==-false p null ne, load-ok st p (node v (first_of xs null) b) ne q, miss)
      (get_loop-value_at st k (incr cnt) i idx p xs chain (omega arith) (omega arith) small)

value_at_past : (xs : Cells) (i : ℕ) → length xs ≤ i → value_at xs i ≡ 0
unfolding value_at
value_at_past [] i h = refl
value_at_past (x ∷ xs) zero h = absurd (omega arith)
value_at_past (x ∷ xs) (suc i) h = value_at_past xs i (omega arith)

last_node :
    (c : Cell) (b : ℕ) (p v : ℕ) (xs : Cells)
    → Chain c b null ((p, v) ∷ xs)
    → (n : Ptr) × (last_of xs p ≢ null) × (c (last_of xs p) ≡ some (node (last_value xs v) null n))
unfolding last_value
last_node c b p v [] (ne, e, s) = (b, ne, e)
last_node c b p v ((q, w) ∷ xs) (ne, e, s) = last_node c p q w xs s

get_first_of :
    (st : Store) (ys : Cells)
    → Chain st.cell null null ys
    → list_get_first (some (header_of ys)) st ≡ ok (value_at ys 0) st
unfolding list_get_first value_at
get_first_of st [] chain = refl
get_first_of st ((p, v) ∷ ys) (ne, e, s) =
    rw (suc-ne-zero (length ys), load-ok st p (node v (first_of ys null) null) ne e)

get_tail_of :
    (st : Store) (ys : Cells)
    → Chain st.cell null null ys
    → list_get_tail (some (header_of ys)) st ≡ ok (last_value ys 0) st
unfolding list_get_tail last_value
get_tail_of st [] chain = refl
get_tail_of st ((p, v) ∷ ys) chain =
    let (n, ne, e) = last_node st.cell null p v ys chain in
    rw (suc-ne-zero (length ys), load-ok st (last_of ys p) (node (last_value ys v) null n) ne e)

module _ {st : Store} {hd : Header} {xs : Cells} (is : IsList st hd xs) where
  -- `list_get_first` returns the value of the first node and `list_get_tail` that of the last one;
  -- both return NULL if the list is empty.
  pub list_get_ends :
      (list_get_first (some hd) st ≡ ok (value_at xs 0) st)
      × (list_get_tail (some hd) st ≡ ok (last_value xs 0) st)
  list_get_ends = rw is.ends (get_first_of st xs is.chain, get_tail_of st xs is.chain)

  -- `list_get_index` returns the value at the index, NULL for any index past the end, with no fault
  -- and within its fuel.
  pub list_get_index-value_at :
      (idx : ℕ) → list_get_index (some hd) idx st ≡ ok (value_at xs idx) st
  unfolding list_get_index
  list_get_index-value_at idx = elim (Bool-cases (ltb hd.node_cnt idx)) [
    | inl past ↦ rw (past, value_at_past xs idx (ground (arith, node_cnt-le is)))
    | inr within ↦ rw within (elim (Bool-cases (idx == 0)) [
      | inl z ↦ rw (z, (==_iff idx 0).0 z) (list_get_ends.0)
      | inr nz ↦
          rw (nz, is.ends)
            (get_loop-value_at st (length xs + 1) 0 idx idx null xs is.chain (omega arith)
              (omega arith) (omega (arith, node_cnt-le is, ltb_false→le hd.node_cnt idx within)))
    ])
  ]

-- What the loop of `list_remove_index` does at the index that it looks for.
abbrev remove_here : Header → Ptr → Cmd (ℤ × Option Header)
remove_here hd p =
    if p == hd.first
    then list_remove_first (some hd)
    else if p == hd.tail
    then list_remove_tail (some hd)
    else unlink_middle hd p

remove_loop-here :
    (st : Store) (hd : Header) (k cnt idx b p v : ℕ) (xs post : Cells)
    → Chain st.cell b null (xs ++ (p, v) ∷ post)
    → length xs < k
    → idx ≡ cnt + length xs
    → idx < 2 ^ 32
    → remove_loop k hd (first_of (xs ++ (p, v) ∷ post) null) cnt idx st ≡ remove_here hd p st
unfolding remove_loop
remove_loop-here st hd zero cnt idx b p v xs post chain fuel e small = absurd (omega arith)
remove_loop-here st hd (suc k) cnt idx b p v [] post chain fuel e small =
    let hit : (cnt == idx) ≡ true = ground arith in rw (==-false p null chain.0, hit)
remove_loop-here st hd (suc k) cnt idx b p v ((q, w) ∷ xs) post (ne, g, chain) fuel e small =
    let miss : (cnt == idx) ≡ false = ground arith in
    rw
      (==-false q null ne, miss, load-ok st q (node w (first_of (xs ++ (p, v) ∷ post) null) b) ne g)
      (remove_loop-here st hd k (incr cnt) idx q p v xs post chain (omega arith) (omega arith)
        small)

remove_loop-past :
    (st : Store) (hd : Header) (k cnt idx b : ℕ) (xs : Cells)
    → Chain st.cell b null xs
    → length xs < k
    → cnt + length xs ≤ idx
    → idx < 2 ^ 32
    → remove_loop k hd (first_of xs null) cnt idx st ≡ ok (minus_one, some hd) st
unfolding remove_loop
remove_loop-past st hd zero cnt idx b xs chain fuel e small = absurd (omega arith)
remove_loop-past st hd (suc k) cnt idx b [] chain fuel e small = refl
remove_loop-past st hd (suc k) cnt idx b ((q, w) ∷ xs) (ne, g, chain) fuel e small =
    let miss : (cnt == idx) ≡ false = ground arith in
    rw (==-false q null ne, miss, load-ok st q (node w (first_of xs null) b) ne g)
      (remove_loop-past st hd k (incr cnt) idx q xs chain (omega arith) (omega arith) small)

module _ {st : Store} {hd : Header} where
  -- Past the end, at an index that is not 0, `list_remove_index` returns -1 and changes nothing.
  pub list_remove_index-past :
      (xs : Cells) (idx : ℕ)
      → IsList st hd xs
      → idx ≢ 0
      → length xs ≤ idx
      → list_remove_index (some hd) idx st ≡ ok (minus_one, some hd) st
  unfolding list_remove_index
  list_remove_index-past xs idx is ne past = elim (Bool-cases (ltb hd.node_cnt idx)) [
    | inl far ↦ rw far
    | inr near ↦
        rw (near, ==-false idx 0 ne, is.ends)
          (remove_loop-past st (header_of xs) (length xs + 1) 0 idx null xs is.chain (omega arith)
            (omega arith) (omega (arith, node_cnt-le is, ltb_false→le hd.node_cnt idx near)))
  ]

  remove_here-Removes :
      (x : Ptr × ℕ) (xs : Cells) (p v : ℕ) (post : Cells)
      → let pre : Cells = x ∷ xs in
        IsList st hd (pre ++ (p, v) ∷ post)
        → Ensures (Removes st (pre ++ (p, v) ∷ post) p (pre ++ post)) (remove_here hd p st)
  remove_here-Removes x xs p v [] is =
      let pre : Cells = x ∷ xs in
      let (out, _) = middle pre p v [] is in
      let front : (p == hd.first) ≡ false = rw is.ends (not-has-cons p x.0 x.1 (xs ++ []) out).0 in
      let back : (p == hd.tail) ≡ true = rw (is.ends, last_of-append, ==_refl p) in
      rw (front, back, append-nil) (list_remove_tail-init p v pre is)
  remove_here-Removes x xs p v ((q, w) ∷ ys) is =
      let pre : Cells = x ∷ xs in
      let post : Cells = (q, w) ∷ ys in
      let (out, apart) = middle pre p v post is in
      let opost = (not-has-append p pre post out).1 in
      let front : (p == hd.first) ≡ false =
        rw is.ends (not-has-cons p x.0 x.1 (xs ++ post) out).0 in
      let back : (p == hd.tail) ≡ false =
        rw (is.ends, last_of-append)
          (ne_of_has p (last_of post null) post opost (has-last_of (q, w) ys null)) in
      let (c', run, chain, gone, same) =
        unlink_middle-run st.cell st.log is.log p v (p_live pre p v post is) x xs q w ys hd out
          apart is.chain in
      let ends : header hd.first hd.tail (decr hd.node_cnt) ≡ header_of (pre ++ post) =
        rw (is.ends, last_of-append, last_of-append, shorter pre p v post is) in
      rw (front, back, run)
        ((refl, (_, refl, removed pre p v post is c' _ ends chain), same), gone, refl)

  -- `list_remove_index` at the index of a node returns 0, takes just that node out and frees it, and
  -- writes to no node outside the list.
  pub list_remove_index-nth :
      (pre : Cells) (p v : ℕ) (post : Cells)
      → IsList st hd (pre ++ (p, v) ∷ post)
      → Ensures
          (Removes st (pre ++ (p, v) ∷ post) p (pre ++ post))
          (list_remove_index (some hd) (length pre) st)
  unfolding list_remove_index
  list_remove_index-nth [] p v post is =
      let within : ltb hd.node_cnt 0 ≡ false = ground arith in
      rw within (list_remove_first-tail p v post is)
  list_remove_index-nth (x ∷ xs) p v post is =
      let n = length (x ∷ xs) in
      let cnt = node_cnt-le is in
      let within : ltb hd.node_cnt n ≡ false =
        le→ltb_false hd.node_cnt n (omega (arith, cnt, length-append (x ∷ xs) ((p, v) ∷ post))) in
      let first : hd.first ≡ x.0 = ap (λ (h : Header). h.first) is.ends in
      let here =
        remove_loop-here st hd (hd.node_cnt + 1) 0 n null p v (x ∷ xs) post is.chain
          (omega (arith, cnt, length-append (x ∷ xs) ((p, v) ∷ post))) (omega arith)
          (omega (arith, cnt, length-append (x ∷ xs) ((p, v) ∷ post))) in
      let here' =
        subst (λ f. remove_loop (hd.node_cnt + 1) hd f 0 n st ≡ remove_here hd p st) (sym first)
          here in
      rw (within, suc-ne-zero (length xs), here') (remove_here-Removes x xs p v post is)
