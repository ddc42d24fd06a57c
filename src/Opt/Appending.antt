-- ===== src/Opt/Appending.antt =====
-- The loops of `opt_len` and `opt_reg` of linux/src/opt.c: the options are counted, and a node is put behind
-- the last one.
use libjoe.Base.{
  append-nil, ◌||◌, ℕ, zero, suc, ◌+◌, ◌<◌, ◌≡◌, refl, ◌∙◌, ap, ◌≢◌, Bool, true, false, Option,
  some, [], ◌∷◌, ◌++◌, arith, ◌==◌, ==-false, if◌then◌else◌, length, ok,
}
use libjoe.Linklist.Store.{Ptr, null}
use libjoe.Linklist.Chain.{Cells, has, distinct, ne_of_has, distinct-cons, distinct_middle}
use libjoe.Opt.Store.{Node, Cell, write, State}
use libjoe.Opt.Functions.{len_loop, opt_len, last_loop, append_node}
use libjoe.Opt.Rep.{
  Item, Items, node_of, first_of, places, Chain, IsRegistry, Chain-append, load-first,
}

pub write_self : (c : Cell) (p : Ptr) (o : Option Node) → write c p o p ≡ o
unfolding write
write_self c p o = ground arith

pub write_other : (c : Cell) (a p : Ptr) (o : Option Node) → (a == p) ≡ false → write c p o a ≡ c a
unfolding write
write_other c a p o h = rw h

module _ {W : Type 0} (st : State W) where
  len_loop-length :
      (n : ℕ) (xs : Items) (count : ℕ)
      → Chain st.cell null xs
      → length xs < n
      → len_loop n (first_of xs null) count st ≡ ok (count + length xs) st
  unfolding len_loop
  len_loop-length zero xs count h lt = absurd (omega arith)
  len_loop-length (suc n) [] count h lt = ap (λ m. ok m st) (omega arith)
  len_loop-length (suc n) ((p, i) ∷ xs) count (ne, e, h) lt =
      rw
        (
          ==-false p null ne,
          load-first st p (node_of i (first_of xs null)) ne e,
          len_loop-length n xs (count + 1) h (omega arith),
        )
        (ap (λ m. ok m st) (omega arith))

  len-from :
      (n : ℕ) (xs : Items) (h : Ptr)
      → h ≡ first_of xs null
      → Chain st.cell null xs
      → length xs < n
      → (if h == null then ok 0 else len_loop n h 0) st ≡ ok (length xs) st
  len-from n [] h e c lt = rw e refl
  len-from n ((p, i) ∷ xs) h e c lt =
      rw (e, ==-false p null c.0, len_loop-length n ((p, i) ∷ xs) 0 c lt)
        (ap (λ m. ok m st) (omega arith))

  -- `opt_len` counts the options.
  pub opt_len-length :
      (n : ℕ) (xs : Items) → IsRegistry st xs → length xs < n → opt_len n st ≡ ok (length xs) st
  unfolding opt_len
  opt_len-length n xs is lt = len-from n xs st.head is.start is.chain lt

pub or_right : (a b : Bool) → b ≡ true → (a || b) ≡ true
or_right true b h = refl
or_right false b h = h

has-cons : (a p : Ptr) (zs : Cells) → has a zs ≡ true → has a ((p, 0) ∷ zs) ≡ true
has-cons a p zs h = ground arith

-- The last node of a chain: the loop of `opt_reg` finds it, and a new `next` in it leads on from the chain.
record Last {W : Type 0} (st : State W) (n : ℕ) (xs : Items) (m : Ptr) : Type 0 where
  at : Ptr
  node : Node
  ne : at ≢ null
  cell : st.cell at ≡ some node
  run : last_loop n (first_of xs null) st ≡ ok at st
  inside : has at (places xs) ≡ true
  chain : Chain (write st.cell at (some (record node { next = m }))) m xs

last :
    {W : Type 0} (st : State W) (n : ℕ) (x : Ptr × Item) (xs : Items) (m : Ptr)
    → Chain st.cell null (x ∷ xs)
    → distinct (places (x ∷ xs)) ≡ true
    → length (x ∷ xs) < n
    → Last st n (x ∷ xs) m
unfolding last_loop
last st zero x xs m h d lt = absurd (omega arith)
last st (suc n) (p, i) [] m (ne, e, h) d lt = record {
  at = p;
  node = node_of i null;
  ne = ne;
  cell = e;
  run = rw (load-first st p (node_of i null) ne e) refl;
  inside = ground arith;
  chain = (ne, write_self st.cell p _, tt);
}
last st (suc n) (p, i) ((q, j) ∷ xs) m (ne, e, h) d lt =
    let (out, d') = distinct-cons p 0 (places ((q, j) ∷ xs)) d in
    let l = last st n (q, j) xs m h d' (omega arith) in
    record {
      at = l.at;
      node = l.node;
      ne = l.ne;
      cell = l.cell;
      run = rw (load-first st p (node_of i q) ne e, ==-false q null h.0) l.run;
      inside = has-cons l.at p (places ((q, j) ∷ xs)) l.inside;
      chain = (
        ne,
        write_other st.cell p l.at _ (ne_of_has p l.at (places ((q, j) ∷ xs)) out l.inside) ∙ e,
        l.chain,
      );
    }

pub distinct-last :
    (zs : Cells) (p : Ptr)
    → has p zs ≡ false
    → distinct zs ≡ true
    → distinct (zs ++ (p, 0) ∷ []) ≡ true
distinct-last zs p out d = distinct_middle zs p 0 [] ∙ rw (append-nil, out, d) refl

-- `append_node` puts a node with no `next` behind the chain.
pub record Appended {W : Type 0} (st : State W) (n : ℕ) (h p : Ptr) (xs : Items) (i : Item)
    : Type 0 where
  pub cell : Cell
  pub run :
      append_node n h p st
      ≡ ok tt (record {
        head = first_of (xs ++ (p, i) ∷ []) null;
        cell = cell;
        log = st.log;
        world = st.world;
      })
  pub chain : Chain cell null (xs ++ (p, i) ∷ [])

pub append_node-Appended :
    {W : Type 0} (st : State W) (n : ℕ) (h p : Ptr) (xs : Items) (i : Item)
    → st.head ≡ h
    → h ≡ first_of xs null
    → Chain st.cell null xs
    → distinct (places xs) ≡ true
    → p ≢ null
    → st.cell p ≡ some (node_of i null)
    → has p (places xs) ≡ false
    → length xs < n
    → Appended st n h p xs i
unfolding append_node
append_node-Appended st n h p [] i eh e c d ne at out lt = record {
  cell = st.cell;
  run = rw e refl;
  chain = (ne, at, tt);
}
append_node-Appended {W} st n h p (x ∷ xs) i eh e c d ne at out lt =
    let l = last st n x xs p c d lt in
    record {
      cell = write st.cell l.at (some (record l.node { next = p }));
      run =
          rw (e, ==-false x.0 null c.0, l.run, load-first st l.at l.node l.ne l.cell)
            (ap
              (λ a. ok tt (record st {
                head = a;
                cell = write st.cell l.at (some (record l.node { next = p }));
              }))
              (eh ∙ e));
      chain = Chain-append _ null p (x ∷ xs) ((p, i) ∷ []) l.chain refl (
        ne,
        write_other st.cell p l.at _ (ne_of_has p l.at (places (x ∷ xs)) out l.inside) ∙ at,
        tt,
      );
    }
