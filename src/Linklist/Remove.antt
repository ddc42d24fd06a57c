-- ===== src/Linklist/Remove.antt =====
-- `list_remove_first` and `list_remove_tail` of linux/src/linklist.c.
use libjoe.Base.{
  Ensures, ℕ, ◌≡◌, refl, ◌≢◌, true, false, Option, none, some, [], ◌∷◌, ◌++◌, arith, length,
  length-append, ℤ, pos, ==-false,
}
use mathlib.Core.List.{append-nil}
use libjoe.Mem.{ofree}
use libjoe.Mem.Live.{is_live}
use libjoe.Mem.Log.{ofree-IsLog}
use libjoe.Linklist.Store.{Ptr, null, Cell, Store}
use libjoe.Linklist.Functions.{
  Header, header, decr, unlink_tail, list_remove_first, list_remove_tail,
}
use libjoe.Linklist.Chain.{
  Cells, has, distinct, first_of, last_of, Chain, Owned, Owned-split, Owned-append, Owned-removed,
  NonNull-append, Chain-NonNull, last_of-append, distinct_middle, Chain-split,
}
use libjoe.Linklist.Unlink.{Left, unlink_first-run, unlink_tail-cons, unlink_tail-nil}
use libjoe.Linklist.Rep.{header_of, IsList, Leaves, node_cnt-le}

-- What a removal of the node `p` leaves behind, beside `Leaves`: the node is gone, and `ofree` has
-- taken its block out of the log.
abbrev pub Removes : Store → Cells → Ptr → Cells → ℤ × Option Header → Store → Type 0
Removes st touched p ys out st' =
    Leaves st touched (pos 0) ys out st' × (st'.cell p ≡ none) × (st'.log ≡ (ofree p st.log).1)

-- A list without its node `p`.
module _ {st : Store} {hd : Header} (xs : Cells) (p : Ptr) (v : ℕ) (ys : Cells)
    (is : IsList st hd (xs ++ (p, v) ∷ ys)) where
  pub middle : (has p (xs ++ ys) ≡ false) × (distinct (xs ++ ys) ≡ true)
  middle = ground (arith, distinct_middle xs p v ys, is.apart)

  pub p_ne_null : p ≢ null
  p_ne_null = (Chain-split st.cell null null xs ((p, v) ∷ ys) is.chain).1.0

  pub p_live : is_live p st.log ≡ true
  p_live = (Owned-split st.log xs ((p, v) ∷ ys) is.owned).1.0

  pub shorter : decr (length (xs ++ (p, v) ∷ ys)) ≡ length (xs ++ ys)
  shorter = omega (arith, node_cnt-le is, length-append xs ((p, v) ∷ ys), length-append xs ys)

  rest_live : Owned (ofree p st.log).1 (xs ++ ys)
  unfolding ofree
  rest_live =
      let (o1, o2) = Owned-split st.log xs ((p, v) ∷ ys) is.owned in
      let s = Chain-split st.cell null null xs ((p, v) ∷ ys) is.chain in
      rw (==-false p null p_ne_null) (
        Owned-removed p st.log (xs ++ ys) p_ne_null is.log.distinct middle.0
          (NonNull-append xs ys (Chain-NonNull st.cell null p xs s.0)
            (Chain-NonNull st.cell p null ys s.1.2))
          (Owned-append st.log xs ys o1 o2.1))

  pub removed :
      (c' : Cell) (hd' : Header)
      → hd' ≡ header_of (xs ++ ys)
      → Chain c' null null (xs ++ ys)
      → IsList (record { cell = c'; log = (ofree p st.log).1 }) hd' (xs ++ ys)
  removed c' hd' e chain = record {
    ends = e;
    chain = chain;
    apart = middle.1;
    owned = rest_live;
    log = (ofree-IsLog p 1 (omega arith) is.log).0;
  }

module _ {st : Store} {hd : Header} (p : Ptr) (v : ℕ) where
  -- `list_remove_first` of a list that is not empty returns 0, takes its first node out and frees it,
  -- and writes to no node outside the list.
  pub list_remove_first-tail :
      (xs : Cells)
      → IsList st hd ((p, v) ∷ xs)
      → Ensures (Removes st ((p, v) ∷ xs) p xs) (list_remove_first (some hd) st)
  unfolding list_remove_first
  list_remove_first-tail xs is =
      let (out, apart) = middle [] p v xs is in
      let r = unlink_first-run st.cell st.log is.log p v is.owned.0 xs out apart is.chain in
      rw (is.ends, ==-false p null is.chain.0, r.run)
        (
          (
            refl,
            (_, refl, removed [] p v xs is r.cell _ (rw (shorter [] p v xs is)) r.chain),
            r.same,
          ),
          r.gone,
          refl,
        )

  unlink_tail-run :
      (xs : Cells) (is : IsList st hd (xs ++ (p, v) ∷ []))
      → Left st.cell st.log
          (xs ++ (p, v) ∷ [])
          p
          (header (first_of xs null) (last_of xs null) (decr (length (xs ++ (p, v) ∷ []))))
          xs
          (unlink_tail
            (header (first_of (xs ++ (p, v) ∷ []) null) p (length (xs ++ (p, v) ∷ [])))
            st)
  unlink_tail-run [] is = unlink_tail-nil st.cell st.log is.log p v is.owned.0 is.chain
  unlink_tail-run (x ∷ xs) is =
      let (out, apart) = middle (x ∷ xs) p v [] is in
      unlink_tail-cons st.cell st.log is.log p v (p_live (x ∷ xs) p v [] is) x xs
        (rw append-nil at out) (rw append-nil at apart) is.chain

  -- `list_remove_tail` of a list that is not empty returns 0, takes its last node out and frees it,
  -- and writes to no node outside the list.
  pub list_remove_tail-init :
      (xs : Cells)
      → IsList st hd (xs ++ (p, v) ∷ [])
      → Ensures (Removes st (xs ++ (p, v) ∷ []) p xs) (list_remove_tail (some hd) st)
  unfolding list_remove_tail
  list_remove_tail-init xs is =
      let r = unlink_tail-run xs is in
      rw (is.ends, last_of-append, ==-false p null (p_ne_null xs p v [] is), r.run)
        (
          (
            refl,
            (
              _,
              refl,
              rw append-nil at (
                  removed xs p v [] is r.cell
                    (header (first_of xs null) (last_of xs null)
                      (decr (length (xs ++ (p, v) ∷ []))))
                    (rw (shorter xs p v [] is, append-nil)) (rw append-nil r.chain)),
            ),
            r.same,
          ),
          r.gone,
          refl,
        )
