-- ===== src/Linklist/Insert.antt =====
-- `list_insert_tail` and `list_insert_first` of linux/src/linklist.c.
use libjoe.Base.{
  Ensures, fault, ok, ℕ, suc, ◌≡◌, refl, ◌∙◌, ◌≢◌, ◌⊎◌, false, some, [], ◌∷◌, ◌++◌, arith, length,
  length-append, pos, minus_one, to_int-pos, ◌==◌, ==-false, ==-sym_false, ap,
}
use mathlib.Core.List.{append-nil}
use libjoe.Mem.{memory_allocate_max_times}
use libjoe.Mem.Live.{used}
use libjoe.Linklist.Store.{Ptr, null, Cell, Store, Libc, IsLibc, node_size}
use libjoe.Linklist.Functions.{Header, header, incr, list_insert_tail, list_insert_first}
use libjoe.Linklist.Chain.{
  Cells, has, first_of, last_of, Chain, Owned, write_self, write_other, Owned-same, Owned-append,
  not-has_of_none, distinct_middle, last_of-append, first_of-append, Chain-NonNull, ne_of_has,
  not-has-append, ne_null_of_has, Chain-same,
}
use libjoe.Linklist.Commands.{HasRoom, Allocated, omalloc_node-ok, omalloc_node-null}
use libjoe.Linklist.Link.{link_tail-run, link_first-run, link_first-null}
use libjoe.Linklist.Rep.{IsList, Leaves, node_cnt-le}

-- What linking adds up to, once `omalloc` has returned the node.
module _ {lc : Libc} {st : Store} {hd : Header} {xs : Cells} {st1 : Store} (p : Ptr) (v : ℕ)
    (is : IsList st hd xs) (ne : p ≢ null) (new : Allocated lc st p st1) where
  pub held : st1.cell p ≡ some (lc.garbage st)
  held = ap (λ (f : Cell). f p) new.cell ∙ write_self st.cell p _

  pub spared : (a : Ptr) → (a == p) ≡ false → st1.cell a ≡ st.cell a
  spared a h = ap (λ (f : Cell). f a) new.cell ∙ write_other st.cell a p _ h

  pub outside : has p xs ≡ false
  outside = not-has_of_none st.cell p null null xs new.unused is.chain

  pub still_linked : Chain st1.cell null null xs
  still_linked =
      Chain-same st.cell st1.cell null null xs
        (λ a h. spared a (==-sym_false p a (ne_of_has p a xs outside h))) is.chain

  pub still_live : Owned st1.log xs
  still_live =
      Owned-same st.log st1.log xs
        (λ a h l.
          new.kept a (ne_null_of_has a xs (Chain-NonNull st.cell null null xs is.chain) h) l)
        is.owned

  longer : incr (length xs) ≡ suc (length xs)
  longer = omega (arith, node_cnt-le is)

  appended :
      (c' : Cell)
      → Chain c' null null (xs ++ (p, v) ∷ [])
      → IsList
          (record { cell = c'; log = st1.log })
          (header (first_of xs p) p (incr (length xs)))
          (xs ++ (p, v) ∷ [])
  appended c' chain = record {
    ends =
        let len : suc (length xs) ≡ length (xs ++ (p, v) ∷ []) =
          omega (arith, length-append xs ((p, v) ∷ [])) in
        rw (first_of-append, last_of-append, longer, len);
    chain = chain;
    apart = distinct_middle xs p v [] ∙ rw (append-nil, outside, is.apart);
    owned = Owned-append st1.log xs _ still_live (new.live, tt);
    log = new.log;
  }

  prepended :
      (c' : Cell)
      → Chain c' null null ((p, v) ∷ xs)
      → IsList
          (record { cell = c'; log = st1.log })
          (header p (last_of xs p) (incr (length xs)))
          ((p, v) ∷ xs)
  prepended c' chain = record {
    ends = rw longer;
    chain = chain;
    apart = rw (outside, is.apart);
    owned = (new.live, still_live);
    log = new.log;
  }

module _ {lc : Libc} (libc : IsLibc lc) {st : Store} {hd : Header} (xs : Cells) (v : ℕ)
    (is : IsList st hd xs) (ne : v ≢ 0) where
  abbrev new_node : Ptr
  new_node = lc.malloc st node_size

  -- With a value that is not NULL, a free slot in the log and memory from `malloc`,
  -- `list_insert_tail` puts one node with that value behind the list, returns the index of that node,
  -- and writes to no node outside the list.
  pub list_insert_tail-append :
      HasRoom lc st
      → Ensures
          (Leaves st (xs ++ (new_node, v) ∷ []) (pos (length xs)) (xs ++ (new_node, v) ∷ []))
          (list_insert_tail lc (some hd) v st)
  unfolding list_insert_tail
  list_insert_tail-append room =
      let (st1, got, new) = omalloc_node-ok libc is.log room in
      let (c', run, chain, same) =
        link_tail-run st1.cell st1.log new_node (lc.garbage st) v room.given
          (held new_node v is room.given new) xs (outside new_node v is room.given new) is.apart
          (still_linked new_node v is room.given new) in
      rw (==-false v 0 ne, got, ==-false new_node null room.given, is.ends, run)
        (
          to_int-pos (length xs) (omega (arith, node_cnt-le is)),
          (_, refl, appended new_node v is room.given new c' chain),
          λ a h.
              same a h
              ∙ spared new_node v is room.given new a
                  (ground (arith, not-has-append a xs ((new_node, v) ∷ []) h)),
        )

  -- With a value that is not NULL, a free slot in the log and memory from `malloc`,
  -- `list_insert_first` puts one node with that value in front of the list, returns 0, and writes to no
  -- node outside the list.
  pub list_insert_first-cons :
      HasRoom lc st
      → Ensures
          (Leaves st ((new_node, v) ∷ xs) (pos 0) ((new_node, v) ∷ xs))
          (list_insert_first lc (some hd) v st)
  unfolding list_insert_first
  list_insert_first-cons room =
      let (st1, got, new) = omalloc_node-ok libc is.log room in
      let (c', run, chain, same) =
        link_first-run st1.cell st1.log new_node (lc.garbage st) v room.given
          (held new_node v is room.given new) xs (outside new_node v is room.given new) is.apart
          (still_linked new_node v is room.given new) in
      rw (==-false v 0 ne, got, is.ends, run)
        (
          refl,
          (_, refl, prepended new_node v is room.given new c' chain),
          λ a h. same a h ∙ spared new_node v is room.given new a (ground (arith, h)),
        )

  -- When `malloc` fails or 200 blocks are live, `list_insert_tail` returns -1 and changes nothing.
  pub list_insert_tail-full :
      (lc.malloc st node_size ≡ null) ⊎ (used st.log ≡ memory_allocate_max_times)
      → list_insert_tail lc (some hd) v st ≡ ok (minus_one, some hd) st
  unfolding list_insert_tail
  list_insert_tail-full why = rw (==-false v 0 ne, omalloc_node-null libc is.log why)

  -- In the same two cases `list_insert_first`, which does not test what `omalloc` returns, writes
  -- through NULL.
  pub list_insert_first-fault :
      (lc.malloc st node_size ≡ null) ⊎ (used st.log ≡ memory_allocate_max_times)
      → list_insert_first lc (some hd) v st ≡ fault
  unfolding list_insert_first
  list_insert_first-fault why = rw (
    ==-false v 0 ne,
    omalloc_node-null libc is.log why,
    is.ends,
    link_first-null st.cell st.log v xs is.chain,
  )
