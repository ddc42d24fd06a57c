-- ===== src/Linklist/Commands.antt =====
-- What each command on the nodes of linux/src/linklist.c does, at an address that holds a node; and
-- the two outcomes of `omalloc` and `ofree`.
use libjoe.Base.{
  fault, ok, ℕ, ◌<◌, ◌≡◌, refl, ◌∙◌, ◌≢◌, ◌⊎◌, inr, true, some, none, pos, arith, ==-false, ==_refl,
}
use libjoe.Mem.{memory_allocate_max_times, omalloc, ofree}
use libjoe.Mem.Live.{used, is_live, IsLog}
use libjoe.Mem.Log.{
  omalloc-live, omalloc-null, omalloc-IsLog, ofree-live, ofree-IsLog, is_live-omalloc,
}
use libjoe.Linklist.Store.{
  Ptr, null, Node, Store, write, Libc, IsLibc, load, set_next, set_prev, set_ins, omalloc_node,
  free_cell, ofree_node, node_size,
}

module _ (st : Store) (p : Ptr) (n : Node) (ne : p ≢ null) (e : st.cell p ≡ some n) where
  pub load-ok : load p st ≡ ok n st
  unfolding load
  load-ok = rw (==-false p null ne, e)

  pub set_next-ok :
      (q : Ptr)
      → set_next p q st
        ≡ ok tt (record { cell = write st.cell p (some (record n { next = q })); log = st.log })
  unfolding set_next
  set_next-ok q = rw (==-false p null ne, e)

  pub set_prev-ok :
      (q : Ptr)
      → set_prev p q st
        ≡ ok tt (record { cell = write st.cell p (some (record n { prev = q })); log = st.log })
  unfolding set_prev
  set_prev-ok q = rw (==-false p null ne, e)

  pub set_ins-ok :
      (v : ℕ)
      → set_ins p v st
        ≡ ok tt (record { cell = write st.cell p (some (record n { ins = v })); log = st.log })
  unfolding set_ins
  set_ins-ok v = rw (==-false p null ne, e)

pub set_prev-null : (q : Ptr) (st : Store) → set_prev null q st ≡ fault
unfolding set_prev
set_prev-null q st = refl

pub set_next-null : (q : Ptr) (st : Store) → set_next null q st ≡ fault
unfolding set_next
set_next-null q st = refl

-- `malloc` succeeds and a slot of the log is free.
pub record HasRoom (c : Libc) (st : Store) : Type 0 where
  pub given : c.malloc st node_size ≢ null
  pub slot : used st.log < memory_allocate_max_times

-- What holds of the store `st'` after `omalloc` has returned the node `p`.
pub record Allocated (c : Libc) (st : Store) (p : Ptr) (st' : Store) : Type 0 where
  pub unused : st.cell p ≡ none
  pub cell : st'.cell ≡ write st.cell p (some (c.garbage st))
  pub log : IsLog st'.log
  pub live : is_live p st'.log ≡ true
  pub kept : (a : Ptr) → a ≢ null → is_live a st.log ≡ true → is_live a st'.log ≡ true

module _ {c : Libc} {st : Store} (libc : IsLibc c) (log : IsLog st.log) where
  pub omalloc_node-ok :
      HasRoom c st
      → (st' : Store) × (omalloc_node c st ≡ ok (c.malloc st node_size) st')
        × Allocated c st (c.malloc st node_size) st'
  unfolding omalloc_node
  omalloc_node-ok room =
      let p = c.malloc st node_size in
      let (got, _) =
        omalloc-live p c.stamp "list node" node_size log room.given (omega arith) room.slot in
      let log' = (omalloc p c.stamp (some "list node") node_size st.log).1 in
      let st' : Store = record { cell = write st.cell p (some (c.garbage st)); log = log' } in
      (
        st',
        rw (got, ==-false p null room.given),
        record {
          unused = libc.fresh_cell st node_size room.given;
          cell = refl;
          log =
              omalloc-IsLog p c.stamp "list node" node_size log
                (libc.fresh_log st node_size room.given);
          live =
              is_live-omalloc p c.stamp "list node" node_size p log room.given room.given
                (omega arith) room.slot
              ∙ rw (==_refl p);
          kept = λ a na l.
              is_live-omalloc p c.stamp "list node" node_size a log na room.given (omega arith)
                room.slot
              ∙ ground (arith, l);
        },
      )

  pub omalloc_node-null :
      (c.malloc st node_size ≡ null) ⊎ (used st.log ≡ memory_allocate_max_times)
      → omalloc_node c st ≡ ok null st
  unfolding omalloc_node
  omalloc_node-null why =
      rw (omalloc-null (c.malloc st node_size) c.stamp "list node" node_size log (inr why))

-- What holds of the store `st'` after `ofree` has given the node `p` back.
pub record Released (st : Store) (p : Ptr) (st' : Store) : Type 0 where
  pub cell : st'.cell ≡ write st.cell p none
  pub log : st'.log ≡ (ofree p st.log).1
  pub IsLog_kept : IsLog st'.log

pub ofree_node-ok :
    (st : Store) (p : Ptr)
    → IsLog st.log
    → p ≢ null
    → is_live p st.log ≡ true
    → (st' : Store) × (ofree_node p st ≡ ok (pos 0) st') × Released st p st'
unfolding ofree_node free_cell
ofree_node-ok st p log ne l =
    let (done, _) = ofree-live p st.log ne l in
    (
      record { cell = write st.cell p none; log = (ofree p st.log).1 },
      rw done,
      record { cell = refl; log = refl; IsLog_kept = (ofree-IsLog p 1 (omega arith) log).0 },
    )
