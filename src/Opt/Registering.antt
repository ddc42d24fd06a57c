-- ===== src/Opt/Registering.antt =====
-- `opt_reg` of linux/src/opt.c.
use Prim.Native.String.{String}
use libjoe.Base.{
  ◌+◌, ◌⊎◌, inl, inr, none, minus_one, Bool-cases, ==_refl, ℕ, ◌<◌, ◌≡◌, refl, ◌∙◌, ap, ◌≢◌, true,
  false, Option, some, [], ◌∷◌, ◌++◌, arith, ◌==◌, ==-false, length, pos, ok, Ensures,
}
use libjoe.Mem.{Table, memory_allocate_max_times, omalloc}
use libjoe.Mem.Live.{used, is_live, IsLog}
use libjoe.Mem.Log.{used-omalloc, omalloc-null, omalloc-live, is_live-omalloc, omalloc-IsLog}
use libjoe.Linklist.Store.{Ptr, null}
use libjoe.Linklist.Chain.{has, Owned-same, Owned-append, ne_null_of_has}
use libjoe.Opt.Store.{Text, Opt, Cell, write, State, System, is_null, simple_list_size}
use libjoe.Opt.Functions.{opt_reg, omalloc_block}
use libjoe.Opt.Rep.{
  Item, Items, node_of, first_of, places, Chain, IsRegistry, IsSystem, places-append, Chain-write,
  not-has_of_none, Named-append, Chain-NonNull,
}
use libjoe.Opt.Appending.{write_self, or_right, distinct-last, Appended, append_node-Appended}

-- `omalloc` of a block with a free slot, and the log that it leaves.
pub omalloc_block-run :
    {W : Type 0} (k : System W) (dec : String) (size : ℕ) (st : State W)
    → IsLog st.log
    → size ≢ 0
    → used st.log < memory_allocate_max_times
    → k.malloc st size ≢ 0
    → omalloc_block k dec size st
      ≡ ok
          (k.malloc st size)
          (record st { log = (omalloc (k.malloc st size) k.stamp (some dec) size st.log).1 })
unfolding omalloc_block
omalloc_block-run k dec size st log sz room ne =
    ap
      (λ p.
        ok p (record st { log = (omalloc (k.malloc st size) k.stamp (some dec) size st.log).1 }))
      (omalloc-live (k.malloc st size) k.stamp dec size log ne sz room).0

is_null-none : (t : Option Text) → t ≡ none → is_null t ≡ true
unfolding is_null
is_null-none t e = rw e refl

is_null-some : (t : Option Text) (s : Text) → t ≡ some s → is_null t ≡ false
unfolding is_null
is_null-some t s e = rw e refl

module _ {W : Type 0} (k : System W) (world : IsSystem k) (opt : Opt) (func : Ptr)
    (desc : Option Text) (st : State W) (xs : Items) where
  item : Item
  item = record { opt = opt; desc = desc; func = func }

  new : Ptr
  new = k.malloc st simple_list_size

  logged : Table
  logged = (omalloc new k.stamp (some "simple list") simple_list_size st.log).1

  stored : State W
  stored = record st { cell = write st.cell new (some (node_of item null)); log = logged }

  -- The list with the new node, once it is linked.
  grown-IsRegistry :
      (c : Cell) (s : Text)
      → IsRegistry st xs
      → opt.name ≡ some s
      → used st.log < memory_allocate_max_times
      → new ≢ 0
      → has new (places xs) ≡ false
      → Chain c null (xs ++ (new, item) ∷ [])
      → IsRegistry
          (record st { head = first_of (xs ++ (new, item) ∷ []) null; cell = c; log = logged })
          (xs ++ (new, item) ∷ [])
  unfolding item logged new
  grown-IsRegistry c s is e room ne out h = record {
    start = refl;
    chain = h;
    apart = rw places-append (distinct-last (places xs) new out is.apart);
    owned = rw places-append (
        Owned-append logged (places xs) ((new, 0) ∷ [])
          (Owned-same st.log logged (places xs) (λ a m l. still a m l) is.owned) (fresh_live, tt));
    log =
        omalloc-IsLog new k.stamp "simple list" simple_list_size is.log
          (world.fresh_log st simple_list_size ne);
    named = Named-append xs ((new, item) ∷ []) is.named ((s, e), tt);
  }
    where
      fresh_live : is_live new logged ≡ true
      fresh_live =
          is_live-omalloc new k.stamp "simple list" simple_list_size new is.log ne ne (omega arith)
            room
          ∙ rw (==_refl new) refl

      still :
          (a : Ptr) → has a (places xs) ≡ true → is_live a st.log ≡ true → is_live a logged ≡ true
      still a m l =
          is_live-omalloc new k.stamp "simple list" simple_list_size a is.log
            (ne_null_of_has a (places xs) (Chain-NonNull st.cell null xs is.chain) m) ne
            (omega arith) room
          ∙ or_right (new == a) (is_live a st.log) l

  -- With a name, a free slot in the log and a block from `malloc`, `opt_reg` returns 0 and the option stands
  -- behind those that were registered, in a block of its own, which takes one slot of the log; nothing is
  -- printed and no function is called.
  pub opt_reg-append :
      (n : ℕ)
      → IsRegistry st xs
      → (s : Text) → opt.name ≡ some s
      → used st.log < memory_allocate_max_times
      → k.malloc st simple_list_size ≢ 0
      → length xs < n
      → Ensures
          (λ r st'.
            (r ≡ pos 0)
            × IsRegistry st' (
                xs
                ++ (k.malloc st simple_list_size, record { opt = opt; desc = desc; func = func })
                  ∷ [])
            × (used st'.log ≡ used st.log + 1)
            × (st'.world ≡ st.world))
          (opt_reg k n opt func desc st)
  unfolding opt_reg new logged stored item
  opt_reg-append n is s e room ne lt =
      let out : has new (places xs) ≡ false =
        not-has_of_none st.cell null new xs (world.fresh_cell st simple_list_size ne) is.chain in
      let a : Appended stored n st.head new xs item =
        append_node-Appended stored n st.head new xs item refl is.start
          (Chain-write st.cell null new (some (node_of item null)) xs out is.chain) is.apart ne
          (write_self st.cell new (some (node_of item null))) out lt in
      rw
        (
          is_null-some opt.name s e,
          omalloc_block-run k "simple list" simple_list_size st is.log (omega arith) room ne,
          ==-false new null ne,
          a.run,
        )
        (
          refl,
          grown-IsRegistry a.cell s is e room ne out a.chain,
          used-omalloc new k.stamp "simple list" simple_list_size is.log ne (omega arith) room,
          refl,
        )

-- Without a name, when `malloc` fails, or when 200 blocks are live, `opt_reg` returns -1 and leaves everything as
-- it is.
pub opt_reg-refuses :
    {W : Type 0} (k : System W) (n : ℕ) (opt : Opt) (func : Ptr) (desc : Option Text) (st : State W)
    → IsLog st.log
    → (opt.name ≡ none)
      ⊎ (k.malloc st simple_list_size ≡ 0)
      ⊎ (used st.log ≡ memory_allocate_max_times)
    → opt_reg k n opt func desc st ≡ ok minus_one st
unfolding opt_reg omalloc_block
opt_reg-refuses k n opt func desc st log (inl e) = rw (is_null-none opt.name e) refl
opt_reg-refuses k n opt func desc st log (inr why) = elim (Bool-cases (is_null opt.name)) [
  | inl e ↦ rw e refl
  | inr e ↦
      let p = k.malloc st simple_list_size in
      let none_left : omalloc p k.stamp (some "simple list") simple_list_size st.log ≡ (0, st.log) =
        omalloc-null p k.stamp "simple list" simple_list_size log (inr why) in
      rw (e, none_left) refl
]
