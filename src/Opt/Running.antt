-- ===== src/Opt/Running.antt =====
-- `opt_run` of linux/src/opt.c as a whole.
use mathlib.Core.Path.{fun_ext, subst}
use libjoe.Base.{
  minus_one, ℕ, ◌*◌, ◌<◌, ◌≡◌, refl, ◌∙◌, ap, sym, ◌≢◌, inl, inr, false, none, some, List, ◌∷◌,
  arith, ◌==◌, ==_iff, ==-false, length, ℤ, pos, ok, Bool-cases, Run, fault, out_of_fuel, and_then,
  pure, ◌>>◌,
}
use libjoe.Mem.{Table, memory_allocate_max_times, omalloc}
use libjoe.Mem.Live.{used}
use libjoe.Mem.Log.{ofree-omalloc, omalloc-null}
use libjoe.Linklist.Store.{Ptr, null}
use libjoe.Opt.Store.{Text, Cell, write, State, System, option_size}
use libjoe.Opt.Functions.{copy_loop, opt_run, omalloc_block, ofree_simple_list}
use libjoe.Opt.Rep.{Item, Items, first_of, opts_of, Chain, IsRegistry, IsSystem}
use libjoe.Opt.Appending.{opt_len-length}
use libjoe.Opt.Registering.{omalloc_block-run}
use libjoe.Opt.Serving.{left, choice, serve, copy_loop-opts_of, getopt_loop-serve}

write-none : (c : Cell) (p : Ptr) → c p ≡ none → write c p none ≡ c
unfolding write
write-none c p e = fun_ext (λ a. elim (Bool-cases (a == p)) [
  | inl y ↦ rw y (sym (ap c ((==_iff a p).0 y) ∙ e))
  | inr z ↦ rw z refl
])

-- What `opt_run` returns: 0, unless the answers of `getopt_long` end in a fault or do not end.
abbrev pub served : {W : Type 0} → State W → Run W (Unit {0}) → Run (State W) ℤ
served st (ok u w) = ok (pos 0) (record st { world = w })
served st fault = fault
served st out_of_fuel = out_of_fuel

module _ {W : Type 0} (k : System W) (world : IsSystem k) (n : ℕ) (argc : ℤ) (argv : List Text)
    (st : State W) (xs : Items) where
  size : ℕ
  size = option_size * length xs

  free_array :
      (w : W)
      → IsRegistry st xs
      → used st.log < memory_allocate_max_times
      → size ≢ 0
      → k.malloc st size ≢ 0
      → ofree_simple_list (k.malloc st size) (record st {
        log = (omalloc (k.malloc st size) k.stamp (some "option list") size st.log).1;
        world = w;
      })
        ≡ ok (pos 0) (record st { world = w })
  unfolding ofree_simple_list
  free_array w is room sz ne =
      let back =
        ofree-omalloc (k.malloc st size) k.stamp "option list" size is.log ne sz room
          (world.fresh_log st size ne) in
      let cells = write-none st.cell (k.malloc st size) (world.fresh_cell st size ne) in
      rw (back, cells) refl

  copy-from :
      (l : Table) (a : Ptr)
      → a ≡ first_of xs null
      → Chain st.cell null xs
      → length xs < n
      → copy_loop n (length xs) a (record st { log = l }) ≡ ok (opts_of xs) (record st { log = l })
  copy-from l a e h lt = rw e (copy_loop-opts_of k n xs (record st { log = l }) h lt)

  -- The block of the array is given back when the loop ends.
  finish :
      (r : Run W (Unit {0}))
      → IsRegistry st xs
      → used st.log < memory_allocate_max_times
      → size ≢ 0
      → k.malloc st size ≢ 0
      → and_then
          (left
            (record st {
              log = (omalloc (k.malloc st size) k.stamp (some "option list") size st.log).1;
            })
            r)
          (λ u. do ofree_simple_list (k.malloc st size); pure (pos 0))
        ≡ served st r
  finish (ok u w) is room sz ne = rw (free_array w is room sz ne) refl
  finish fault is room sz ne = refl
  finish out_of_fuel is room sz ne = refl

  run-filled :
      (rounds : ℕ)
      → IsRegistry st xs
      → (st.head == null) ≡ false
      → size ≢ 0
      → length xs < n
      → used st.log < memory_allocate_max_times
      → k.malloc st size ≢ 0
      → opt_run k n argc argv rounds st
        ≡ served st (serve k argc argv (opts_of xs) (choice xs) rounds 0 st.world)
  unfolding opt_run size
  run-filled rounds is filled sz lt room ne =
      let p = k.malloc st size in
      let l : Table = (omalloc p k.stamp (some "option list") size st.log).1 in
      rw
        (
          filled,
          opt_len-length st n xs is lt,
          omalloc_block-run k "option list" size st is.log sz room ne,
          ==-false p null ne,
          copy-from l st.head is.start is.chain lt,
          getopt_loop-serve k world n argc argv xs (record st { log = l }) is.chain is.start
              is.named lt rounds 0 st.world,
        )
        (finish (serve k argc argv (opts_of xs) (choice xs) rounds 0 st.world) is room sz ne)

module _ {W : Type 0} (k : System W) (world : IsSystem k) (n : ℕ) (argc : ℤ) (argv : List Text)
    (st : State W) (x : Ptr × Item) (xs : Items) where
  -- With an option registered, a free slot in the log, a block from `malloc`, and more rounds for the loops
  -- over the list than options: if a call of `getopt_long` reads past the array, in which no entry marks the
  -- end, before it has answered -1, `opt_run` is a fault, and if -1 is not answered within the rounds,
  -- `opt_run` does not end within them. Otherwise it returns 0 and has called, for each option that
  -- `getopt_long` finds up to its answer -1, the function of the first option registered whose name begins with
  -- the same 8 characters. The options and the log are as before.
  pub opt_run-serve :
      (rounds : ℕ)
      → IsRegistry st (x ∷ xs)
      → length (x ∷ xs) < n
      → used st.log < memory_allocate_max_times
      → k.malloc st (option_size * length (x ∷ xs)) ≢ 0
      → opt_run k n argc argv rounds st
        ≡ served st (serve k argc argv (opts_of (x ∷ xs)) (choice (x ∷ xs)) rounds 0 st.world)
  unfolding size
  opt_run-serve rounds is lt room ne =
      run-filled k world n argc argv st (x ∷ xs) rounds is
        (==-false st.head null (subst (λ a. a ≢ null) (sym is.start) is.chain.0)) (omega arith) lt
        room ne

  -- When `malloc` fails, `opt_run` returns -1 and leaves everything as it is.
  pub opt_run-null :
      (rounds : ℕ)
      → IsRegistry st (x ∷ xs)
      → length (x ∷ xs) < n
      → k.malloc st (option_size * length (x ∷ xs)) ≡ 0
      → opt_run k n argc argv rounds st ≡ ok minus_one st
  unfolding opt_run omalloc_block
  opt_run-null rounds is lt failed =
      let size = option_size * length (x ∷ xs) in
      let none_left : omalloc (k.malloc st size) k.stamp (some "option list") size st.log
          ≡ (0, st.log) =
        omalloc-null (k.malloc st size) k.stamp "option list" size is.log (inr (inl failed)) in
      rw
        (
          ==-false st.head null (subst (λ a. a ≢ null) (sym is.start) is.chain.0),
          opt_len-length st n (x ∷ xs) is lt,
          none_left,
        )
        refl
