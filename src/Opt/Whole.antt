-- ===== src/Opt/Whole.antt =====
-- `opt_reg` and `opt_run` of linux/src/opt.c one after the other.
use mathlib.Core.Path.{subst}
use native.Mathlib.Decide.{ℕ_discrete}
use libjoe.Base.{
  ℕ, ◌+◌, ◌*◌, ◌<◌, ◌≡◌, refl, sym, ap, ◌∙◌, ◌≢◌, Option, some, List, [], ◌∷◌, ◌++◌, arith, ℤ, pos,
  minus_one, ◌⊎◌, inl, inr, length, length-append, ok, and_then, Ensures, Ensures-and_then,
}
use libjoe.Mem.{memory_allocate_max_times}
use libjoe.Mem.Live.{used}
use libjoe.Linklist.Store.{Ptr}
use libjoe.Opt.Store.{Text, Opt, State, System, simple_list_size, option_size}
use libjoe.Opt.Functions.{opt_reg, opt_run}
use libjoe.Opt.Rep.{Items, opts_of, IsRegistry, IsSystem}
use libjoe.Opt.Registering.{opt_reg-append}
use libjoe.Opt.Serving.{item_at, serve}
use libjoe.Opt.Running.{opt_run-null}
use libjoe.Opt.Exact.{DistinctStarts, opt_run-exact}

-- What `opt_run` leaves: the options, and the world after the calls if there is memory for the array.
abbrev pub Ran : {W : Type 0} → Items → (before after : W) → ℤ → State W → Type 0
Ran xs before after r st' =
    IsRegistry st' xs
    × (((r ≡ pos 0) × (st'.world ≡ after)) ⊎ ((r ≡ minus_one) × (st'.world ≡ before)))

module _ {W : Type 0} (k : System W) (world : IsSystem k) (n : ℕ) (argc : ℤ) (argv : List Text)
    (rounds : ℕ) where
  run :
      (xs : Items) (st : State W) (w w' : W)
      → 0 < length xs
      → IsRegistry st xs
      → DistinctStarts xs
      → length xs < n
      → used st.log < memory_allocate_max_times
      → st.world ≡ w
      → serve k argc argv (opts_of xs) (item_at xs) rounds 0 w ≡ ok tt w'
      → Ensures (Ran xs w w') (opt_run k n argc argv rounds st)
  run [] st w w' some_item is d lt room here served = absurd (omega arith)
  run (x ∷ xs) st w w' some_item is d lt room here served =
      let there : serve k argc argv (opts_of (x ∷ xs)) (item_at (x ∷ xs)) rounds 0 st.world
          ≡ ok tt w' =
        ap (λ v. serve k argc argv (opts_of (x ∷ xs)) (item_at (x ∷ xs)) rounds 0 v) here
        ∙ served in
      elim (ℕ_discrete (k.malloc st (option_size * length (x ∷ xs))) 0) [
        | yes failed ↦
            rw (opt_run-null k world n argc argv st x xs rounds is lt failed) (is, inr (refl, here))
        | no given ↦
            rw (opt_run-exact k world n argc argv st x xs rounds is d lt room given, there)
              (unmoved st w' is, inl (refl, refl))
      ]
    where
      unmoved :
          (st : State W) (w' : W)
          → IsRegistry st (x ∷ xs)
          → IsRegistry (record st { world = w' }) (x ∷ xs)
      unmoved st w' is = record {
        start = is.start;
        chain = is.chain;
        apart = is.apart;
        owned = is.owned;
        log = is.log;
        named = is.named;
      }

  -- When an option with a name is registered behind others, with two free slots in the log and a block from
  -- `malloc`, where no two names begin with the same 8 characters, and `opt_run` is called then, on a command
  -- line for which no call of `getopt_long` reads past the array, in which no entry marks the end, and -1 is
  -- answered within the rounds, and there are more rounds for the loops over the list than options, the options
  -- are those with the new one behind, and either `opt_run` returns 0 and has called the function of each
  -- option that `getopt_long` finds up to its answer -1, the new one among them, or it returns -1 and has
  -- called none.
  pub opt_run-opt_reg :
      (xs : Items) (opt : Opt) (func : Ptr) (desc : Option Text) (s : Text) (st : State W) (w' : W)
      (all : Items)
      → all
        ≡ xs ++ (k.malloc st simple_list_size, record { opt = opt; desc = desc; func = func }) ∷ []
      → IsRegistry st xs
      → opt.name ≡ some s
      → used st.log + 1 < memory_allocate_max_times
      → k.malloc st simple_list_size ≢ 0
      → length all < n
      → DistinctStarts all
      → serve k argc argv (opts_of all) (item_at all) rounds 0 st.world ≡ ok tt w'
      → Ensures
          (Ran all st.world w')
          (and_then (opt_reg k n opt func desc st) (λ r. opt_run k n argc argv rounds))
  opt_run-opt_reg xs opt func desc s st w' all grown is e room ne lt d served =
      let new : Items =
        (k.malloc st simple_list_size, record { opt = opt; desc = desc; func = func }) ∷ [] in
      let size : length all ≡ length xs + 1 =
        ap (λ (l : Items). length l) grown ∙ length-append xs new in
      Ensures-and_then _ _ (opt_reg k n opt func desc st) (λ r. opt_run k n argc argv rounds)
        (opt_reg-append k world opt func desc st xs n is s e (omega arith) ne (omega (arith, size)))
        (λ r st' (z, is', more, same).
          run all st' st.world w' (omega (arith, size)) (subst (IsRegistry st') (sym grown) is') d
            lt (omega (arith, more)) same served)
