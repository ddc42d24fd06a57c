-- ===== src/Opt/Exact.antt =====
-- When `opt_run` of linux/src/opt.c calls the function of the very option that `getopt_long` has found.
use mathlib.Core.Path.{fun_ext}
use libjoe.Base.{
  ℕ, zero, suc, ◌*◌, ◌<◌, ◌≡◌, refl, ◌∙◌, ap, ◌≢◌, true, false, Option, some, [], ◌∷◌, List,
  ==_refl, length, get_elem?, ℤ,
}
use libjoe.Mem.{memory_allocate_max_times}
use libjoe.Mem.Live.{used}
use libjoe.Linklist.Store.{Ptr}
use libjoe.Opt.Store.{Text, State, System, strncmp_eq, option_size}
use libjoe.Opt.Functions.{opt_run}
use libjoe.Opt.Rep.{Item, Items, opts_of, Named, IsRegistry, IsSystem}
use libjoe.Opt.Serving.{agrees, pick, choice, item_at, serve}
use libjoe.Opt.Running.{served, opt_run-serve}

-- No name in the list begins with the same 8 characters as that of `i`.
abbrev pub Apart : Item → Items → Type 0
Apart i [] = Unit {0}
Apart i ((p, j) ∷ xs) = (agrees j.opt.name i.opt.name ≡ false) × Apart i xs

abbrev pub DistinctStarts : Items → Type 0
DistinctStarts [] = Unit {0}
DistinctStarts ((p, i) ∷ xs) = Apart i xs × DistinctStarts xs

strncmp_eq_refl : (n : ℕ) (s : Text) → strncmp_eq n s s ≡ true
unfolding strncmp_eq
strncmp_eq_refl zero s = refl
strncmp_eq_refl (suc n) [] = refl
strncmp_eq_refl (suc n) (c ∷ s) = rw (==_refl c) (strncmp_eq_refl n s)

agrees_refl : (t : Option Text) (s : Text) → t ≡ some s → agrees t t ≡ true
unfolding agrees
agrees_refl t s e = rw e (strncmp_eq_refl 8 s)

pick-later :
    (x : Ptr × Item) (xs : Items) (i : ℕ)
    → Apart x.1 xs
    → pick (x ∷ xs) (get_elem? (opts_of xs) i) ≡ pick xs (get_elem? (opts_of xs) i)
unfolding pick
pick-later x xs i a = from xs i xs a
  where
    from :
        (ys : Items) (i : ℕ) (zs : Items)
        → Apart x.1 ys
        → pick (x ∷ zs) (get_elem? (opts_of ys) i) ≡ pick zs (get_elem? (opts_of ys) i)
    from [] i zs a = refl
    from ((p, y) ∷ ys) zero zs (e, a) = rw e refl
    from ((p, y) ∷ ys) (suc i) zs (e, a) = from ys i zs a

choice-item_at : (xs : Items) (i : ℕ) → Named xs → DistinctStarts xs → choice xs i ≡ item_at xs i
unfolding pick item_at
choice-item_at [] i nm d = refl
choice-item_at ((p, x) ∷ xs) zero ((s, e), nm) (a, d) = rw (agrees_refl x.opt.name s e) refl
choice-item_at ((p, x) ∷ xs) (suc i) (s, nm) (a, d) =
    pick-later (p, x) xs i a ∙ choice-item_at xs i nm d

module _ {W : Type 0} (k : System W) (world : IsSystem k) (n : ℕ) (argc : ℤ) (argv : List Text)
    (st : State W) (x : Ptr × Item) (xs : Items) where
  -- When no two of the registered names begin with the same 8 characters, and with an option registered, a free
  -- slot in the log, a block from `malloc`, and more rounds for the loops over the list than options: if a call
  -- of `getopt_long` reads past the array, in which no entry marks the end, before it has answered -1,
  -- `opt_run` is a fault, and if -1 is not answered within the rounds, `opt_run` does not end within them.
  -- Otherwise it returns 0 and has called, for each option that `getopt_long` finds up to its answer -1, the
  -- function of that very option. The options and the log are as before.
  pub opt_run-exact :
      (rounds : ℕ)
      → IsRegistry st (x ∷ xs)
      → DistinctStarts (x ∷ xs)
      → length (x ∷ xs) < n
      → used st.log < memory_allocate_max_times
      → k.malloc st (option_size * length (x ∷ xs)) ≢ 0
      → opt_run k n argc argv rounds st
        ≡ served st (serve k argc argv (opts_of (x ∷ xs)) (item_at (x ∷ xs)) rounds 0 st.world)
  opt_run-exact rounds is d lt room ne =
      let same : choice (x ∷ xs) ≡ item_at (x ∷ xs) =
        fun_ext (λ i. choice-item_at (x ∷ xs) i is.named d) in
      opt_run-serve k world n argc argv st x xs rounds is lt room ne
      ∙ ap (λ f. served st (serve k argc argv (opts_of (x ∷ xs)) f rounds 0 st.world)) same
