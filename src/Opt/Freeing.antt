-- ===== src/Opt/Freeing.antt =====
-- `opt_free` of linux/src/opt.c, and what the list is good for afterwards.
use mathlib.Core.Path.{subst}
use libjoe.Base.{
  ℕ, zero, suc, ◌<◌, ◌≡◌, refl, ◌∙◌, sym, ◌≢◌, ◌⊎◌, inl, inr, ap, ==_iff, true, false, not, ◌&&◌,
  none, List, [], ◌∷◌, arith, ◌==◌, ==_refl, ==-false, ==-sym_false, if◌then◌else◌, length, ℤ, pos,
  ok, fault, pure, ◌>>=◌, Ensures, Ensures-and_then, Ensures-weaken, Bool-cases,
}
use libjoe.Mem.{ofree}
use libjoe.Mem.Live.{is_live, IsLog}
use libjoe.Mem.Log.{ofree-live, ofree-IsLog}
use libjoe.Linklist.Store.{Ptr, null}
use libjoe.Linklist.Chain.{
  Cells, not-has-cons, ne_of_has, has, distinct, NonNull, Owned, Owned-same, ne_null_of_has,
  distinct-cons,
}
use libjoe.Opt.Store.{Cmd, Text, write, State, System}
use libjoe.Opt.Functions.{load, len_loop, opt_len, ofree_simple_list, free_loop, opt_free, opt_run}
use libjoe.Opt.Appending.{write_self, write_other}
use libjoe.Opt.Rep.{
  Item, Items, node_of, first_of, places, Chain, IsRegistry, Chain-write, Chain-NonNull, load-first,
}

-- `ofree` of a live block.
pub ofree_simple_list-run :
    {W : Type 0} (p : Ptr) (st : State W)
    → p ≢ 0
    → is_live p st.log ≡ true
    → ofree_simple_list p st
      ≡ ok (pos 0) (record st { cell = write st.cell p none; log = (ofree p st.log).1 })
unfolding ofree_simple_list
ofree_simple_list-run p st ne l = rw (ofree-live p st.log ne l).0 refl

has-cons_cases : (a p : Ptr) (zs : Cells) → has a ((p, 0) ∷ zs) ≡ true → (a ≡ p) ⊎ (has a zs ≡ true)
has-cons_cases a p zs h = elim (Bool-cases (a == p)) [
  | inl e ↦ inl ((==_iff a p).0 e)
  | inr e ↦ inr (rw e at h)
]

-- The nodes `xs` are gone from memory and from the log; no other block of the log is touched.
pub record Freed {W : Type 0} (st : State W) (xs : Items) (st' : State W) : Type 0 where
  pub gone : (a : Ptr) → has a (places xs) ≡ true → st'.cell a ≡ none
  pub dead : (a : Ptr) → has a (places xs) ≡ true → is_live a st'.log ≡ false
  pub kept : (a : Ptr) → a ≢ null → has a (places xs) ≡ false → is_live a st'.log ≡ is_live a st.log
  pub cells : (a : Ptr) → has a (places xs) ≡ false → st'.cell a ≡ st.cell a
  pub log : IsLog st'.log
  pub head : st'.head ≡ st.head
  pub world : st'.world ≡ st.world

module _ {W : Type 0} where
  -- One round: the state without the node `p`.
  without : Ptr → State W → State W
  without p st = record st { cell = write st.cell p none; log = (ofree p st.log).1 }

  Freed-cons :
      (st : State W) (p : Ptr) (i : Item) (xs : Items) (st' : State W)
      → p ≢ null
      → IsLog st.log
      → has p (places xs) ≡ false
      → NonNull (places xs)
      → Freed (without p st) xs st'
      → Freed st ((p, i) ∷ xs) st'
  unfolding without
  Freed-cons st p i xs st' ne log out nn f = record {
    gone = λ a m. elim (has-cons_cases a p (places xs) m) [
      | inl e ↦ rw e (f.cells p out ∙ write_self st.cell p none)
      | inr m' ↦ f.gone a m'
    ];
    dead = λ a m. elim (has-cons_cases a p (places xs) m) [
      | inl e ↦ rw e (
          f.kept p ne out
          ∙ (ofree-IsLog p p ne log).1
          ∙ ap (λ b. not b && is_live p st.log) (==_refl p))
      | inr m' ↦ f.dead a m'
    ];
    kept = λ a na m.
        let (apart, m') = not-has-cons a p 0 (places xs) m in
        f.kept a na m'
        ∙ (ofree-IsLog p a na log).1
        ∙ ap (λ b. not b && is_live a st.log) (==-sym_false a p apart);
    cells = λ a m.
        let (apart, m') = not-has-cons a p 0 (places xs) m in
        f.cells a m' ∙ write_other st.cell a p none apart;
    log = f.log;
    head = f.head;
    world = f.world;
  }

  Owned-without :
      (st : State W) (p : Ptr) (xs : Items)
      → IsLog st.log
      → has p (places xs) ≡ false
      → NonNull (places xs)
      → Owned st.log (places xs)
      → Owned (ofree p st.log).1 (places xs)
  Owned-without st p xs log out nn o =
      Owned-same st.log (ofree p st.log).1 (places xs)
        (λ a m l.
          (ofree-IsLog p a (ne_null_of_has a (places xs) nn m) log).1
          ∙ rw (ne_of_has p a (places xs) out m) l)
        o

  Freed-nil : (st : State W) → IsLog st.log → Freed st [] st
  Freed-nil st log = record {
    gone = λ a m. cc;
    dead = λ a m. cc;
    kept = λ a ne m. refl;
    cells = λ a m. refl;
    log = log;
    head = refl;
    world = refl;
  }

  free_loop-Freed :
      (n : ℕ) (xs : Items) (st : State W)
      → Chain st.cell null xs
      → distinct (places xs) ≡ true
      → Owned st.log (places xs)
      → IsLog st.log
      → length xs < n
      → Ensures (λ r st'. Freed st xs st') (free_loop n (first_of xs null) st)
  unfolding free_loop without
  free_loop-Freed zero xs st h d o log lt = absurd (omega arith)
  free_loop-Freed (suc n) [] st h d o log lt = Freed-nil st log
  free_loop-Freed (suc n) ((p, i) ∷ xs) st (ne, e, h) d (l, o) log lt =
      let (out, d') = distinct-cons p 0 (places xs) d in
      let nn = Chain-NonNull st.cell null xs h in
      rw
        (
          ==-false p null ne,
          load-first st p (node_of i (first_of xs null)) ne e,
          ofree_simple_list-run p st ne l,
        )
        (Ensures-weaken _ _ (free_loop n (first_of xs null) (without p st))
          (free_loop-Freed n xs (without p st) (Chain-write st.cell null p none xs out h) d'
            (Owned-without st p xs log out nn o) (ofree-IsLog p 1 (omega arith) log).0
            (omega arith))
          (λ r st' f. Freed-cons st p i xs st' ne log out nn f))

  free-from :
      (n : ℕ) (h : Ptr) (xs : Items) (st : State W)
      → h ≡ first_of xs null
      → IsRegistry st xs
      → length xs < n
      → Ensures
          (λ r st'. (r ≡ pos 0) × Freed st xs st')
          (if◌then◌else◌ {A = Cmd W ℤ}
            (h == null)
            (pure (pos 0))
            (free_loop n h >>= λ _. pure (pos 0))
            st)
  free-from n h [] st e is lt = rw e (refl, Freed-nil st is.log)
  free-from n h ((p, i) ∷ xs) st e is lt =
      rw (e, ==-false p null is.chain.0)
        (Ensures-and_then _ _ (free_loop n p st) (λ r. pure (pos 0))
          (free_loop-Freed n ((p, i) ∷ xs) st is.chain is.apart is.owned is.log lt)
          (λ r st' f. (refl, f)))

  -- `opt_free` returns 0, and every option is gone from memory and from the log of mem.c, with no other block
  -- touched; but `head` keeps its value.
  pub opt_free-Freed :
      (n : ℕ) (st : State W) (xs : Items)
      → IsRegistry st xs
      → length xs < n
      → Ensures (λ r st'. (r ≡ pos 0) × Freed st xs st') (opt_free n st)
  unfolding opt_free
  opt_free-Freed n st xs is lt = free-from n st.head xs st is.start is lt

  load-dangling : (h : Ptr) (st : State W) → h ≢ null → st.cell h ≡ none → load h st ≡ fault
  unfolding load
  load-dangling h st ne e = rw (==-false h null ne, e) refl

  -- A loop over the list reads the node at `head`.
  len_from-dangling :
      (n : ℕ) (h : Ptr) (st : State W)
      → h ≢ null
      → st.cell h ≡ none
      → (if◌then◌else◌ {A = Cmd W ℕ} (h == null) (pure 0) (len_loop (suc n) h 0) st) ≡ fault
  unfolding len_loop
  len_from-dangling n h st ne e = rw (==-false h null ne, load-dangling h st ne e) refl

  run-dangling :
      (k : System W) (n rounds : ℕ) (argc : ℤ) (argv : List Text) (st : State W)
      → st.head ≢ null
      → st.cell st.head ≡ none
      → opt_run k (suc n) argc argv rounds st ≡ fault
  unfolding opt_run opt_len
  run-dangling k n rounds argc argv st ne e =
      rw (==-false st.head null ne, len_from-dangling n st.head st ne e) refl

  -- On a list with at least one option `opt_free` returns 0, and every option is gone from memory and from the
  -- log of mem.c, with no other block touched; but `opt_run` then reads freed memory, on every system and every
  -- command line.
  pub opt_run-opt_free :
      (k : System W) (n rounds : ℕ) (argc : ℤ) (argv : List Text) (st : State W) (x : Ptr × Item)
      (xs : Items)
      → IsRegistry st (x ∷ xs)
      → length (x ∷ xs) < suc n
      → Ensures
          (λ r st'.
            (r ≡ pos 0) × Freed st (x ∷ xs) st' × (opt_run k (suc n) argc argv rounds st' ≡ fault))
          (opt_free (suc n) st)
  opt_run-opt_free k n rounds argc argv st (p, i) xs is lt =
      Ensures-weaken _ _ (opt_free (suc n) st) (opt_free-Freed (suc n) st ((p, i) ∷ xs) is lt)
        (λ r st' f.
          let e : st'.head ≡ p = f.1.head ∙ is.start in
          (
            f.0,
            f.1,
            run-dangling k n rounds argc argv st' (subst (λ a. a ≢ null) (sym e) is.chain.0)
                (ap st'.cell e ∙ f.1.gone p (rw (==_refl p) refl)),
          ))
