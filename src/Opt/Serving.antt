-- ===== src/Opt/Serving.antt =====
-- The loops of `opt_run` of linux/src/opt.c against what they are for: to call the function of each option
-- that `getopt_long` finds.
use libjoe.Base.{
  ℕ, zero, suc, ◌<◌, ◌≡◌, refl, ◌∙◌, ap, sym, inl, inr, Bool, false, Option, none, some, List, [],
  ◌∷◌, arith, ◌==◌, ==-false, if◌then◌else◌, length, get_elem?, ℤ, pos, minus_one, eq_ℤ, eq_ℤ_iff,
  Run, ok, fault, out_of_fuel, Bool-cases,
}
use libjoe.Linklist.Store.{Ptr, null}
use libjoe.Opt.Store.{Text, Opt, State, System, Found, strncmp_eq, name_size}
use libjoe.Opt.Functions.{same_name, run_func, select_loop, copy_loop, getopt_loop}
use libjoe.Opt.Rep.{Item, Items, node_of, first_of, opts_of, Chain, Named, IsSystem, load-first}

-- The two names begin with the same 8 characters, or are the same.
unfoldable pub agrees : Option Text → Option Text → Bool
agrees (some s) (some t) = strncmp_eq name_size s t
agrees (some s) none = false
agrees none t = false

-- The first option whose name agrees with that of `o`.
unfoldable pub chosen : Opt → Items → Option Item
chosen o [] = none
chosen o ((p, i) ∷ xs) = if agrees o.name i.opt.name then some i else chosen o xs

unfoldable pub pick : Items → Option Opt → Option Item
unfolding chosen
pick xs none = none
pick xs (some o) = chosen o xs

-- The option of which `opt_run` calls the function when `getopt_long` has found the one at a place.
abbrev pub choice : Items → ℕ → Option Item
choice xs i = pick xs (get_elem? (opts_of xs) i)

-- The option at a place.
unfoldable pub item_at : Items → ℕ → Option Item
item_at [] i = none
item_at ((p, x) ∷ xs) zero = some x
item_at ((p, x) ∷ xs) (suc i) = item_at xs i

-- The options and the log as they are, with the world that is left.
abbrev pub left : {W : Type 0} → State W → Run W (Unit {0}) → Run (State W) (Unit {0})
left st (ok u w) = ok u (record st { world = w })
left st fault = fault
left st out_of_fuel = out_of_fuel

module _ {W : Type 0} (k : System W) where
  -- The function of an option is called, if it has one.
  unfoldable pub invoke : Option Text → Option Item → W → W
  invoke arg none w = w
  invoke arg (some i) w = if i.func == null then w else (k.run i.func arg w).1

  module _ (argc : ℤ) (argv : List Text) (opts : List Opt) (choose : ℕ → Option Item) where
    -- What becomes of the world after an answer of `getopt_long`: -1 is the end, an option that it finds has its
    -- function called, and what it does not know is passed over.
    abbrev pub after_answer :
        (again : ℕ → W → Run W (Unit {0})) → Option (Found × W) → Run W (Unit {0})
    after_answer again none = fault
    after_answer again (some (f, w')) =
        if eq_ℤ f.result minus_one
        then ok tt w'
        else again f.idx (if eq_ℤ f.result (pos 0) then invoke f.optarg (choose f.idx) w' else w')

    -- The answers of `getopt_long`, within a number of calls; a fault where a call reads past the array.
    unfoldable pub serve : (rounds : ℕ) → (opt_idx : ℕ) → W → Run W (Unit {0})
    unfolding invoke
    serve zero i w = out_of_fuel
    serve (suc rounds) i w = after_answer (serve rounds) (k.getopt_long argc argv opts i w)

  invoke-none : (arg : Option Text) (w : W) → invoke arg none w ≡ w
  unfolding invoke
  invoke-none arg w = refl

  run_func-invoke :
      (p : Ptr) (i : Item) (arg : Option Text) (st : State W)
      → run_func k (node_of i p) arg st ≡ ok tt (record st { world = invoke arg (some i) st.world })
  unfolding invoke
  run_func-invoke p i arg st = elim (Bool-cases (i.func == null)) [
    | inl e ↦ rw e refl
    | inr e ↦ rw e refl
  ]

  same_name-agrees :
      (a b : Option Text) (s t : Text) (st : State W)
      → a ≡ some s
      → b ≡ some t
      → same_name a b st ≡ ok (agrees a b) st
  unfolding same_name agrees
  same_name-agrees a b s t st e q = rw (e, q) refl

  select_loop-chosen :
      (n : ℕ) (opts : List Opt) (f : Found) (o : Opt) (s : Text) (xs : Items) (st : State W)
      → get_elem? opts f.idx ≡ some o
      → o.name ≡ some s
      → Chain st.cell null xs
      → Named xs
      → length xs < n
      → select_loop k n opts f (first_of xs null) st
        ≡ ok tt (record st { world = invoke f.optarg (chosen o xs) st.world })
  unfolding select_loop chosen
  select_loop-chosen zero opts f o s xs st g e h nm lt = absurd (omega arith)
  select_loop-chosen (suc n) opts f o s [] st g e h nm lt =
      ap (λ w. ok tt (record st { world = w })) (sym (invoke-none f.optarg st.world))
  select_loop-chosen (suc n) opts f o s ((p, i) ∷ xs) st g e (ne, q, h) ((t, et), nm) lt =
      rw
        (
          ==-false p null ne,
          load-first st p (node_of i (first_of xs null)) ne q,
          g,
          same_name-agrees o.name i.opt.name s t st e et,
        )
        (elim (Bool-cases (agrees o.name i.opt.name)) [
          | inl y ↦ rw y (run_func-invoke (first_of xs null) i f.optarg st)
          | inr z ↦ rw z (select_loop-chosen n opts f o s xs st g e h nm (omega arith))
        ])

  pub copy_loop-opts_of :
      (n : ℕ) (xs : Items) (st : State W)
      → Chain st.cell null xs
      → length xs < n
      → copy_loop n (length xs) (first_of xs null) st ≡ ok (opts_of xs) st
  unfolding copy_loop
  copy_loop-opts_of zero xs st h lt = absurd (omega arith)
  copy_loop-opts_of (suc n) [] st h lt = refl
  copy_loop-opts_of (suc n) ((p, i) ∷ xs) st (ne, q, h) lt =
      rw
        (
          ==-false p null ne,
          load-first st p (node_of i (first_of xs null)) ne q,
          copy_loop-opts_of n xs st h (omega arith),
        )
        refl

  -- A place in the array holds an option with a name.
  opts_of-Named :
      (xs : Items) (i : ℕ)
      → Named xs
      → i < length (opts_of xs)
      → (o : Opt) × (get_elem? (opts_of xs) i ≡ some o) × ((s : Text) × (o.name ≡ some s))
  opts_of-Named [] i nm lt = absurd (omega arith)
  opts_of-Named ((p, x) ∷ xs) zero (s, nm) lt = (x.opt, refl, s)
  opts_of-Named ((p, x) ∷ xs) (suc i) (s, nm) lt = opts_of-Named xs i nm (omega arith)

  -- The search for the option that `getopt_long` has found, at a place in the array.
  select_loop-pick :
      (n : ℕ) (f : Found) (xs : Items) (st : State W)
      → f.idx < length (opts_of xs)
      → Chain st.cell null xs
      → Named xs
      → length xs < n
      → select_loop k n (opts_of xs) f (first_of xs null) st
        ≡ ok tt (record st {
          world = invoke f.optarg (pick xs (get_elem? (opts_of xs) f.idx)) st.world;
        })
  unfolding pick
  select_loop-pick n f xs st lt h nm fuel =
      let (o, g, name) = opts_of-Named xs f.idx nm lt in
      select_loop-chosen n (opts_of xs) f o name.0 xs st g name.1 h nm fuel
      ∙ ap (λ r. ok tt (record st { world = invoke f.optarg (pick xs r) st.world })) (sym g)

  module _ (world : IsSystem k) (n : ℕ) (argc : ℤ) (argv : List Text) (xs : Items) (st : State W)
      (h : Chain st.cell null xs) (head : st.head ≡ first_of xs null) (nm : Named xs)
      (fuel : length xs < n) where
    select_head :
        (f : Found) (w : W) (a : Ptr)
        → a ≡ first_of xs null
        → f.result ≡ pos 0
        → f.idx < length (opts_of xs)
        → select_loop k n (opts_of xs) f a (record st { world = w })
          ≡ ok tt (record st { world = invoke f.optarg (choice xs f.idx) w })
    select_head f w a e z lt = rw e (select_loop-pick n f xs (record st { world = w }) lt h nm fuel)

    -- One round of the loop, for each answer of `getopt_long`.
    round-serve :
        (rounds i : ℕ) (w : W) (o : Option (Found × W))
        → k.getopt_long argc argv (opts_of xs) i w ≡ o
        → ((j : ℕ) (v : W)
            → getopt_loop k n argc argv rounds (opts_of xs) j (record st { world = v })
              ≡ left st (serve argc argv (opts_of xs) (choice xs) rounds j v))
        → getopt_loop k n argc argv (suc rounds) (opts_of xs) i (record st { world = w })
          ≡ left st (serve argc argv (opts_of xs) (choice xs) (suc rounds) i w)
    unfolding getopt_loop serve
    round-serve rounds i w none e again = rw e refl
    round-serve rounds i w (some (f, u)) e again = elim (Bool-cases (eq_ℤ f.result minus_one)) [
      | inl done ↦ rw (e, done) refl
      | inr more ↦ elim (Bool-cases (eq_ℤ f.result (pos 0))) [
        | inl found ↦
            let z : f.result ≡ pos 0 = (eq_ℤ_iff f.result (pos 0)).0 found in
            rw
              (
                e,
                more,
                found,
                select_head f u st.head head z (world.index argc argv (opts_of xs) i w f u e z),
              )
              (again f.idx (invoke f.optarg (choice xs f.idx) u))
        | inr other ↦ rw (e, more, other) (again f.idx u)
      ]
    ]

    pub getopt_loop-serve :
        (rounds i : ℕ) (w : W)
        → getopt_loop k n argc argv rounds (opts_of xs) i (record st { world = w })
          ≡ left st (serve argc argv (opts_of xs) (choice xs) rounds i w)
    unfolding getopt_loop serve
    getopt_loop-serve zero i w = refl
    getopt_loop-serve (suc rounds) i w =
        round-serve rounds i w (k.getopt_long argc argv (opts_of xs) i w) refl
          (getopt_loop-serve rounds)
