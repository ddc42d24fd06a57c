-- ===== src/Opt/Rep.antt =====
-- When the list of linux/src/opt.c stands for a sequence of registered options.
use libjoe.Base.{
  ℕ, ◌≤◌, ◌<◌, ◌≡◌, refl, ◌∙◌, ap, sym, ◌≢◌, true, false, Option, none, some, List, [], ◌∷◌, ◌++◌,
  arith, ==-false, length, Run, ℤ, pos,
}
use libjoe.Mem.{memory_allocate_max_times}
use libjoe.Mem.Live.{IsLog, used-le-length, is_live}
use libjoe.Linklist.Store.{Ptr, null}
use libjoe.Linklist.Chain.{Cells, has, distinct, NonNull, Owned, length-le-used}
use libjoe.Opt.Store.{Text, Opt, Node, Cell, write, State, Found, System}
use libjoe.Opt.Functions.{load}

-- What `opt_reg` is given.
pub record Item : Type 0 where
  pub opt : Opt
  pub desc : Option Text
  pub func : Ptr

abbrev pub Items : Type 0
Items = List (Ptr × Item)

abbrev pub node_of : Item → Ptr → Node
node_of i q = record { opt = i.opt; desc = i.desc; func = i.func; next = q }

-- The first address, or `n` where there is no node.
abbrev pub first_of : Items → Ptr → Ptr
first_of [] n = n
first_of ((p, i) ∷ xs) n = p

-- The addresses, as the addresses of a list of linklist.c.
abbrev pub places : Items → Cells
places [] = []
places ((p, i) ∷ xs) = (p, 0) ∷ places xs

abbrev pub opts_of : Items → List Opt
opts_of [] = []
opts_of ((p, i) ∷ xs) = i.opt ∷ opts_of xs

-- The nodes `xs` are linked, with `n` behind the last one.
abbrev pub Chain : Cell → Ptr → Items → Type 0
Chain c n [] = Unit {0}
Chain c n ((p, i) ∷ xs) = (p ≢ null) × (c p ≡ some (node_of i (first_of xs n))) × Chain c n xs

abbrev pub Named : Items → Type 0
Named [] = Unit {0}
Named ((p, i) ∷ xs) = ((s : Text) × (i.opt.name ≡ some s)) × Named xs

-- `head` leads to the options `xs`, in distinct live blocks of the log; each has a name.
pub record IsRegistry {W : Type 0} (st : State W) (xs : Items) : Type 0 where
  pub start : st.head ≡ first_of xs null
  pub chain : Chain st.cell null xs
  pub apart : distinct (places xs) ≡ true
  pub owned : Owned st.log (places xs)
  pub log : IsLog st.log
  pub named : Named xs

pub length-places : (xs : Items) → length (places xs) ≡ length xs
length-places [] = refl
length-places (x ∷ xs) = omega (arith, length-places xs)

pub length-opts_of : (xs : Items) → length (opts_of xs) ≡ length xs
length-opts_of [] = refl
length-opts_of (x ∷ xs) = omega (arith, length-opts_of xs)

pub places-append : (xs ys : Items) → places (xs ++ ys) ≡ places xs ++ places ys
places-append [] ys = refl
places-append ((p, i) ∷ xs) ys = ap (λ zs. (p, 0) ∷ zs) (places-append xs ys)

module _ (c : Cell) (n : Ptr) where
  pub Chain-NonNull : (xs : Items) → Chain c n xs → NonNull (places xs)
  Chain-NonNull [] h = tt
  Chain-NonNull ((p, i) ∷ xs) (ne, e, h) = (ne, Chain-NonNull xs h)

  Chain-same :
      (g : Cell) (xs : Items)
      → ((a : Ptr) → has a (places xs) ≡ true → g a ≡ c a)
      → Chain c n xs
      → Chain g n xs
  Chain-same g [] same h = tt
  Chain-same g ((p, i) ∷ xs) same (ne, e, h) =
      (ne, same p (ground arith) ∙ e, Chain-same g xs (λ a q. same a (ground arith)) h)

  pub Chain-write :
      (a : Ptr) (o : Option Node) (xs : Items)
      → has a (places xs) ≡ false
      → Chain c n xs
      → Chain (write c a o) n xs
  unfolding write
  Chain-write a o xs out h = Chain-same (write c a o) xs (λ q m. ground arith) h

  pub not-has_of_none :
      (a : Ptr) (xs : Items) → c a ≡ none → Chain c n xs → has a (places xs) ≡ false
  not-has_of_none a [] e h = refl
  not-has_of_none a ((p, i) ∷ xs) e (ne, q, h) = ground (arith, not-has_of_none a xs e h)

  pub Chain-append :
      (m : Ptr) (xs ys : Items)
      → Chain c m xs
      → first_of ys n ≡ m
      → Chain c n ys
      → Chain c n (xs ++ ys)
  Chain-append m [] ys h e t = t
  Chain-append m ((p, i) ∷ xs) ys (ne, q, h) e t =
      (ne, q ∙ ap (λ a. some (node_of i a)) (first_of-append m xs ys e), Chain-append m xs ys h e t)
    where
      first_of-append :
          (m : Ptr) (xs ys : Items) → first_of ys n ≡ m → first_of xs m ≡ first_of (xs ++ ys) n
      first_of-append m [] ys e = sym e
      first_of-append m (x ∷ xs) ys e = refl

pub Named-append : (xs ys : Items) → Named xs → Named ys → Named (xs ++ ys)
Named-append [] ys n m = m
Named-append (x ∷ xs) ys (s, n) m = (s, Named-append xs ys n m)

module _ {W : Type 0} where
  -- The log bounds the options: there are at most 200.
  pub length-le :
      {st : State W} {xs : Items} → IsRegistry st xs → length xs ≤ memory_allocate_max_times
  length-le {st} {xs} is = omega (
    arith,
    length-places xs,
    length-le-used (places xs) st.log is.log.distinct is.apart
        (Chain-NonNull st.cell null xs is.chain) is.owned,
    used-le-length st.log,
    is.log.slots,
  )

  -- A read of the first node.
  pub load-first :
      (st : State W) (p : Ptr) (c : Node) → p ≢ null → st.cell p ≡ some c → load p st ≡ Run.ok c st
  unfolding load
  load-first st p c ne e = rw (==-false p null ne, e)

-- What is relied on: `malloc` returns NULL or a block that is not in use, and when `getopt_long` returns 0,
-- `opt_idx` is the place of an option in the array.
pub record IsSystem {W : Type 0} (k : System W) : Type 0 where
  pub fresh_cell : (st : State W) (n : ℕ) → k.malloc st n ≢ 0 → st.cell (k.malloc st n) ≡ none
  pub fresh_log :
      (st : State W) (n : ℕ) → k.malloc st n ≢ 0 → is_live (k.malloc st n) st.log ≡ false
  pub index :
      (argc : ℤ) (argv : List Text) (opts : List Opt) (i : ℕ) (w : W) (f : Found) (w' : W)
      → k.getopt_long argc argv opts i w ≡ some (f, w')
      → f.result ≡ pos 0
      → f.idx < length opts
