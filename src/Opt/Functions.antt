-- ===== src/Opt/Functions.antt =====
-- The functions of linux/src/opt.c, statement by statement, as commands over the list of options, the log
-- of mem.c and the world outside. `n` bounds the rounds of each loop over the list, `rounds` those of the
-- loop of `opt_run`.
use Prim.Native.String.{String}
use libjoe.Base.{
  ℕ, zero, suc, ◌+◌, ◌*◌, Bool, Option, none, some, List, [], ◌∷◌, ℤ, pos, minus_one, eq_ℤ, ◌==◌,
  if◌then◌else◌, get_elem?, Run, ok, fault, out_of_fuel, pure, ◌>>=◌, ◌>>◌,
}
use libjoe.Mem.{omalloc, ofree}
use libjoe.Linklist.Store.{Ptr, null}
use libjoe.Opt.Store.{
  Text, is_null, Opt, Node, write, Cmd, Found, System, option_size, simple_list_size, name_size,
  strncmp_eq, free_cell, State,
}

module _ {W : Type 0} where
  unfoldable pub load : Ptr → Cmd W Node
  load p st = if p == null then fault else elim (st.cell p) [ none ↦ fault | some c ↦ ok c st ]

  abbrev pub store : Ptr → Node → Cmd W (Unit {0})
  store p c st = ok tt (record st { cell = write st.cell p (some c) })

  abbrev pub set_head : Ptr → Cmd W (Unit {0})
  set_head p st = ok tt (record st { head = p })

  abbrev pub get_head : Cmd W Ptr
  get_head st = ok st.head st

  abbrev pub call : {A : Type 0} → (W → A × W) → Cmd W A
  call f st = let (a, w) = f st.world in ok a (record st { world = w })

  abbrev pub known : {A : Type 0} → State W → Option (A × W) → Run (State W) A
  known st none = fault
  known st (some (a, w)) = ok a (record st { world = w })

  -- A call whose behaviour may be undefined.
  abbrev pub call_known : {A : Type 0} → (W → Option (A × W)) → Cmd W A
  call_known f st = known st (f st.world)

  abbrev pub print : (W → W) → Cmd W (Unit {0})
  print f st = ok tt (record st { world = f st.world })

  -- `ofree(p)`
  unfoldable pub ofree_simple_list : Ptr → Cmd W ℤ
  ofree_simple_list p st =
      let (r, log') = ofree p st.log in
      ok r (record st { cell = free_cell r st.cell p; log = log' })

  unfoldable pub len_loop : ℕ → Ptr → (count : ℕ) → Cmd W ℕ
  len_loop zero list count = λ _. out_of_fuel
  len_loop (suc n) list count =
      if list == null then pure count else do c ← load list; len_loop n c.next (count + 1)

  unfoldable pub opt_len : ℕ → Cmd W ℕ
  unfolding len_loop
  opt_len n = do head ← get_head; if head == null then pure 0 else len_loop n head 0

  -- `while(last->next) { last = last->next; }`
  unfoldable pub last_loop : ℕ → Ptr → Cmd W Ptr
  last_loop zero last = λ _. out_of_fuel
  last_loop (suc n) last = do
    c ← load last
    if c.next == null then pure last else last_loop n c.next

  unfoldable pub set_next : Ptr → Ptr → Cmd W (Unit {0})
  unfolding load
  set_next p q = do c ← load p; store p (record c { next = q })

  -- The node is put behind the last one.
  unfoldable pub append_node : ℕ → (head : Ptr) → (node : Ptr) → Cmd W (Unit {0})
  unfolding last_loop set_next
  append_node n head node =
      if head == null then set_head node else do last ← last_loop n head; set_next last node

  unfoldable pub free_loop : ℕ → Ptr → Cmd W (Unit {0})
  free_loop zero node = λ _. out_of_fuel
  free_loop (suc n) node =
      if node == null then pure tt else do c ← load node; ofree_simple_list node; free_loop n c.next

  -- `head` keeps its value.
  unfoldable pub opt_free : ℕ → Cmd W ℤ
  unfolding free_loop
  opt_free n = do
    head ← get_head
    if head == null then pure (pos 0) else (do free_loop n head; pure (pos 0))

  -- The copy of the options into an array with `room` places.
  unfoldable pub copy_loop : ℕ → (room : ℕ) → Ptr → Cmd W (List Opt)
  copy_loop zero room copy = λ _. out_of_fuel
  copy_loop (suc n) zero copy = if copy == null then pure [] else λ _. fault
  copy_loop (suc n) (suc room) copy =
      if copy == null
      then pure []
      else do c ← load copy; opts ← copy_loop n room c.next; pure (c.opt ∷ opts)

  -- `!strncmp(a.name, b.name, sizeof(b.name))`; an access through NULL or outside the array is a fault.
  unfoldable pub same_name : Option Text → Option Text → Cmd W Bool
  same_name (some s) (some t) = pure (strncmp_eq name_size s t)
  same_name (some s) none = λ _. fault
  same_name none t = λ _. fault

  unfoldable pub selects : Option Opt → Opt → Cmd W Bool
  unfolding same_name
  selects none b = λ _. fault
  selects (some a) b = same_name a.name b.name

module _ {W : Type 0} (k : System W) where
  -- `omalloc` of a block that holds no node yet.
  unfoldable pub omalloc_block : (dec : String) → (size : ℕ) → Cmd W Ptr
  omalloc_block dec size st =
      let (p, log') = omalloc (k.malloc st size) k.stamp (some dec) size st.log in
      ok p (record st { log = log' })

  unfoldable pub opt_reg : ℕ → Opt → (func : Ptr) → (desc : Option Text) → Cmd W ℤ
  opt_reg n opt func desc = if is_null opt.name then pure minus_one else do
    node ← omalloc_block "simple list" simple_list_size
    if node == null then pure minus_one else do
      store node record { opt = opt; desc = desc; func = func; next = null }
      head ← get_head
      append_node n head node
      pure (pos 0)

  abbrev pub print_desc : Option Text → Cmd W (Unit {0})
  print_desc none = pure tt
  print_desc (some desc) = print (k.printf "%s" (desc ∷ []))

  -- A node without a name is looked at for ever.
  unfoldable pub usage_loop : ℕ → Ptr → Cmd W (Unit {0})
  unfolding load
  usage_loop zero node = λ _. out_of_fuel
  usage_loop (suc n) node = if node == null then pure tt else do
    c ← load node
    elim c.opt.name [
      | none ↦ usage_loop n node
      | some name ↦ do
        print (k.printf " --%s\t : " (name ∷ []))
        print_desc c.desc
        print (k.printf "\n" [])
        usage_loop n c.next
    ]

  abbrev pub print_filename : Option Text → Cmd W (Unit {0})
  print_filename none = pure tt
  print_filename (some filename) =
      print (k.printf "\nUsage : %s [operation] <args>\n" (filename ∷ []))

  -- With DEBUG_FLAG, where PRINT_RAW prints.
  unfoldable pub opt_usage : ℕ → (filename : Option Text) → Cmd W ℤ
  unfolding usage_loop
  opt_usage n filename = do
    print_filename filename
    head ← get_head
    if head == null then pure (pos 0) else do
      print (k.printf "[ operation ]\n" [])
      usage_loop n head
      print (k.printf "\n" [])
      pure (pos 0)

  abbrev pub run_func : Node → Option Text → Cmd W (Unit {0})
  run_func c optarg =
      if c.func == null then pure tt else (do r ← call (k.run c.func optarg); pure tt)

  -- The search for the option that `getopt_long` has found.
  unfoldable pub select_loop : ℕ → List Opt → Found → Ptr → Cmd W (Unit {0})
  unfolding selects
  select_loop zero opts f node = λ _. out_of_fuel
  select_loop (suc n) opts f node = if node == null then pure tt else do
    c ← load node
    found ← selects (get_elem? opts f.idx) c.opt
    if found then run_func c f.optarg else select_loop n opts f c.next

  module _ (n : ℕ) (argc : ℤ) (argv : List Text) where
    unfoldable pub getopt_loop : (rounds : ℕ) → List Opt → (opt_idx : ℕ) → Cmd W (Unit {0})
    unfolding select_loop
    getopt_loop zero opts opt_idx = λ _. out_of_fuel
    getopt_loop (suc rounds) opts opt_idx = do
      f ← call_known (k.getopt_long argc argv opts opt_idx)
      if eq_ℤ f.result minus_one
          then pure tt
          else if eq_ℤ f.result (pos 0)
          then (do head ← get_head; select_loop n opts f head; getopt_loop rounds opts f.idx)
          else getopt_loop rounds opts f.idx

    -- The array has a place for each option, and none for an entry that marks its end: `getopt_long` may read past it.
    unfoldable pub opt_run : (rounds : ℕ) → Cmd W ℤ
    opt_run rounds = do
      head ← get_head
      if head == null then pure (pos 0) else do
        len ← opt_len n
        opt_ls ← omalloc_block "option list" (option_size * len)
        if opt_ls == null then pure minus_one else do
          opts ← copy_loop n len head
          getopt_loop rounds opts 0
          ofree_simple_list opt_ls
          pure (pos 0)
