-- ===== src/Opt/Tests.antt =====
-- The functions of linux/src/opt.c on options whose names begin with the same 8 characters, and on options
-- whose names do not, and the theorems at them.
use libjoe.Base.{
  and_then, inl, inr, Bool-cases, ℕ, ◌<◌, ◌≡◌, refl, Bool, true, false, not, ◌&&◌, Option, none,
  some, List, [], ◌∷◌, ◌++◌, arith, replicate, ltb, pos, minus_one, if◌then◌else◌, length, Ensures,
  ok, fault,
}
use libjoe.Mem.{MemLog, cleared}
use libjoe.Mem.Live.{is_live, is_distinct, used, AllCleared-replicate}
use libjoe.Linklist.Store.{Ptr, null}
use libjoe.Opt.Store.{Found, Text, Opt, Node, write, State, System, strncmp_eq}
use libjoe.Opt.Functions.{load, opt_reg, opt_usage, usage_loop, opt_free, opt_run}
use libjoe.Opt.Rep.{Item, Items, node_of, IsRegistry, IsSystem}
use libjoe.Opt.Registering.{opt_reg-refuses}
use libjoe.Opt.Freeing.{Freed, opt_run-opt_free}
use libjoe.Opt.Serving.{agrees, chosen, pick, item_at, invoke, serve}
use libjoe.Opt.Running.{opt_run-serve}
use libjoe.Opt.Whole.{Ran, opt_run-opt_reg}
use libjoe.Opt.Exact.{opt_run-exact}

-- A command line that names the options at some places, an unknown one past the end, the lines that were printed, and the functions that
-- were called.
record World : Type 0 where
  todo : List ℕ
  lines : List (List Text)
  called : List Ptr

abbrev is_none : Option Node → Bool
is_none none = true
is_none (some n) = false

abbrev is_unused : State World → Ptr → Bool
is_unused st p = is_none (st.cell p) && not (is_live p st.log)

-- The search for an unknown option does not stop at the end of the array.
abbrev answer : List ℕ → List Opt → ℕ → World → Option (Found × World)
answer [] opts i w = some (record { result = minus_one; idx = i; optarg = none }, w)
answer (j ∷ js) opts i w =
    if ltb j (length opts)
    then some (record { result = pos 0; idx = j; optarg = none }, record w { todo = js })
    else none

abbrev system : System World
system = record {
  malloc = λ st n. if is_unused st 4096 then 4096 else null;
  stamp = λ s. s;
  printf = λ format args w. record w { lines = args ∷ w.lines };
  getopt_long = λ argc argv opts i w. answer w.todo opts i w;
  run = λ func arg w. (pos 0, record w { called = func ∷ w.called });
}

answer-index :
    (js : List ℕ) (opts : List Opt) (i : ℕ) (w : World) (f : Found) (w' : World)
    → answer js opts i w ≡ some (f, w')
    → f.result ≡ pos 0
    → f.idx < length opts
answer-index [] opts i w f w' e z =
    let ends : f.result ≡ minus_one = cc e in absurd (ground (arith, ends, z))
answer-index (j ∷ js) opts i w f w' e z = elim (Bool-cases (ltb j (length opts))) [
  | inl lt ↦ (let q : f.idx ≡ j = cc (rw lt at e) in ground (arith, q, lt))
  | inr ge ↦ cc (rw ge at e)
]

system-IsSystem : IsSystem system
system-IsSystem = record {
  fresh_cell = λ st n h. ground arith;
  fresh_log = λ st n h. ground arith;
  index = λ argc argv opts i w f w' e z. answer-index w.todo opts i w f w' e z;
}

abbrev log_level : Text
log_level = b'l' ∷ b'o' ∷ b'g' ∷ b'-' ∷ b'l' ∷ b'e' ∷ b'v' ∷ b'e' ∷ b'l' ∷ []

abbrev log_lever : Text
log_lever = b'l' ∷ b'o' ∷ b'g' ∷ b'-' ∷ b'l' ∷ b'e' ∷ b'v' ∷ b'e' ∷ b'r' ∷ []

abbrev help : Text
help = b'h' ∷ b'e' ∷ b'l' ∷ b'p' ∷ []

abbrev opt_named : Text → Opt
opt_named s = record { name = some s; has_arg = pos 0; flag = null; val = pos 0 }

abbrev item_named : Text → Ptr → Item
item_named s f = record { opt = opt_named s; desc = none; func = f }

abbrev entry : ℕ → MemLog
entry a = record { dec = "simple list"; addr = a; size = 56 }

-- Two options at 100 and 200, with the functions at 1 and 2, and what `getopt_long` will find.
abbrev two : Text → Text → Items
two s t = (100, item_named s 1) ∷ (200, item_named t 2) ∷ []

abbrev st2 : Text → Text → List ℕ → State World
st2 s t js = record {
  head = 100;
  cell =
      write (write (λ _. none) 100 (some (node_of (item_named s 1) 200))) 200
        (some (node_of (item_named t 2) null));
  log = entry 100 ∷ entry 200 ∷ replicate 198 cleared;
  world = record { todo = js; lines = []; called = [] };
}

two-IsRegistry : (s t : Text) (js : List ℕ) → IsRegistry (st2 s t js) (two s t)
unfolding write is_live is_distinct
two-IsRegistry s t js = record {
  start = refl;
  chain = (omega arith, refl, (omega arith, refl, tt));
  apart = refl;
  owned = (refl, (refl, tt));
  log = record {
    slots = refl;
    distinct = refl;
    unused = (λ z. absurd (omega arith), (λ z. absurd (omega arith), AllCleared-replicate 198));
  };
  named = ((s, refl), ((t, refl), tt));
}

-- The options at 0 and 1 are found.
abbrev found : List ℕ
found = 0 ∷ 1 ∷ []

opt_usage_test :
    opt_usage system 5 none (st2 help log_level [])
    ≡ ok (pos 0) (record (st2 help log_level []) {
      world = record {
        todo = [];
        lines = [] ∷ [] ∷ (log_level ∷ []) ∷ [] ∷ (help ∷ []) ∷ [] ∷ [];
        called = [];
      };
    })
unfolding opt_usage usage_loop load write
opt_usage_test = refl

opt_run-opt_free_example :
    Ensures
      (λ r st'.
        (r ≡ pos 0)
        × Freed (st2 help log_level []) (two help log_level) st'
        × (opt_run system 4 (pos 1) [] 9 st' ≡ fault))
      (opt_free 4 (st2 help log_level []))
opt_run-opt_free_example =
    opt_run-opt_free system 3 9 (pos 1) [] (st2 help log_level []) (100, item_named help 1)
      ((200, item_named log_level 2) ∷ []) (two-IsRegistry help log_level []) (omega arith)

-- The function at 1 is called for both options.
opt_run-serve_example :
    opt_run system 4 (pos 1) [] 9 (st2 log_level log_lever found)
    ≡ ok (pos 0) (record (st2 log_level log_lever found) {
      world = record { todo = []; lines = []; called = 1 ∷ 1 ∷ [] };
    })
unfolding write is_live used serve invoke pick chosen agrees strncmp_eq
opt_run-serve_example =
    opt_run-serve system system-IsSystem 4 (pos 1) [] (st2 log_level log_lever found)
      (100, item_named log_level 1) ((200, item_named log_lever 2) ∷ []) 9
      (two-IsRegistry log_level log_lever found) (omega arith) (omega arith) (omega arith)

-- Each function is called for its own option.
opt_run-exact_example :
    opt_run system 4 (pos 1) [] 9 (st2 help log_level found)
    ≡ ok (pos 0) (record (st2 help log_level found) {
      world = record { todo = []; lines = []; called = 2 ∷ 1 ∷ [] };
    })
unfolding write is_live used serve invoke item_at agrees strncmp_eq
opt_run-exact_example =
    opt_run-exact system system-IsSystem 4 (pos 1) [] (st2 help log_level found)
      (100, item_named help 1) ((200, item_named log_level 2) ∷ []) 9
      (two-IsRegistry help log_level found) ((refl, tt), (tt, tt)) (omega arith) (omega arith)
      (omega arith)

-- An option that is not known.
opt_run_unknown : opt_run system 4 (pos 1) [] 9 (st2 help log_level (0 ∷ 7 ∷ [])) ≡ fault
unfolding write is_live used serve invoke item_at agrees strncmp_eq
opt_run_unknown =
    opt_run-exact system system-IsSystem 4 (pos 1) [] (st2 help log_level (0 ∷ 7 ∷ []))
      (100, item_named help 1) ((200, item_named log_level 2) ∷ []) 9
      (two-IsRegistry help log_level (0 ∷ 7 ∷ [])) ((refl, tt), (tt, tt)) (omega arith)
      (omega arith) (omega arith)

opt_reg-refuses_example :
    opt_reg system 4 (record (opt_named help) { name = none }) 3 none (st2 help log_level [])
    ≡ ok minus_one (st2 help log_level [])
opt_reg-refuses_example =
    opt_reg-refuses system 4 (record (opt_named help) { name = none }) 3 none
      (st2 help log_level []) (two-IsRegistry help log_level []).log (inl refl)

abbrev quiet : Text
quiet = b'q' ∷ b'u' ∷ b'i' ∷ b'e' ∷ b't' ∷ []

-- The new option is found, and its function is called.
opt_run-opt_reg_example :
    Ensures
      (Ran
        (two help log_level ++ (4096, item_named quiet 3) ∷ [])
        (st2 help log_level (2 ∷ [])).world
        (record { todo = []; lines = []; called = 3 ∷ [] }))
      (and_then
        (opt_reg system 4 (opt_named quiet) 3 none (st2 help log_level (2 ∷ [])))
        (λ r. opt_run system 4 (pos 1) [] 9))
unfolding write is_live used serve invoke item_at agrees strncmp_eq
opt_run-opt_reg_example =
    opt_run-opt_reg system system-IsSystem 4 (pos 1) [] 9 (two help log_level) (opt_named quiet) 3
      none quiet (st2 help log_level (2 ∷ [])) (record { todo = []; lines = []; called = 3 ∷ [] })
      (two help log_level ++ (4096, item_named quiet 3) ∷ []) refl
      (two-IsRegistry help log_level (2 ∷ [])) refl (omega arith) (omega arith) (omega arith)
      ((refl, (refl, tt)), ((refl, tt), (tt, tt))) refl
