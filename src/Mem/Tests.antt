-- ===== src/Mem/Tests.antt =====
-- The functions of linux/src/mem.c on concrete logs, and the theorems of Log at them.
use Prim.Native.String.{String}
use libjoe.Base.{◌≡◌, refl, not, ◌&&◌, some, ◌∷◌, arith, ◌==◌, replicate, pos, minus_one}
use libjoe.Mem.{Table, cleared, mem_manager, omalloc, ofree}
use libjoe.Mem.Live.{used, is_live, is_distinct, IsLog, AllCleared-replicate}
use libjoe.Mem.Log.{ofree-omalloc, ofree-IsLog}

abbrev stamp : String → String
stamp s = s

-- Two blocks are live; the first slot has been given back.
abbrev two : Table
two =
    cleared
    ∷ record { dec = "node"; addr = 4096; size = 24 }
    ∷ record { dec = "head"; addr = 8192; size = 16 }
    ∷ replicate 197 cleared

-- The log that the program starts with.
mem_manager-IsLog : IsLog mem_manager
unfolding mem_manager is_distinct is_live
mem_manager-IsLog = record { slots = refl; distinct = refl; unused = AllCleared-replicate 200 }

two-IsLog : IsLog two
unfolding is_distinct is_live
two-IsLog = record {
  slots = refl;
  distinct = refl;
  unused = (
    λ z. refl,
    (λ z. absurd (omega arith), (λ z. absurd (omega arith), AllCleared-replicate 197)),
  );
}

omalloc_fills_gap : omalloc 5000 stamp (some "x") 8 two ≡ (
  5000,
  record { dec = "x"; addr = 5000; size = 8 }
      ∷ record { dec = "node"; addr = 4096; size = 24 }
      ∷ record { dec = "head"; addr = 8192; size = 16 }
      ∷ replicate 197 cleared,
)
unfolding omalloc
omalloc_fills_gap = refl

ofree_twice : ofree 4096 (ofree 4096 two).1 ≡ (minus_one, (ofree 4096 two).1)
unfolding ofree
ofree_twice = refl

ofree-omalloc_example : ofree 5000 (omalloc 5000 stamp (some "x") 8 two).1 ≡ (pos 0, two)
unfolding used is_live
ofree-omalloc_example =
    ofree-omalloc 5000 stamp "x" 8 two-IsLog (omega arith) (omega arith) (omega arith) refl

ofree-IsLog_example :
    IsLog (ofree 4096 two).1
    × (is_live 8192 (ofree 4096 two).1 ≡ (not (4096 == 8192) && is_live 8192 two))
ofree-IsLog_example = ofree-IsLog 4096 8192 (omega arith) two-IsLog
