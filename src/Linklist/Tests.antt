-- ===== src/Linklist/Tests.antt =====
-- The functions of linux/src/linklist.c on a list of three nodes, and the theorems at it.
use libjoe.Base.{
  Ensures, ok, ℕ, ◌≡◌, refl, Bool, true, false, not, ◌&&◌, Option, none, some, [], ◌∷◌, ◌++◌, arith,
  replicate, pos, if◌then◌else◌,
}
use libjoe.Mem.{MemLog, cleared}
use libjoe.Mem.Live.{is_live, is_distinct, used, AllCleared-replicate}
use libjoe.Linklist.Store.{Ptr, null, Node, node, write, Store, Libc, IsLibc, node_size}
use libjoe.Linklist.Functions.{header, list_insert_tail, list_get_index, list_remove_index}
use libjoe.Linklist.Chain.{Cells}
use libjoe.Linklist.Commands.{HasRoom}
use libjoe.Linklist.Rep.{IsList, Leaves}
use libjoe.Linklist.Insert.{list_insert_tail-append}
use libjoe.Linklist.Remove.{Removes}
use libjoe.Linklist.Index.{value_at, list_get_index-value_at, list_remove_index-nth}

abbrev pub is_none : Option Node → Bool
is_none none = true
is_none (some n) = false

-- A block that is neither a node nor in the log.
abbrev pub is_unused : Store → Ptr → Bool
is_unused st p = is_none (st.cell p) && not (is_live p st.log)

-- A `malloc` with one block to give, the memory of which holds 7 and two wild pointers.
abbrev pub one_block : Libc
one_block = record {
  malloc = λ st n. if is_unused st 4096 then 4096 else null;
  garbage = λ st. node 7 666 667;
  stamp = λ s. s;
}

abbrev no_block : Libc
no_block = record { malloc = λ st n. null; garbage = λ st. node 0 0 0; stamp = λ s. s }

pub one_block-IsLibc : IsLibc one_block
one_block-IsLibc = record {
  fresh_cell = λ st n h. ground arith;
  fresh_log = λ st n h. ground arith;
}

no_block-IsLibc : IsLibc no_block
no_block-IsLibc = record {
  fresh_cell = λ st n h. absurd (h refl);
  fresh_log = λ st n h. absurd (h refl);
}

abbrev pub three : Cells
three = (100, 1) ∷ (200, 2) ∷ (300, 3) ∷ []

abbrev pub entry : ℕ → MemLog
entry a = record { dec = "list node"; addr = a; size = 24 }

abbrev pub st3 : Store
st3 = record {
  cell =
      write (write (write (λ _. none) 100 (some (node 1 200 0))) 200 (some (node 2 300 100))) 300
        (some (node 3 0 200));
  log = entry 100 ∷ entry 200 ∷ entry 300 ∷ replicate 197 cleared;
}

pub three-IsList : IsList st3 (header 100 300 3) three
unfolding write is_live is_distinct
three-IsList = record {
  ends = refl;
  chain = (omega arith, refl, (omega arith, refl, (omega arith, refl, tt)));
  apart = refl;
  owned = (refl, (refl, (refl, tt)));
  log = record {
    slots = refl;
    distinct = refl;
    unused = (
      λ z. absurd (omega arith),
      (λ z. absurd (omega arith), (λ z. absurd (omega arith), AllCleared-replicate 197)),
    );
  };
}

pub three-HasRoom : HasRoom one_block st3
unfolding write is_live used
three-HasRoom = record { given = omega arith; slot = omega arith }

list_insert_tail-append_example :
    Ensures
      (Leaves st3
        (three ++ (one_block.malloc st3 node_size, 9) ∷ [])
        (pos 3)
        (three ++ (one_block.malloc st3 node_size, 9) ∷ []))
      (list_insert_tail one_block (some (header 100 300 3)) 9 st3)
list_insert_tail-append_example =
    list_insert_tail-append one_block-IsLibc three 9 three-IsList (omega arith) three-HasRoom

list_remove_index-nth_example :
    Ensures
      (Removes st3 three 200 ((100, 1) ∷ (300, 3) ∷ []))
      (list_remove_index (some (header 100 300 3)) 1 st3)
list_remove_index-nth_example =
    list_remove_index-nth ((100, 1) ∷ []) 200 2 ((300, 3) ∷ []) three-IsList

list_get_index-value_at_example :
    list_get_index (some (header 100 300 3)) 2 st3 ≡ ok (value_at three 2) st3
list_get_index-value_at_example = list_get_index-value_at three-IsList 2
