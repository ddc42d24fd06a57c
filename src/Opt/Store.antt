-- ===== src/Opt/Store.antt =====
-- The types of linux/src/opt.c, and what it calls. A text is the list of its bytes without the one that ends it,
-- `none` a NULL pointer.
use Prim.Native.String.{String}
use libjoe.Base.{
  ℕ, zero, suc, Bool, true, false, ◌&&◌, Option, none, some, List, [], ◌∷◌, ℤ, pos, eq_ℤ, ◌==◌,
  if◌then◌else◌, Run,
}
use libjoe.Mem.{Table}
use libjoe.Linklist.Store.{Ptr}

abbrev pub Text : Type 0
Text = List ℕ

unfoldable pub is_null : Option Text → Bool
is_null none = true
is_null (some t) = false

-- `struct option` of getopt.h
pub record Opt : Type 0 where
  pub name : Option Text
  pub has_arg : ℤ
  pub flag : Ptr
  pub val : ℤ

-- `simple_list`. `func` is the address of a function.
pub record Node : Type 0 where
  pub opt : Opt
  pub desc : Option Text
  pub func : Ptr
  pub next : Ptr

abbrev pub Cell : Type 0
Cell = Ptr → Option Node

unfoldable pub write : Cell → Ptr → Option Node → Cell
write c p o a = if a == p then o else c a

-- `head`, the nodes in memory, the log of mem.c, and all the rest.
pub record State (W : Type 0) : Type 0 where
  pub head : Ptr
  pub cell : Cell
  pub log : Table
  pub world : W

abbrev pub Cmd : Type 0 → Type 0 → Type 0
Cmd W A = State W → Run (State W) A

-- What a call of `getopt_long` returns, and leaves in `opt_idx` and `optarg`.
pub record Found : Type 0 where
  pub result : ℤ
  pub idx : ℕ
  pub optarg : Option Text

-- The C library, where `getopt_long` answers `none` if it reads past the end of the array, which is undefined,
-- and the functions that the options name, which do not touch the list of options.
pub record System (W : Type 0) : Type 0 where
  pub malloc : State W → ℕ → Ptr
  pub stamp : String → String
  pub printf : (format : String) → List Text → W → W
  pub getopt_long :
      (argc : ℤ) → (argv : List Text) → List Opt → (opt_idx : ℕ) → W → Option (Found × W)
  pub run : (func : Ptr) → Option Text → W → ℤ × W

-- sizeof(struct option), sizeof(simple_list), sizeof(node->opt.name)
abbrev pub option_size : ℕ
option_size = 32

abbrev pub simple_list_size : ℕ
simple_list_size = 56

abbrev pub name_size : ℕ
name_size = 8

-- `!strncmp(s, t, n)`
unfoldable pub strncmp_eq : (n : ℕ) → Text → Text → Bool
strncmp_eq zero s t = true
strncmp_eq (suc n) [] [] = true
strncmp_eq (suc n) [] (b ∷ t) = false
strncmp_eq (suc n) (a ∷ s) [] = false
strncmp_eq (suc n) (a ∷ s) (b ∷ t) = a == b && strncmp_eq n s t

abbrev pub free_cell : ℤ → Cell → Ptr → Cell
free_cell r c p = if eq_ℤ r (pos 0) then write c p none else c
