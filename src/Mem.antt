-- ===== src/Mem.antt =====
-- linux/src/mem.c: `omalloc` and `ofree`, which keep a log of at most 200 live blocks.
-- An address is a number, NULL is 0. What `malloc` returns and the text that `snprintf` writes are
-- arguments, since the C library is not part of the repository.
use Prim.Native.String.{String}
use libjoe.Base.{
  ℕ, Option, none, some, List, [], ◌∷◌, ℤ, pos, minus_one, ◌==◌, if◌then◌else◌, replicate,
}
pub mod Live
pub mod Log
mod Tests

-- `struct mem_log`
pub record MemLog : Type 0 where
  pub dec : String
  pub addr : ℕ
  pub size : ℕ

abbrev pub Table : Type 0
Table = List MemLog

-- A slot that `memset` has cleared.
abbrev pub cleared : MemLog
cleared = record { dec = ""; addr = 0; size = 0 }

abbrev pub memory_allocate_max_times : ℕ
memory_allocate_max_times = 200

-- `mem_manager` as it stands when the program starts.
unfoldable pub mem_manager : Table
mem_manager = replicate memory_allocate_max_times cleared

-- The loop of `omalloc`: the first slot without an address is filled, if `malloc` succeeds.
unfoldable pub omalloc_loop : (space : ℕ) (label : String) (size : ℕ) → Table → ℕ × Table
omalloc_loop space label size [] = (0, [])
omalloc_loop space label size (s ∷ t) =
    let rest = omalloc_loop space label size t in
    if s.addr == 0
    then if space == 0
      then (0, s ∷ t)
      else (space, record { dec = label; addr = space; size = size } ∷ t)
    else (rest.0, s ∷ rest.1)

-- `space` is what `malloc` returns, `stamp dec` what `snprintf` makes of the description.
unfoldable pub omalloc :
    (space : ℕ) (stamp : String → String) → Option String → (size : ℕ) → Table → ℕ × Table
unfolding omalloc_loop
omalloc space stamp none size t = (0, t)
omalloc space stamp (some dec) size t =
    if size == 0 then (0, t) else omalloc_loop space (stamp dec) size t

-- The loop of `ofree`: the first slot with this address is cleared, and `free` is called on it. It
-- is called on no other way.
unfoldable pub ofree_loop : (addr : ℕ) → Table → ℤ × Table
ofree_loop addr [] = (minus_one, [])
ofree_loop addr (s ∷ t) =
    let rest = ofree_loop addr t in
    if s.addr == 0
    then (rest.0, s ∷ rest.1)
    else if s.addr == addr
    then (pos 0, cleared ∷ t)
    else (rest.0, s ∷ rest.1)

unfoldable pub ofree : (addr : ℕ) → Table → ℤ × Table
unfolding ofree_loop
ofree addr t = if addr == 0 then (minus_one, t) else ofree_loop addr t
