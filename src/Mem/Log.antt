-- ===== src/Mem/Log.antt =====
-- `omalloc` and `ofree` of linux/src/mem.c as a caller sees them.
use mathlib.Core.List.{Perm}
use Prim.Native.String.{String}
use libjoe.Base.{
  ℕ, ◌+◌, ◌<◌, ◌≡◌, ◌≢◌, ◌⊎◌, inl, inr, true, false, not, ◌&&◌, ◌||◌, some, ◌∷◌, arith, ◌==◌,
  Bool-cases, length, pos, minus_one,
}
use libjoe.Mem.{Table, memory_allocate_max_times, omalloc, ofree}
use libjoe.Mem.Live.{
  live, used, is_live, size_of, IsLog, omalloc_loop-full, omalloc_loop-null, omalloc_loop-space,
  is_live-omalloc_loop, used-omalloc_loop, live-omalloc_loop, omalloc_loop-IsLog,
  ofree_loop-omalloc_loop, ofree_loop-missing, ofree_loop-found, is_live-ofree_loop,
  live-ofree_loop, ofree_loop-IsLog,
}

module _ (space : ℕ) (stamp : String → String) (dec : String) (size : ℕ) {t : Table} where
  -- With a free slot, a size that is not 0 and a block from `malloc`, `omalloc` returns that block
  -- and the log holds one block more: that one, with its size.
  pub omalloc-live :
      IsLog t
      → space ≢ 0
      → size ≢ 0
      → used t < memory_allocate_max_times
      → let (p, t') = omalloc space stamp (some dec) size t in
        (p ≡ space) × Perm (live t') ((space, size) ∷ live t)
  unfolding omalloc
  omalloc-live log ne sz room =
      let small : (size == 0) ≡ false = ground arith in
      let free : used t < length t = omega (arith, log.slots) in
      rw small (
        omalloc_loop-space space (stamp dec) size ne t free,
        live-omalloc_loop space (stamp dec) size ne t free,
      )

  pub is_live-omalloc :
      (a : ℕ)
      → IsLog t
      → a ≢ 0
      → space ≢ 0
      → size ≢ 0
      → used t < memory_allocate_max_times
      → is_live a (omalloc space stamp (some dec) size t).1 ≡ (space == a || is_live a t)
  unfolding omalloc
  is_live-omalloc a log na ne sz room =
      let small : (size == 0) ≡ false = ground arith in
      rw small (is_live-omalloc_loop space (stamp dec) size ne a t na (omega (arith, log.slots)))

  pub used-omalloc :
      IsLog t
      → space ≢ 0
      → size ≢ 0
      → used t < memory_allocate_max_times
      → used (omalloc space stamp (some dec) size t).1 ≡ used t + 1
  unfolding omalloc
  used-omalloc log ne sz room =
      let small : (size == 0) ≡ false = ground arith in
      rw small (used-omalloc_loop space (stamp dec) size ne t (omega (arith, log.slots)))

  -- When the size is 0, when 200 blocks are live, or when `malloc` fails, `omalloc` returns NULL and
  -- the log stays as it is.
  pub omalloc-null :
      IsLog t
      → (size ≡ 0) ⊎ (space ≡ 0) ⊎ (used t ≡ memory_allocate_max_times)
      → omalloc space stamp (some dec) size t ≡ (0, t)
  unfolding omalloc
  omalloc-null log why = ground (
    arith,
    log.slots,
    why,
    omalloc_loop-full space (stamp dec) size t,
    omalloc_loop-null space (stamp dec) size t,
  )

  pub omalloc-IsLog :
      IsLog t → is_live space t ≡ false → IsLog (omalloc space stamp (some dec) size t).1
  unfolding omalloc
  omalloc-IsLog log out = elim (Bool-cases (size == 0)) [
    | inl z ↦ rw z log
    | inr nz ↦ rw nz (omalloc_loop-IsLog space (stamp dec) size log out)
  ]

  -- `ofree` of a block that `omalloc` has just returned succeeds and gives back the very log from
  -- before.
  pub ofree-omalloc :
      IsLog t
      → space ≢ 0
      → size ≢ 0
      → used t < memory_allocate_max_times
      → is_live space t ≡ false
      → ofree space (omalloc space stamp (some dec) size t).1 ≡ (pos 0, t)
  unfolding omalloc ofree
  ofree-omalloc log ne sz room out = ground (
    arith,
    log.slots,
    ofree_loop-omalloc_loop space (stamp dec) size t ne (omega (arith, log.slots)) log.unused out,
  )

-- `ofree` succeeds on a block that is live, and takes just that block out of the log.
pub ofree-live :
    (a : ℕ) (t : Table)
    → a ≢ 0
    → is_live a t ≡ true
    → ((ofree a t).0 ≡ pos 0) × Perm (live t) ((a, size_of a t) ∷ live (ofree a t).1)
unfolding ofree
ofree-live a t ne l =
    let nz : (a == 0) ≡ false = ground arith in
    rw nz (ofree_loop-found a ne t l, live-ofree_loop a t ne l)

-- On NULL and on an address that is not live `ofree` returns -1 and leaves the log as it is.
pub ofree-missing :
    (a : ℕ) (t : Table) → (a ≡ 0) ⊎ (is_live a t ≡ false) → ofree a t ≡ (minus_one, t)
unfolding ofree
ofree-missing a t why = ground (arith, why, ofree_loop-missing a t)

-- `ofree` keeps the log well formed, and afterwards the address is no longer live, while every other
-- one is live if it was.
pub ofree-IsLog :
    (a b : ℕ) {t : Table}
    → b ≢ 0
    → IsLog t
    → IsLog (ofree a t).1 × (is_live b (ofree a t).1 ≡ (not (a == b) && is_live b t))
unfolding ofree
ofree-IsLog a b {t} n log = elim (Bool-cases (a == 0)) [
  | inl z ↦ rw z (log, ground arith)
  | inr nz ↦
      let ne : a ≢ 0 = ground arith in
      rw nz (ofree_loop-IsLog a ne log, is_live-ofree_loop a ne b t n log.distinct)
]
