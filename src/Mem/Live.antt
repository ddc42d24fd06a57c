-- ===== src/Mem/Live.antt =====
-- The log of mem.c as the set of live blocks: what `omalloc` adds and `ofree` takes away, and the
-- invariant that both keep.
use mathlib.Core.List.{Perm}
use mathlib.Core.List.Perm
use mathlib.Core.Path.{subst}
use native.Mathlib.Decide.{dec_lt, ℕ_discrete}
use Prim.Native.String.{String}
use libjoe.Base.{
  zero, suc, replicate, ℕ, ◌+◌, ◌<◌, ◌≤◌, ◌≡◌, refl, ◌≢◌, inl, inr, Bool, true, false, not, ◌&&◌,
  ◌||◌, List, [], ◌∷◌, arith, sym, ◌∙◌, ◌==◌, ==_iff, if◌then◌else◌, Bool-cases, length, pos,
  minus_one,
}
use libjoe.Mem.{Table, cleared, memory_allocate_max_times, omalloc_loop, ofree_loop}

-- Address and size of the blocks that are logged, in the order of the slots.
unfoldable pub live : Table → List (ℕ × ℕ)
live [] = []
live (s ∷ t) = if s.addr == 0 then live t else (s.addr, s.size) ∷ live t

-- How many slots are taken.
unfoldable pub used : Table → ℕ
used [] = 0
used (s ∷ t) = (if s.addr == 0 then 0 else 1) + used t

unfoldable pub is_live : ℕ → Table → Bool
is_live a [] = false
is_live a (s ∷ t) = s.addr == a || is_live a t

-- No address stands in two slots.
unfoldable pub is_distinct : Table → Bool
is_distinct [] = true
is_distinct (s ∷ t) = (s.addr == 0 || not (is_live s.addr t)) && is_distinct t

abbrev pub AllCleared : Table → Type 0
AllCleared [] = Unit {0}
AllCleared (s ∷ t) = (s.addr ≡ 0 → s ≡ cleared) × AllCleared t

pub AllCleared-replicate : (n : ℕ) → AllCleared (replicate n cleared)
AllCleared-replicate zero = tt
AllCleared-replicate (suc n) = (λ z. refl, AllCleared-replicate n)

pub record IsLog (t : Table) : Type 0 where
  pub slots : length t ≡ memory_allocate_max_times
  pub distinct : is_distinct t ≡ true
  pub unused : AllCleared t

pub used-le-length : (t : Table) → used t ≤ length t
unfolding used
used-le-length [] = omega arith
used-le-length (s ∷ t) = ground (arith, used-le-length t)

module _ (space : ℕ) (label : String) (size : ℕ) where
  pub omalloc_loop-full : (t : Table) → used t ≡ length t → omalloc_loop space label size t ≡ (0, t)
  unfolding omalloc_loop used
  omalloc_loop-full [] h = refl
  omalloc_loop-full (s ∷ t) h = ground (arith, omalloc_loop-full t, used-le-length t)

  pub omalloc_loop-null : (t : Table) → space ≡ 0 → omalloc_loop space label size t ≡ (0, t)
  unfolding omalloc_loop
  omalloc_loop-null [] h = refl
  omalloc_loop-null (s ∷ t) h = ground (arith, omalloc_loop-null t h)

  -- The effects of the loop when a slot is free and `malloc` succeeds.
  module _ (ne : space ≢ 0) where
    pub omalloc_loop-space :
        (t : Table) → used t < length t → (omalloc_loop space label size t).0 ≡ space
    unfolding omalloc_loop used
    omalloc_loop-space [] h = absurd (omega arith)
    omalloc_loop-space (s ∷ t) h = ground (arith, omalloc_loop-space t)

    pub used-omalloc_loop :
        (t : Table) → used t < length t → used (omalloc_loop space label size t).1 ≡ used t + 1
    unfolding omalloc_loop used
    used-omalloc_loop [] h = absurd (omega arith)
    used-omalloc_loop (s ∷ t) h = ground (arith, used-omalloc_loop t)

    pub is_live-omalloc_loop :
        (a : ℕ) (t : Table)
        → a ≢ 0
        → used t < length t
        → is_live a (omalloc_loop space label size t).1 ≡ (space == a || is_live a t)
    unfolding omalloc_loop used is_live
    is_live-omalloc_loop a [] n h = absurd (omega arith)
    is_live-omalloc_loop a (s ∷ t) n h = ground (arith, is_live-omalloc_loop a t n)

    pub is_distinct-omalloc_loop :
        (t : Table)
        → used t < length t
        → is_live space t ≡ false
        → is_distinct t ≡ true
        → is_distinct (omalloc_loop space label size t).1 ≡ true
    unfolding omalloc_loop used is_live is_distinct
    is_distinct-omalloc_loop [] h out d = absurd (omega arith)
    is_distinct-omalloc_loop (s ∷ t) h out d =
        ground (arith, is_distinct-omalloc_loop t, is_live-omalloc_loop s.addr t)

    pub live-omalloc_loop :
        (t : Table)
        → used t < length t
        → Perm (live (omalloc_loop space label size t).1) ((space, size) ∷ live t)
    unfolding omalloc_loop used live
    live-omalloc_loop [] h = absurd (omega arith)
    live-omalloc_loop (s ∷ t) h = elim (Bool-cases (s.addr == 0)) [
      | inl e ↦ rw (e, space_ne, space_ne) (Perm.refl _)
      | inr e ↦
          rw (e, e)
            (Perm.trans (Perm.cons _ (live-omalloc_loop t (ground (arith, e)))) (Perm.swap _ _ _))
    ]
      where
        space_ne : (space == 0) ≡ false
        space_ne = ground arith

    pub AllCleared-omalloc_loop :
        (t : Table) → AllCleared t → AllCleared (omalloc_loop space label size t).1
    unfolding omalloc_loop
    AllCleared-omalloc_loop [] c = tt
    AllCleared-omalloc_loop (s ∷ t) (c, cs) = elim (Bool-cases (s.addr == 0)) [
      | inl e ↦ rw (e, space_ne) (λ z. absurd (ne z), cs)
      | inr e ↦ rw e (c, AllCleared-omalloc_loop t cs)
    ]
      where
        space_ne : (space == 0) ≡ false
        space_ne = ground arith

  pub length-omalloc_loop : (t : Table) → length (omalloc_loop space label size t).1 ≡ length t
  unfolding omalloc_loop
  length-omalloc_loop [] = refl
  length-omalloc_loop (s ∷ t) = ground (arith, length-omalloc_loop t)

  -- Freeing what the loop has just logged gives the table back.
  pub ofree_loop-omalloc_loop :
      (t : Table)
      → space ≢ 0
      → used t < length t
      → AllCleared t
      → is_live space t ≡ false
      → ofree_loop space (omalloc_loop space label size t).1 ≡ (pos 0, t)
  unfolding omalloc_loop ofree_loop used is_live
  ofree_loop-omalloc_loop [] ne h c out = absurd (omega arith)
  ofree_loop-omalloc_loop (s ∷ t) ne h (c, cs) out = ground (arith, c, ofree_loop-omalloc_loop t ne)

module _ (a : ℕ) where
  pub ofree_loop-missing : (t : Table) → is_live a t ≡ false → ofree_loop a t ≡ (minus_one, t)
  unfolding ofree_loop is_live
  ofree_loop-missing [] h = refl
  ofree_loop-missing (s ∷ t) h = ground (arith, ofree_loop-missing t)

  module _ (ne : a ≢ 0) where
    pub ofree_loop-found : (t : Table) → is_live a t ≡ true → (ofree_loop a t).0 ≡ pos 0
    unfolding ofree_loop is_live
    ofree_loop-found [] h = cc
    ofree_loop-found (s ∷ t) h = ground (arith, ofree_loop-found t)

    pub used-ofree_loop : (t : Table) → is_live a t ≡ true → used (ofree_loop a t).1 + 1 ≡ used t
    unfolding ofree_loop is_live used
    used-ofree_loop [] h = cc
    used-ofree_loop (s ∷ t) h = ground (arith, used-ofree_loop t)

    pub is_live-ofree_loop :
        (b : ℕ) (t : Table)
        → b ≢ 0
        → is_distinct t ≡ true
        → is_live b (ofree_loop a t).1 ≡ (not (a == b) && is_live b t)
    unfolding ofree_loop is_live is_distinct
    is_live-ofree_loop b [] n d = ground arith
    is_live-ofree_loop b (s ∷ t) n d = ground (arith, is_live-ofree_loop b t n)

    pub is_distinct-ofree_loop :
        (t : Table) → is_distinct t ≡ true → is_distinct (ofree_loop a t).1 ≡ true
    unfolding ofree_loop is_live is_distinct
    is_distinct-ofree_loop [] d = refl
    is_distinct-ofree_loop (s ∷ t) d =
        ground (arith, is_distinct-ofree_loop t, is_live-ofree_loop s.addr t)

    pub AllCleared-ofree_loop : (t : Table) → AllCleared t → AllCleared (ofree_loop a t).1
    unfolding ofree_loop
    AllCleared-ofree_loop [] c = tt
    AllCleared-ofree_loop (s ∷ t) (c, cs) = elim (Bool-cases (s.addr == 0)) [
      | inl e ↦ rw e (c, AllCleared-ofree_loop t cs)
      | inr e ↦ rw e (elim (Bool-cases (s.addr == a)) [
        | inl e' ↦ rw e' (λ z. refl, cs)
        | inr e' ↦ rw e' (c, AllCleared-ofree_loop t cs)
      ])
    ]

  pub length-ofree_loop : (t : Table) → length (ofree_loop a t).1 ≡ length t
  unfolding ofree_loop
  length-ofree_loop [] = refl
  length-ofree_loop (s ∷ t) = ground (arith, length-ofree_loop t)

-- The size that is logged for an address.
unfoldable pub size_of : ℕ → Table → ℕ
size_of a [] = 0
size_of a (s ∷ t) = if s.addr == a then s.size else size_of a t

pub live-ofree_loop :
    (a : ℕ) (t : Table)
    → a ≢ 0
    → is_live a t ≡ true
    → Perm (live t) ((a, size_of a t) ∷ live (ofree_loop a t).1)
unfolding ofree_loop is_live live size_of
live-ofree_loop a [] n h = cc
live-ofree_loop a (s ∷ t) n h = elim (Bool-cases (s.addr == 0)) [
  | inl e ↦
      let ne : (s.addr == a) ≡ false = ground arith in
      rw (e, ne, e) (live-ofree_loop a t n (rw ne at h))
  | inr e ↦ rw e (elim (Bool-cases (s.addr == a)) [
    | inl e' ↦ rw e' (
        subst (λ x. Perm ((x, s.size) ∷ live t) ((a, s.size) ∷ live t))
          (sym ((==_iff s.addr a).0 e')) (Perm.refl _))
    | inr e' ↦
        rw (e', e) (Perm.trans (Perm.cons _ (live-ofree_loop a t n (rw e' at h))) (Perm.swap _ _ _))
  ])
]

module _ (space : ℕ) (label : String) (size : ℕ) {t : Table} (log : IsLog t) where
  filled-IsLog :
      space ≢ 0
      → used t < length t
      → is_live space t ≡ false
      → IsLog (omalloc_loop space label size t).1
  filled-IsLog ne room out = record {
    slots = length-omalloc_loop space label size t ∙ log.slots;
    distinct = is_distinct-omalloc_loop space label size ne t room out log.distinct;
    unused = AllCleared-omalloc_loop space label size ne t log.unused;
  }

  pub omalloc_loop-IsLog : is_live space t ≡ false → IsLog (omalloc_loop space label size t).1
  omalloc_loop-IsLog out = elim (dec_lt (used t) (length t)) [
    | no full ↦ rw (omalloc_loop-full space label size t (omega (arith, used-le-length t))) log
    | yes room ↦ elim (ℕ_discrete space 0) [
      | yes z ↦ rw (omalloc_loop-null space label size t z) log
      | no ne ↦ filled-IsLog ne room out
    ]
  ]

pub ofree_loop-IsLog : (a : ℕ) {t : Table} → a ≢ 0 → IsLog t → IsLog (ofree_loop a t).1
ofree_loop-IsLog a {t} ne log = record {
  slots = length-ofree_loop a t ∙ log.slots;
  distinct = is_distinct-ofree_loop a ne t log.distinct;
  unused = AllCleared-ofree_loop a ne t log.unused;
}
