-- ===== src/MemoryManager/FreeList.antt =====
-- The free list of rtos/src/memory_manager.c without pointers: blocks of address and size, and what
-- insertion with merging does to them.
use libjoe.Base.{
  ℕ, ◌+◌, ◌≤◌, ◌<◌, ◌≡◌, refl, ◌⊎◌, inl, inr, Bool, false, ◌&&◌, ◌||◌, List, [], ◌∷◌, arith, leb,
  ltb, ◌==◌, if◌then◌else◌, Bool-cases, ==_iff, ltb→lt,
}

abbrev pub Blocks : Type 0
Blocks = List (ℕ × ℕ)

-- The block of `s` bytes at `a` in front of the blocks `bs`, merged with the first if they touch.
unfoldable pub cons_merged : ℕ → ℕ → Blocks → Blocks
cons_merged a s [] = (a, s) ∷ []
cons_merged a s ((b, t) ∷ bs) = if a + s == b then (a, s + t) ∷ bs else (a, s) ∷ (b, t) ∷ bs

-- The block of `s` bytes at `a` in its place by address, merged with its neighbours.
unfoldable pub insert_merged : ℕ → ℕ → Blocks → Blocks
unfolding cons_merged
insert_merged a s [] = (a, s) ∷ []
insert_merged a s ((b, t) ∷ bs) =
    if ltb a b
    then cons_merged a s ((b, t) ∷ bs)
    else if b + t == a
    then cons_merged b (t + s) bs
    else (b, t) ∷ insert_merged a s bs

-- The byte at `x` lies in a block of `s` bytes at `a`; in one of the blocks.
abbrev pub inside : ℕ → ℕ → ℕ → Bool
inside a s x = leb a x && ltb x (a + s)

unfoldable pub covers : Blocks → ℕ → Bool
covers [] x = false
covers ((a, s) ∷ bs) x = inside a s x || covers bs x

-- The bytes of all blocks.
unfoldable pub total : Blocks → ℕ
total [] = 0
total ((a, s) ∷ bs) = s + total bs

-- The blocks follow one another by address, between `lo` and `e`, none of them empty, and no two of
-- them touch.
abbrev pub Spaced : ℕ → ℕ → Blocks → Type 0
Spaced lo e [] = lo ≤ e
Spaced lo e ((a, s) ∷ bs) = (lo < a) × (0 < s) × Spaced (a + s) e bs

-- No byte of the block of `s` bytes at `a` lies in the blocks, or behind `e`.
abbrev pub Apart : ℕ → ℕ → ℕ → Blocks → Type 0
Apart a s e [] = a + s ≤ e
Apart a s e ((b, t) ∷ bs) = ((a + s ≤ b) ⊎ (b + t ≤ a)) × Apart a s e bs

pub Apart-end : (a s e : ℕ) (bs : Blocks) → Apart a s e bs → a + s ≤ e
Apart-end a s e [] h = h
Apart-end a s e ((b, t) ∷ bs) (h, hs) = Apart-end a s e bs hs

pub Spaced-end : (lo e : ℕ) (bs : Blocks) → Spaced lo e bs → lo ≤ e
Spaced-end lo e [] h = h
Spaced-end lo e ((a, s) ∷ bs) (p, q, h) = omega (arith, Spaced-end (a + s) e bs h)

-- The address of the first block, `e` where there is none.
abbrev pub first_of : Blocks → ℕ → ℕ
first_of [] e = e
first_of ((a, s) ∷ bs) e = a

pub Spaced-weaken : (lo lo' e : ℕ) (bs : Blocks) → lo' ≤ lo → Spaced lo e bs → Spaced lo' e bs
Spaced-weaken lo lo' e [] h sp = omega arith
Spaced-weaken lo lo' e ((b, t) ∷ bs) h (p, q, sp) = (omega arith, q, sp)

-- Behind `a`, a block that is apart from the others ends before the first of them.
pub Apart-first : (a s e : ℕ) (bs : Blocks) → Apart a s e bs → Spaced a e bs → a + s ≤ first_of bs e
Apart-first a s e [] h sp = h
Apart-first a s e ((b, t) ∷ bs) (inl h, hs) sp = h
Apart-first a s e ((b, t) ∷ bs) (inr h, hs) (p, q, sp) = absurd (omega arith)

module _ (a s : ℕ) where
  pub covers-cons_merged :
      (bs : Blocks) (x : ℕ) → covers (cons_merged a s bs) x ≡ (inside a s x || covers bs x)
  unfolding cons_merged covers
  covers-cons_merged [] x = refl
  covers-cons_merged ((b, t) ∷ bs) x = ground arith

  pub total-cons_merged : (bs : Blocks) → total (cons_merged a s bs) ≡ s + total bs
  unfolding cons_merged total
  total-cons_merged [] = refl
  total-cons_merged ((b, t) ∷ bs) = ground arith

  pub Spaced-cons_merged :
      (lo e : ℕ) (bs : Blocks)
      → lo < a
      → 0 < s
      → a + s ≤ first_of bs e
      → Spaced a e bs
      → Spaced lo e (cons_merged a s bs)
  unfolding cons_merged
  Spaced-cons_merged lo e [] p q h sp = (p, q, h)
  Spaced-cons_merged lo e ((b, t) ∷ bs) p q h (pb, qb, sp) = elim (Bool-cases (a + s == b)) [
    | inl touch ↦
        let touches : a + s ≡ b = (==_iff (a + s) b).0 touch in
        rw touch (p, omega arith, Spaced-weaken (b + t) (a + (s + t)) e bs (omega arith) sp)
    | inr gap ↦ rw gap (p, q, (ground (arith, h, gap), qb, sp))
  ]

pub first_of-cons_merged : (a s e : ℕ) (bs : Blocks) → first_of (cons_merged a s bs) e ≡ a
unfolding cons_merged
first_of-cons_merged a s e [] = refl
first_of-cons_merged a s e ((b, t) ∷ bs) = ground arith

pub first_of-insert_merged :
    (a s b t e : ℕ) (bs : Blocks) → b ≤ a → first_of (insert_merged a s ((b, t) ∷ bs)) e ≡ b
unfolding insert_merged
first_of-insert_merged a s b t e bs h = ground (arith, first_of-cons_merged b (t + s) e bs)

pub insert_merged-past :
    (a s b t : ℕ) (bs : Blocks)
    → b + t < a
    → insert_merged a s ((b, t) ∷ bs) ≡ (b, t) ∷ insert_merged a s bs
unfolding insert_merged
insert_merged-past a s b t bs h = ground arith

pub covers-insert_merged :
    (a s : ℕ) (bs : Blocks) (x : ℕ)
    → covers (insert_merged a s bs) x ≡ (inside a s x || covers bs x)
unfolding insert_merged covers
covers-insert_merged a s [] x = refl
covers-insert_merged a s ((b, t) ∷ bs) x = ground (
  arith,
  covers-insert_merged a s bs x,
  covers-cons_merged a s ((b, t) ∷ bs) x,
  covers-cons_merged b (t + s) bs x,
)

pub total-insert_merged : (a s : ℕ) (bs : Blocks) → total (insert_merged a s bs) ≡ s + total bs
unfolding insert_merged total
total-insert_merged a s [] = refl
total-insert_merged a s ((b, t) ∷ bs) = ground (
  arith,
  total-insert_merged a s bs,
  total-cons_merged a s ((b, t) ∷ bs),
  total-cons_merged b (t + s) bs,
)

pub Spaced-insert_merged :
    (a s lo e : ℕ) (bs : Blocks)
    → lo < a
    → 0 < s
    → Apart a s e bs
    → Spaced lo e bs
    → Spaced lo e (insert_merged a s bs)
unfolding insert_merged
Spaced-insert_merged a s lo e [] p q h sp = (p, q, h)
Spaced-insert_merged a s lo e ((b, t) ∷ bs) p q (h, hs) (pb, qb, sp) = elim (Bool-cases (ltb a b)) [
  | inl before ↦
      let less : a < b = ltb→lt a b before in
      rw before (Spaced-cons_merged a s lo e ((b, t) ∷ bs) p q (omega arith) (less, qb, sp))
  | inr after ↦ rw after (elim (Bool-cases (b + t == a)) [
    | inl touch ↦
        let touches : b + t ≡ a = (==_iff (b + t) a).0 touch in
        rw touch (
          Spaced-cons_merged b (t + s) lo e bs pb (omega arith)
            (omega (arith, Apart-first a s e bs hs (Spaced-weaken (b + t) a e bs (omega arith) sp)))
            (Spaced-weaken (b + t) b e bs (omega arith) sp))
    | inr gap ↦
        let far : b + t < a = ground (arith, h, after, gap, qb) in
        rw gap (pb, qb, Spaced-insert_merged a s (b + t) e bs far q hs sp)
  ])
]
