-- ===== src/MemoryManager/FirstFit.antt =====
-- The search of `memory_manager_allocate` of rtos/src/memory_manager.c against the first block that is
-- large enough.
use libjoe.Base.{
  ℕ, zero, suc, ◌+◌, ◌≤◌, ◌<◌, ◌≡◌, refl, ◌∙◌, ◌≢◌, ◌⊎◌, inl, inr, true, false, ◌||◌, [], ◌∷◌,
  arith, ◌==◌, ==-false, ltb, ltb→lt, lt→ltb, ltb_false→le, le→ltb_false, length, ok, Bool-cases,
}
use libjoe.MemoryManager.Store.{Ptr, null, link, Manager, Cell, write}
use libjoe.MemoryManager.Functions.{find_fit}
use libjoe.MemoryManager.FreeList.{
  Blocks, first_of, covers, inside, total, Spaced, Apart, Spaced-weaken,
}
use libjoe.MemoryManager.Chain.{
  heap, Chain, has, write_self, write_other, Chain-write, ne_of_has, not-has_of_lt, load-ok,
}

-- The first block of at least `want` bytes is that of `t` bytes at `b`; `r` are the others.
pub data IsFit (want : ℕ) : Blocks → ℕ → ℕ → Blocks → Type 0 where
  here : (b t : ℕ) (bs : Blocks) → want ≤ t → IsFit want ((b, t) ∷ bs) b t bs
  there :
      (a u b t : ℕ) (bs r : Blocks)
      → u < want
      → IsFit want bs b t r
      → IsFit want ((a, u) ∷ bs) b t ((a, u) ∷ r)

abbrev pub NoFit : ℕ → Blocks → Type 0
NoFit want [] = Unit {0}
NoFit want ((a, u) ∷ bs) = (u < want) × NoFit want bs

pub IsFit-cases :
    (want : ℕ) (bs : Blocks)
    → ((b : ℕ) × (t : ℕ) × (r : Blocks) × IsFit want bs b t r) ⊎ NoFit want bs
IsFit-cases want [] = inr tt
IsFit-cases want ((a, u) ∷ bs) = elim (Bool-cases (ltb u want)) [
  | inl less ↦ elim (IsFit-cases want bs) [
    | inl (b, t, r, fit) ↦ inl (b, t, (a, u) ∷ r, there a u b t bs r (ltb→lt u want less) fit)
    | inr none_fits ↦ inr (ltb→lt u want less, none_fits)
  ]
  | inr enough ↦ inl (a, u, bs, here a u bs (ltb_false→le u want enough))
]

pub IsFit-le : {want b t : ℕ} {bs r : Blocks} → IsFit want bs b t r → want ≤ t
IsFit-le (here b t bs h) = h
IsFit-le (there a u b t bs r h fit) = IsFit-le fit

pub covers-IsFit :
    {want b t : ℕ} {bs r : Blocks}
    → IsFit want bs b t r
    → (x : ℕ) → covers bs x ≡ (inside b t x || covers r x)
unfolding covers
covers-IsFit (here b t bs h) x = refl
covers-IsFit (there a u b t bs r h fit) x = ground (arith, covers-IsFit fit x)

pub total-IsFit : {want b t : ℕ} {bs r : Blocks} → IsFit want bs b t r → total bs ≡ t + total r
unfolding total
total-IsFit (here b t bs h) = refl
total-IsFit (there a u b t bs r h fit) = omega (arith, total-IsFit fit)

pub not-has-IsFit :
    {want b t : ℕ} {bs r : Blocks}
    → IsFit want bs b t r
    → (x e : ℕ) → has x e bs ≡ false
    → has x e r ≡ false
not-has-IsFit (here b t bs h) x e out = ground arith
not-has-IsFit (there a u b t bs r h fit) x e out = ground (arith, not-has-IsFit fit x e)

-- A header of the list is a free byte, but for that of the marker.
pub not-has-covers :
    (x lo e : ℕ) (bs : Blocks)
    → Spaced lo e bs
    → covers bs x ≡ false
    → (x == e) ≡ false
    → has x e bs ≡ false
unfolding covers
not-has-covers x lo e [] sp out xe = xe
not-has-covers x lo e ((a, s) ∷ bs) (p, q, sp) out xe =
    ground (arith, not-has-covers x (a + s) e bs sp, out)

-- A block that ends in front of the others is apart from them.
Apart-before : (b t lo e : ℕ) (bs : Blocks) → b + t ≤ lo → Spaced lo e bs → Apart b t e bs
Apart-before b t lo e [] h sp = omega arith
Apart-before b t lo e ((a, u) ∷ bs) h (p, q, sp) =
    (inl (omega arith), Apart-before b t (a + u) e bs (omega arith) sp)

pub Spaced-IsFit :
    {want b t : ℕ} {bs r : Blocks}
    → IsFit want bs b t r
    → (lo e : ℕ) → Spaced lo e bs
    → (lo < b) × (0 < t) × Spaced lo e r × Apart b t e r
Spaced-IsFit (here b t bs h) lo e (p, q, sp) = (
  p,
  q,
  Spaced-weaken (b + t) lo e bs (omega arith) sp,
  Apart-before b t (b + t) e bs (omega arith) sp,
)
Spaced-IsFit (there a u b t bs r h fit) lo e (p, q, sp) =
    let (low, full, spaced, apart) = Spaced-IsFit fit (a + u) e sp in
    (omega arith, full, (p, q, spaced), (inr (omega arith), apart))

-- No part of it lies among the others.
pub Apart-part :
    (b t e b' t' : ℕ) (bs : Blocks) → Apart b t e bs → b ≤ b' → b' + t' ≤ b + t → Apart b' t' e bs
Apart-part b t e b' t' [] h p q = omega arith
Apart-part b t e b' t' ((a, u) ∷ bs) (inl h, hs) p q =
    (inl (omega arith), Apart-part b t e b' t' bs hs p q)
Apart-part b t e b' t' ((a, u) ∷ bs) (inr h, hs) p q =
    (inr (omega arith), Apart-part b t e b' t' bs hs p q)

first_of-ge : (lo e : ℕ) (bs : Blocks) → Spaced lo e bs → lo ≤ first_of bs e
first_of-ge lo e [] sp = sp
first_of-ge lo e ((a, u) ∷ bs) (p, q, sp) = omega arith

module _ (m : Manager) (c : Cell) (e : Ptr) (want : ℕ) (some_bytes : 0 < want) where
  -- The search ends at the first fit, and its header and the one before it are as the list says.
  pub find_fit-IsFit :
      {b t : ℕ} {bs r : Blocks}
      → IsFit want bs b t r
      → (k pv w lo : ℕ) → pv ≢ null
      → c pv ≡ link (first_of bs e) w
      → has pv e bs ≡ false
      → Chain c e bs
      → Spaced lo e bs
      → length bs < k
      → (prev : Ptr) × (v : ℕ) × (next : Ptr) × (find_fit k pv (first_of bs e) want (heap m c)
          ≡ ok (prev, b) (heap m c))
        × (prev ≢ null)
        × (c prev ≡ link b v)
        × (c b ≡ link next t)
        × (has prev e ((pv, w) ∷ bs) ≡ true)
        × ((prev == b) ≡ false)
        × Chain (write c prev (link next v)) e ((pv, w) ∷ r)
  unfolding find_fit
  find_fit-IsFit (here b t bs h) zero pv w lo pne cp out chain sp fuel = absurd (omega arith)
  find_fit-IsFit (here b t bs h) (suc k) pv w lo pne cp out (cb, chain) (p, q, sp) fuel =
      let next = first_of bs e in
      let apart : ((pv == b) ≡ false) × (has pv e bs ≡ false) = ground arith in
      (
        pv,
        w,
        next,
        rw (load-ok m c b (link next t) (λ z. omega arith) cb, le→ltb_false t want h) refl,
        pne,
        cp,
        cb,
        ground arith,
        apart.0,
        (write_self c pv (link next w), Chain-write c pv (link next w) e bs apart.1 chain),
      )
  find_fit-IsFit (there a u b t bs r h fit) zero pv w lo pne cp out chain sp fuel =
      absurd (omega arith)
  find_fit-IsFit (there a u b t bs r h fit) (suc k) pv w lo pne cp out (ca, chain) (p, q, sp) fuel =
      let after = first_of bs e in
      let ane : a ≢ null = λ z. omega arith in
      let aout : has a e bs ≡ false = not-has_of_lt a (a + u) e bs (omega arith) sp in
      let (prev, v, next, run, prne, cprev, cb, among, pb, chain') =
        find_fit-IsFit fit k a u (a + u) ane ca aout chain sp (omega arith) in
      let away : (pv == prev) ≡ false = ne_of_has pv prev e ((a, u) ∷ bs) out among in
      (
        prev,
        v,
        next,
        rw
            (
              load-ok m c a (link after u) ane ca,
              lt→ltb u want h,
              ==-false after null (λ z. omega (arith, first_of-ge (a + u) e bs sp)),
            )
            run,
        prne,
        cprev,
        cb,
        ground arith,
        pb,
        (write_other c pv prev (link next v) away ∙ cp, chain'),
      )

  -- Where none fits, it ends at the marker.
  pub find_fit-NoFit :
      (bs : Blocks) (k pv lo : ℕ)
      → NoFit want bs
      → e ≢ null
      → Chain c e bs
      → Spaced lo e bs
      → length bs < k
      → (prev : Ptr) × (find_fit k pv (first_of bs e) want (heap m c) ≡ ok (prev, e) (heap m c))
  unfolding find_fit
  find_fit-NoFit bs zero pv lo small ene chain sp fuel = absurd (omega arith)
  find_fit-NoFit [] (suc k) pv lo small ene chain sp fuel =
      (pv, rw (load-ok m c e (link null 0) ene chain, lt→ltb 0 want some_bytes) refl)
  find_fit-NoFit ((a, u) ∷ bs) (suc k) pv lo (h, small) ene (ca, chain) (p, q, sp) fuel =
      let after = first_of bs e in
      let (prev, run) = find_fit-NoFit bs k a (a + u) small ene chain sp (omega arith) in
      (
        prev,
        rw
            (
              load-ok m c a (link after u) (λ z. omega arith) ca,
              lt→ltb u want h,
              ==-false after null (λ z. omega (arith, first_of-ge (a + u) e bs sp)),
            )
            run,
      )
