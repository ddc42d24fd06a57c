-- ===== src/MemoryManager/Chain.antt =====
-- How the headers in memory link the blocks of a free list of rtos/src/memory_manager.c, and what the
-- commands do at a header that is known.
use libjoe.Base.{
  ℕ, ◌+◌, ◌<◌, ◌≡◌, ◌∙◌, ◌≢◌, Bool, true, false, ◌||◌, [], ◌∷◌, arith, ◌==◌, ==-false, ==_iff,
  Bool-cases, inl, inr, ok,
}
use libjoe.MemoryManager.Store.{
  Ptr, null, BlockLink, link, Manager, Cell, write, Heap, load, set_next, set_size,
}
use libjoe.MemoryManager.FreeList.{Blocks, first_of, Spaced, Apart}

abbrev pub heap : Manager → Cell → Heap
heap m c = record { mgr = m; cell = c }

-- The headers of the blocks, each leading to the next one and the last to the marker at `e`.
abbrev pub Chain : Cell → Ptr → Blocks → Type 0
Chain c e [] = c e ≡ link null 0
Chain c e ((a, s) ∷ bs) = (c a ≡ link (first_of bs e) s) × Chain c e bs

-- A header of the list, the marker's included.
abbrev pub has : Ptr → Ptr → Blocks → Bool
has x e [] = x == e
has x e ((a, s) ∷ bs) = x == a || has x e bs

pub write_self : (c : Cell) (p : Ptr) (b : BlockLink) → write c p b p ≡ b
unfolding write
write_self c p b = ground arith

pub write_other : (c : Cell) (x p : Ptr) (b : BlockLink) → (x == p) ≡ false → write c p b x ≡ c x
unfolding write
write_other c x p b h = rw h

pub Chain-same :
    (c g : Cell) (e : Ptr) (bs : Blocks)
    → ((x : Ptr) → has x e bs ≡ true → g x ≡ c x)
    → Chain c e bs
    → Chain g e bs
Chain-same c g e [] same h = same e (ground arith) ∙ h
Chain-same c g e ((a, s) ∷ bs) same (h, hs) =
    (same a (ground arith) ∙ h, Chain-same c g e bs (λ x i. same x (ground arith)) hs)

pub Chain-write :
    (c : Cell) (p : Ptr) (b : BlockLink) (e : Ptr) (bs : Blocks)
    → has p e bs ≡ false
    → Chain c e bs
    → Chain (write c p b) e bs
unfolding write
Chain-write c p b e bs out = Chain-same c (write c p b) e bs (λ x i. ground arith)

pub ne_of_has :
    (x y e : ℕ) (bs : Blocks) → has x e bs ≡ false → has y e bs ≡ true → (x == y) ≡ false
ne_of_has x y e bs out h = elim (Bool-cases (x == y)) [
  | inl same ↦ cc ((==_iff x y).0 same)
  | inr apart ↦ apart
]

-- An address in front of the list is none of its headers.
pub not-has_of_lt : (x lo e : ℕ) (bs : Blocks) → x < lo → Spaced lo e bs → has x e bs ≡ false
not-has_of_lt x lo e [] h sp = ==-false x e (λ q. omega arith)
not-has_of_lt x lo e ((a, s) ∷ bs) h (p, q, sp) =
    ground (arith, not-has_of_lt x (a + s) e bs (omega arith) sp)

-- Nor is that of a block that is apart.
pub not-has_of_Apart :
    (a s e lo : ℕ) (bs : Blocks) → 0 < s → Apart a s e bs → Spaced lo e bs → has a e bs ≡ false
not-has_of_Apart a s e lo [] q h sp = ==-false a e (λ z. omega arith)
not-has_of_Apart a s e lo ((b, t) ∷ bs) q (h, hs) (pb, qb, sp) =
    ground (arith, h, not-has_of_Apart a s e (b + t) bs q hs sp)

module _ (m : Manager) (c : Cell) (p : Ptr) (b : BlockLink) (ne : p ≢ null) (e : c p ≡ b) where
  pub load-ok : load p (heap m c) ≡ ok b (heap m c)
  unfolding load
  load-ok = rw (==-false p null ne, e)

  pub set_next-ok :
      (q : Ptr) → set_next p q (heap m c) ≡ ok tt (heap m (write c p (link q b.block_size)))
  unfolding set_next
  set_next-ok q = rw (==-false p null ne, e)

  pub set_size-ok :
      (s : ℕ) → set_size p s (heap m c) ≡ ok tt (heap m (write c p (link b.next_free_block s)))
  unfolding set_size
  set_size-ok s = rw (==-false p null ne, e)
