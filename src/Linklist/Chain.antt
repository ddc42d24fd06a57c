-- ===== src/Linklist/Chain.antt =====
-- What the nodes of linux/src/linklist.c stand for: a chain of nodes, linked both ways, from one
-- address to another.
use libjoe.Base.{
  ◌≤◌, ℕ, ◌≡◌, refl, ◌∙◌, ◌≢◌, inl, inr, Bool, true, false, not, ◌&&◌, ◌||◌, Option, none, some,
  List, [], ◌∷◌, ◌++◌, arith, ◌==◌, ==_iff, Bool-cases, length,
}
use libjoe.Mem.{Table, ofree_loop}
use libjoe.Mem.Live.{
  used, is_live, is_distinct, used-ofree_loop, is_live-ofree_loop, is_distinct-ofree_loop,
}
use libjoe.Linklist.Store.{Ptr, null, Node, node, Cell, write}

-- Address and `ins` of each node, from `first` to `tail`.
abbrev pub Cells : Type 0
Cells = List (Ptr × ℕ)

abbrev pub has : Ptr → Cells → Bool
has a [] = false
has a ((p, _) ∷ xs) = a == p || has a xs

abbrev pub distinct : Cells → Bool
distinct [] = true
distinct ((p, _) ∷ xs) = not (has p xs) && distinct xs

-- The first address, or `n` where there is no node; the last one, or `b`.
abbrev pub first_of : Cells → Ptr → Ptr
first_of [] n = n
first_of ((p, _) ∷ xs) n = p

abbrev pub last_of : Cells → Ptr → Ptr
last_of [] b = b
last_of ((p, _) ∷ xs) b = last_of xs p

-- The nodes `xs` are linked both ways, with `b` before the first one and `n` after the last one.
abbrev pub Chain : Cell → Ptr → Ptr → Cells → Type 0
Chain c b n [] = Unit {0}
Chain c b n ((p, v) ∷ xs) = (p ≢ null) × (c p ≡ some (node v (first_of xs n) b)) × Chain c p n xs

pub has-append : (a : Ptr) (xs ys : Cells) → has a (xs ++ ys) ≡ (has a xs || has a ys)
has-append a [] ys = refl
has-append a (x ∷ xs) ys = ground (arith, has-append a xs ys)

pub not-has-append :
    (a : Ptr) (xs ys : Cells) → has a (xs ++ ys) ≡ false → (has a xs ≡ false) × (has a ys ≡ false)
not-has-append a xs ys h = ground (arith, has-append a xs ys)

pub not-has-cons :
    (a q w : ℕ) (xs : Cells) → has a ((q, w) ∷ xs) ≡ false → ((a == q) ≡ false) × (has a xs ≡ false)
not-has-cons a q w xs h = ground arith

pub distinct-cons :
    (q w : ℕ) (xs : Cells)
    → distinct ((q, w) ∷ xs) ≡ true
    → (has q xs ≡ false) × (distinct xs ≡ true)
distinct-cons q w xs h = ground arith

pub first_of-append :
    (xs ys : Cells) (n : Ptr) → first_of (xs ++ ys) n ≡ first_of xs (first_of ys n)
first_of-append [] ys n = refl
first_of-append (x ∷ xs) ys n = refl

pub last_of-append : (xs ys : Cells) (b : Ptr) → last_of (xs ++ ys) b ≡ last_of ys (last_of xs b)
last_of-append [] ys b = refl
last_of-append ((p, v) ∷ xs) ys b = last_of-append xs ys p

pub has-last_of : (x : Ptr × ℕ) (xs : Cells) (b : Ptr) → has (last_of (x ∷ xs) b) (x ∷ xs) ≡ true
has-last_of (p, v) [] b = ground arith
has-last_of (p, v) (y ∷ xs) b = ground (arith, has-last_of y xs p)

-- Removing or adding a node in the middle.
pub distinct_middle :
    (xs : Cells) (p : Ptr) (v : ℕ) (ys : Cells)
    → distinct (xs ++ (p, v) ∷ ys) ≡ (not (has p (xs ++ ys)) && distinct (xs ++ ys))
distinct_middle [] p v ys = refl
distinct_middle ((q, w) ∷ xs) p v ys =
    ground (arith, distinct_middle xs p v ys, has-append q xs ((p, v) ∷ ys), has-append q xs ys)

pub distinct_apart :
    (a : Ptr) (xs ys : Cells) → distinct (xs ++ ys) ≡ true → has a xs ≡ true → has a ys ≡ false
distinct_apart a [] ys d h = cc
distinct_apart a ((p, v) ∷ xs) ys d h =
    ground (arith, distinct_apart a xs ys, has-append p xs ys, has-append a xs ys)

-- The parts of a distinct list.
pub distinct_parts :
    (xs ys : Cells) → distinct (xs ++ ys) ≡ true → (distinct xs ≡ true) × (distinct ys ≡ true)
distinct_parts [] ys d = (refl, d)
distinct_parts ((p, v) ∷ xs) ys d = ground (arith, distinct_parts xs ys, has-append p xs ys)

pub distinct_apart_back :
    (a : Ptr) (xs ys : Cells) → distinct (xs ++ ys) ≡ true → has a ys ≡ true → has a xs ≡ false
distinct_apart_back a xs ys d h = elim (Bool-cases (has a xs)) [
  | inl e ↦ cc (distinct_apart a xs ys d e)
  | inr e ↦ e
]

pub ne_of_has : (a b : Ptr) (xs : Cells) → has a xs ≡ false → has b xs ≡ true → (a == b) ≡ false
ne_of_has a b xs out h = elim (Bool-cases (a == b)) [ inl e ↦ cc ((==_iff a b).0 e) | inr e ↦ e ]

pub write_self : (c : Cell) (p : Ptr) (o : Option Node) → write c p o p ≡ o
unfolding write
write_self c p o = ground arith

pub write_other : (c : Cell) (a p : Ptr) (o : Option Node) → (a == p) ≡ false → write c p o a ≡ c a
unfolding write
write_other c a p o h = rw h

and_left : (a b : Bool) → (a && b) ≡ true → a ≡ true
and_left a b h = ground arith

and_right : (a b : Bool) → (a && b) ≡ true → b ≡ true
and_right a b h = ground arith

eq_false_of_not : {a : Bool} → not a ≡ true → a ≡ false
eq_false_of_not h = ground arith

module _ (c : Cell) where
  -- A chain survives any change that spares its own addresses.
  pub Chain-same :
      (g : Cell) (b n : Ptr) (xs : Cells)
      → ((a : Ptr) → has a xs ≡ true → g a ≡ c a)
      → Chain c b n xs
      → Chain g b n xs
  Chain-same g b n [] same s = tt
  Chain-same g b n ((p, v) ∷ xs) same (ne, e, s) =
      (ne, same p (ground arith) ∙ e, Chain-same g p n xs (λ a h. same a (ground arith)) s)

  pub Chain-write :
      (a : Ptr) (o : Option Node) (b n : Ptr) (xs : Cells)
      → has a xs ≡ false
      → Chain c b n xs
      → Chain (write c a o) b n xs
  unfolding write
  Chain-write a o b n xs out = Chain-same (write c a o) b n xs (λ q h. ground arith)

  pub Chain-split :
      (b n : Ptr) (xs ys : Cells)
      → Chain c b n (xs ++ ys)
      → Chain c b (first_of ys n) xs × Chain c (last_of xs b) n ys
  Chain-split b n [] ys s = (tt, s)
  Chain-split b n ((p, v) ∷ xs) ys (ne, e, s) =
      let rest = Chain-split p n xs ys s in ((ne, e ∙ (rw first_of-append), rest.0), rest.1)

  pub Chain-append :
      (b n : Ptr) (xs ys : Cells)
      → Chain c b (first_of ys n) xs
      → Chain c (last_of xs b) n ys
      → Chain c b n (xs ++ ys)
  Chain-append b n [] ys s t = t
  Chain-append b n ((p, v) ∷ xs) ys (ne, e, s) t =
      (ne, e ∙ (rw first_of-append), Chain-append p n xs ys s t)

  -- The last node of a chain, and the chain once its `next` is changed.
  pub relink_next :
      (b n m : Ptr) (x : Ptr × ℕ) (xs : Cells)
      → distinct (x ∷ xs) ≡ true
      → Chain c b n (x ∷ xs)
      → let l = last_of (x ∷ xs) b in
        (nd : Node) × (l ≢ null)
        × (c l ≡ some nd)
        × (nd.next ≡ n)
        × Chain (write c l (some (record nd { next = m }))) b m (x ∷ xs)
  unfolding write
  relink_next b n m (p, v) [] d (ne, e, s) = (node v n b, ne, e, refl, (ne, ground arith, tt))
  relink_next b n m (p, v) (y ∷ xs) d (ne, e, s) =
      let (nd, lne, le, ln, chain) =
        relink_next p n m y xs (and_right (not (has p (y ∷ xs))) _ d) s in
      let apart =
        ne_of_has p (last_of (y ∷ xs) p) (y ∷ xs)
          (eq_false_of_not (and_left (not (has p (y ∷ xs))) _ d)) (has-last_of y xs p) in
      (nd, lne, le, ln, (ne, write_other c p _ _ apart ∙ e, chain))

  -- The first node of a chain, and the chain once its `prev` is changed.
  pub relink_prev :
      (b d n : Ptr) (p : Ptr) (v : ℕ) (xs : Cells)
      → has p xs ≡ false
      → Chain c b n ((p, v) ∷ xs)
      → Chain (write c p (some (node v (first_of xs n) d))) d n ((p, v) ∷ xs)
  unfolding write
  relink_prev b d n p v xs out (ne, e, s) =
      (ne, ground arith, Chain-write p (some (node v (first_of xs n) d)) p n xs out s)

  -- An address that holds no node is none of the chain's.
  pub not-has_of_none : (a b n : Ptr) (xs : Cells) → c a ≡ none → Chain c b n xs → has a xs ≡ false
  not-has_of_none a b n [] e s = refl
  not-has_of_none a b n ((p, v) ∷ xs) e (ne, q, s) = ground (arith, not-has_of_none a p n xs e s)

-- Every node is a live block of the log.
abbrev pub Owned : Table → Cells → Type 0
Owned t [] = Unit {0}
Owned t ((p, v) ∷ xs) = (is_live p t ≡ true) × Owned t xs

pub Owned-same :
    (t u : Table) (xs : Cells)
    → ((a : Ptr) → has a xs ≡ true → is_live a t ≡ true → is_live a u ≡ true)
    → Owned t xs
    → Owned u xs
Owned-same t u [] same o = tt
Owned-same t u ((p, v) ∷ xs) same (l, o) =
    (same p (ground arith) l, Owned-same t u xs (λ a h. same a (ground arith)) o)

pub Owned-append : (t : Table) (xs ys : Cells) → Owned t xs → Owned t ys → Owned t (xs ++ ys)
Owned-append t [] ys o q = q
Owned-append t (x ∷ xs) ys (l, o) q = (l, Owned-append t xs ys o q)

pub Owned-split : (t : Table) (xs ys : Cells) → Owned t (xs ++ ys) → Owned t xs × Owned t ys
Owned-split t [] ys o = (tt, o)
Owned-split t (x ∷ xs) ys (l, o) = let r = Owned-split t xs ys o in ((l, r.0), r.1)

abbrev pub NonNull : Cells → Type 0
NonNull [] = Unit {0}
NonNull ((p, v) ∷ xs) = (p ≢ null) × NonNull xs

pub Chain-NonNull : (c : Cell) (b n : Ptr) (xs : Cells) → Chain c b n xs → NonNull xs
Chain-NonNull c b n [] s = tt
Chain-NonNull c b n ((p, v) ∷ xs) (ne, e, s) = (ne, Chain-NonNull c p n xs s)

pub NonNull-append : (xs ys : Cells) → NonNull xs → NonNull ys → NonNull (xs ++ ys)
NonNull-append [] ys n m = m
NonNull-append (x ∷ xs) ys (ne, n) m = (ne, NonNull-append xs ys n m)

pub ne_null_of_has : (a : Ptr) (xs : Cells) → NonNull xs → has a xs ≡ true → a ≢ null
ne_null_of_has a [] n h = cc
ne_null_of_has a ((p, v) ∷ xs) (ne, n) h = ground (arith, ne_null_of_has a xs n)

-- Taking one block out of the log leaves the others.
pub Owned-removed :
    (p : Ptr) (t : Table) (xs : Cells)
    → p ≢ 0
    → is_distinct t ≡ true
    → has p xs ≡ false
    → NonNull xs
    → Owned t xs
    → Owned (ofree_loop p t).1 xs
Owned-removed p t [] pne dt out n o = tt
Owned-removed p t ((q, v) ∷ xs) pne dt out (ne, n) (l, o) = (
  is_live-ofree_loop p pne q t ne dt ∙ ground arith,
  Owned-removed p t xs pne dt (ground arith) n o,
)

-- Distinct blocks are no more than the taken slots: the log bounds the length of a list.
pub length-le-used :
    (xs : Cells) (t : Table)
    → is_distinct t ≡ true
    → distinct xs ≡ true
    → NonNull xs
    → Owned t xs
    → length xs ≤ used t
length-le-used [] t dt d n o = omega arith
length-le-used ((p, v) ∷ xs) t dt d (ne, n) (l, o) =
    let out : has p xs ≡ false = eq_false_of_not (and_left (not (has p xs)) _ d) in
    let shorter =
      length-le-used xs (ofree_loop p t).1 (is_distinct-ofree_loop p ne t dt)
        (and_right (not (has p xs)) _ d) n (Owned-removed p t xs ne dt out n o) in
    omega (arith, used-ofree_loop p ne t l, shorter)
