-- ===== src/MsgQ/Ring.antt =====
-- The ring that the event clients of a server of linux/src/msgQ.c form with its `head`: a closed path of
-- addresses, linked both ways. Links are functions here, `f` for `next` and `g` for `prev`.
use libjoe.Base.{
  ◌≡◌, refl, ◌∙◌, Bool, true, false, not, ◌&&◌, ◌||◌, Option, some, List, [], ◌∷◌, ◌++◌, arith,
  ◌==◌, inl, inr, Bool-cases, ==_iff, ==-sym_false,
}
use libjoe.MsgQ.System.{Ptr}

abbrev pub mem : Ptr → List Ptr → Bool
mem x [] = false
mem x (p ∷ ps) = x == p || mem x ps

abbrev pub distinct : List Ptr → Bool
distinct [] = true
distinct (p ∷ ps) = not (mem p ps) && distinct ps

abbrev pub first_of : List Ptr → Ptr → Ptr
first_of [] z = z
first_of (p ∷ ps) z = p

abbrev pub last_of : Ptr → List Ptr → Ptr
last_of a [] = a
last_of a (p ∷ ps) = last_of p ps

abbrev pub Links : Type 0
Links = Ptr → Option Ptr

-- From `a` by way of `ps` to `z`, there and back.
abbrev pub LinkPath : Links → Links → Ptr → List Ptr → Ptr → Type 0
LinkPath f g a [] z = (f a ≡ some z) × (g z ≡ some a)
LinkPath f g a (p ∷ ps) z = (f a ≡ some p) × (g p ≡ some a) × LinkPath f g p ps z

pub mem-last_of : (a : Ptr) (ps : List Ptr) → mem (last_of a ps) (a ∷ ps) ≡ true
mem-last_of a [] = ground arith
mem-last_of a (p ∷ ps) = ground (arith, mem-last_of p ps)

pub mem-first_of : (ps : List Ptr) (z : Ptr) → mem (first_of ps z) (z ∷ ps) ≡ true
mem-first_of [] z = ground arith
mem-first_of (p ∷ ps) z = ground arith

pub ne_of_mem : (x y : Ptr) (ps : List Ptr) → mem x ps ≡ false → mem y ps ≡ true → (x == y) ≡ false
ne_of_mem x y ps out h = elim (Bool-cases (x == y)) [
  | inl same ↦ cc ((==_iff x y).0 same)
  | inr apart ↦ apart
]

pub mem-append : (x : Ptr) (ps qs : List Ptr) → mem x (ps ++ qs) ≡ (mem x ps || mem x qs)
mem-append x [] qs = refl
mem-append x (p ∷ ps) qs = ground (arith, mem-append x ps qs)

pub distinct-append_last :
    (ps : List Ptr) (q : Ptr)
    → distinct ps ≡ true
    → mem q ps ≡ false
    → distinct (ps ++ q ∷ []) ≡ true
distinct-append_last [] q d out = refl
distinct-append_last (p ∷ ps) q d out =
    ground (arith, distinct-append_last ps q, mem-append p ps (q ∷ []))

pub distinct_middle :
    (ps : List Ptr) (q : Ptr) (qs : List Ptr)
    → distinct (ps ++ q ∷ qs) ≡ true
    → (mem q (ps ++ qs) ≡ false) × (distinct (ps ++ qs) ≡ true)
distinct_middle [] q qs d = ground arith
distinct_middle (p ∷ ps) q qs d =
    ground (arith, distinct_middle ps q qs, mem-append p ps (q ∷ qs), mem-append p ps qs)

module _ (f g f' g' : Links) where
  pub LinkPath-same :
      (a : Ptr) (ps : List Ptr) (z : Ptr)
      → ((x : Ptr) → mem x (a ∷ ps) ≡ true → f' x ≡ f x)
      → ((x : Ptr) → mem x (z ∷ ps) ≡ true → g' x ≡ g x)
      → LinkPath f g a ps z
      → LinkPath f' g' a ps z
  LinkPath-same a [] z sf sg (n, p) = (sf a (ground arith) ∙ n, sg z (ground arith) ∙ p)
  LinkPath-same a (p ∷ ps) z sf sg (n, b, rest) = (
    sf a (ground arith) ∙ n,
    sg p (ground arith) ∙ b,
    LinkPath-same p ps z (λ x h. sf x (ground arith)) (λ x h. sg x (ground arith)) rest,
  )

  -- One address more, behind the last one.
  pub LinkPath-append_last :
      (a : Ptr) (ps : List Ptr) (z q : Ptr)
      → distinct (a ∷ ps) ≡ true
      → f' q ≡ some z
      → f' (last_of a ps) ≡ some q
      → g' z ≡ some q
      → g' q ≡ some (last_of a ps)
      → ((x : Ptr) → mem x (a ∷ ps) ≡ true → (x == last_of a ps) ≡ false → f' x ≡ f x)
      → ((x : Ptr) → mem x ps ≡ true → g' x ≡ g x)
      → LinkPath f g a ps z
      → LinkPath f' g' a (ps ++ q ∷ []) z
  LinkPath-append_last a [] z q d fq fl gz gq sf sg (n, b) = (fl, gq, (fq, gz))
  LinkPath-append_last a (p ∷ ps) z q d fq fl gz gq sf sg (n, b, rest) =
      let apart : (a == last_of p ps) ≡ false =
        ne_of_mem a (last_of p ps) (p ∷ ps) (ground arith) (mem-last_of p ps) in
      (
        sf a (ground arith) apart ∙ n,
        sg p (ground arith) ∙ b,
        LinkPath-append_last p ps z q (ground arith) fq fl gz gq (λ x h. sf x (ground arith))
            (λ x h. sg x (ground arith)) rest,
      )

  -- One address less.
  pub LinkPath-remove :
      (a : Ptr) (ps : List Ptr) (q : Ptr) (qs : List Ptr) (z : Ptr)
      → distinct (a ∷ ps ++ q ∷ qs) ≡ true
      → mem z (ps ++ q ∷ qs) ≡ false
      → f' (last_of a ps) ≡ some (first_of qs z)
      → g' (first_of qs z) ≡ some (last_of a ps)
      → ((x : Ptr) → mem x (a ∷ ps ++ qs) ≡ true → (x == last_of a ps) ≡ false → f' x ≡ f x)
      → ((x : Ptr) → mem x (z ∷ ps ++ qs) ≡ true → (x == first_of qs z) ≡ false → g' x ≡ g x)
      → LinkPath f g a (ps ++ q ∷ qs) z
      → LinkPath f' g' a (ps ++ qs) z
  LinkPath-remove a [] q [] z d out fl gf sf sg (n, b, rest) = (fl, gf)
  LinkPath-remove a [] q (y ∷ qs) z d out fl gf sf sg (n, b, (n', b', rest)) = (
    fl,
    gf,
    LinkPath-same y qs z
        (λ x h. sf x (ground arith) (==-sym_false a x (ne_of_mem a x (y ∷ qs) (ground arith) h)))
        (λ x h. sg x (ground arith) (==-sym_false y x (ne_of_mem y x (z ∷ qs) (ground arith) h)))
        rest,
  )
  LinkPath-remove a (p ∷ ps) q qs z d out fl gf sf sg (n, b, rest) = (
    sf a (ground arith) (
          ne_of_mem a (last_of p ps) (p ∷ ps) (ground (arith, mem-append a ps (q ∷ qs)))
            (mem-last_of p ps))
        ∙ n,
    sg p (ground arith) (
          ne_of_mem p (first_of qs z) (z ∷ qs) (ground (arith, mem-append p ps (q ∷ qs)))
            (mem-first_of qs z))
        ∙ b,
    LinkPath-remove p ps q qs z (ground arith) (ground arith) fl gf (λ x h. sf x (ground arith))
        (λ x h. sg x (ground arith)) rest,
  )
