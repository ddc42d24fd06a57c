-- ===== src/Base/Command.antt =====
-- Runs of C functions over a state: commands that may fault or run out of fuel.

pub data Run (S A : Type 0) : Type 0 where
  ok : A → S → Run S A
  fault : Run S A
  out_of_fuel : Run S A

abbrev pub pure : {S A : Type 0} → A → S → Run S A
pure = ok

module _ {S A B : Type 0} where
  abbrev pub and_then : Run S A → (A → S → Run S B) → Run S B
  and_then (ok a s) k = k a s
  and_then fault k = fault
  and_then out_of_fuel k = out_of_fuel

  infixl 5 ◌>>=◌ ◌>>◌
  abbrev pub ◌>>=◌ : (S → Run S A) → (A → S → Run S B) → S → Run S B
  m >>= k = λ s. and_then (m s) k

  abbrev pub ◌>>◌ : (S → Run S A) → (S → Run S B) → S → Run S B
  m >> n = m >>= λ _. n

-- Total correctness: the run comes to an end with no fault, and `P` holds of its outcome.
abbrev pub Ensures : {S A : Type 0} → (A → S → Type 0) → Run S A → Type 0
Ensures P (ok a s) = P a s
Ensures P fault = ⊥
Ensures P out_of_fuel = ⊥

-- Partial correctness: the run has no fault, and `P` holds of its outcome if it comes to an end.
abbrev pub Safe : {S A : Type 0} → (A → S → Type 0) → Run S A → Type 0
Safe P (ok a s) = P a s
Safe P fault = ⊥
Safe P out_of_fuel = Unit {0}

pub Safe-and_then :
    {S A B : Type 0} (P : A → S → Type 0) (Q : B → S → Type 0) (r : Run S A) (k : A → S → Run S B)
    → Safe P r
    → ((a : A) (s : S) → P a s → Safe Q (k a s))
    → Safe Q (and_then r k)
Safe-and_then P Q (ok a s) k h next = next a s h
Safe-and_then P Q fault k h next = h
Safe-and_then P Q out_of_fuel k h next = tt

pub Safe-weaken :
    {S A : Type 0} (P Q : A → S → Type 0) (r : Run S A)
    → Safe P r
    → ((a : A) (s : S) → P a s → Q a s)
    → Safe Q r
Safe-weaken P Q (ok a s) h imp = imp a s h
Safe-weaken P Q fault h imp = h
Safe-weaken P Q out_of_fuel h imp = tt

pub Ensures-and_then :
    {S A B : Type 0} (P : A → S → Type 0) (Q : B → S → Type 0) (r : Run S A) (k : A → S → Run S B)
    → Ensures P r
    → ((a : A) (s : S) → P a s → Ensures Q (k a s))
    → Ensures Q (and_then r k)
Ensures-and_then P Q (ok a s) k h next = next a s h
Ensures-and_then P Q fault k h next = h
Ensures-and_then P Q out_of_fuel k h next = h

pub Ensures-weaken :
    {S A : Type 0} (P Q : A → S → Type 0) (r : Run S A)
    → Ensures P r
    → ((a : A) (s : S) → P a s → Q a s)
    → Ensures Q r
Ensures-weaken P Q (ok a s) h imp = imp a s h
Ensures-weaken P Q fault h imp = h
Ensures-weaken P Q out_of_fuel h imp = h
