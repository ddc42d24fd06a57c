-- ===== src/MsgQ/View.antt =====
-- The memory of linux/src/msgQ.c as three functions: where the links of each event client lead, and which
-- queue it has; and what each command does to them.
use libjoe.Base.{
  ◌≡◌, refl, ◌∙◌, ◌≢◌, Bool, true, false, Option, none, some, ℤ, arith, ◌==◌, ==-false,
  if◌then◌else◌, ok, fault, inl, inr, Bool-cases, sym, ap, ==_iff,
}
use libjoe.Timer.Functions.{Timer}
use libjoe.MsgQ.System.{Ptr, null, EveClt, Cell, write, State}
use libjoe.MsgQ.Commands.{load, set_next, set_prev, set_timer}
use libjoe.MsgQ.Ring.{Links}

abbrev pub next_in : Option EveClt → Option Ptr
next_in none = none
next_in (some n) = some n.next

unfoldable pub next_of : Cell → Links
next_of c x = next_in (c x)

abbrev pub prev_in : Option EveClt → Option Ptr
prev_in none = none
prev_in (some n) = some n.prev

unfoldable pub prev_of : Cell → Links
prev_of c x = prev_in (c x)

abbrev pub qid_in : Option EveClt → Option ℤ
qid_in none = none
qid_in (some n) = some n.qid

unfoldable pub qid_of : Cell → Ptr → Option ℤ
qid_of c x = qid_in (c x)

abbrev pub upd : Links → Ptr → Ptr → Links
upd f p q x = if x == p then some q else f x

-- From `c` to `c'` the links become `f` and `g`, and the queues stay.
pub record Relinks (c c' : Cell) (f g : Links) : Type 0 where
  pub nexts : (x : Ptr) → next_of c' x ≡ f x
  pub prevs : (x : Ptr) → prev_of c' x ≡ g x
  pub qids : (x : Ptr) → qid_of c' x ≡ qid_of c x

qid_in-some :
    (o : Option EveClt) (q : ℤ) → qid_in o ≡ some q → (n : EveClt) × (o ≡ some n) × (n.qid ≡ q)
qid_in-some none q e = cc
qid_in-some (some n) q e = (n, refl, ground arith)

qid_in-none : (o : Option EveClt) → qid_in o ≡ none → o ≡ none
qid_in-none none e = refl
qid_in-none (some n) e = cc

if_map :
    {A B : Type 0} (f : A → B) (b : Bool) (u v : A)
    → f (if b then u else v) ≡ (if b then f u else f v)
if_map f true u v = refl
if_map f false u v = refl

-- A client that has a queue is there.
pub at_qid :
    (c : Cell) (p : Ptr) (q : ℤ) → qid_of c p ≡ some q → (n : EveClt) × (c p ≡ some n) × (n.qid ≡ q)
unfolding qid_of
at_qid c p q h = qid_in-some (c p) q h

pub links_at :
    (c : Cell) (p : Ptr) (n : EveClt)
    → c p ≡ some n
    → (next_of c p ≡ some n.next) × (prev_of c p ≡ some n.prev) × (qid_of c p ≡ some n.qid)
unfolding next_of prev_of qid_of
links_at c p n e = (ap next_in e, ap prev_in e, ap qid_in e)

module _ (c : Cell) (p : Ptr) (n : EveClt) (x : Ptr) where
  pub next_of-write : next_of (write c p (some n)) x ≡ (if x == p then some n.next else next_of c x)
  unfolding next_of write
  next_of-write = if_map next_in (x == p) (some n) (c x)

  pub prev_of-write : prev_of (write c p (some n)) x ≡ (if x == p then some n.prev else prev_of c x)
  unfolding prev_of write
  prev_of-write = if_map prev_in (x == p) (some n) (c x)

  pub qid_of-write : qid_of (write c p (some n)) x ≡ (if x == p then some n.qid else qid_of c x)
  unfolding qid_of write
  qid_of-write = if_map qid_in (x == p) (some n) (c x)

-- A write leaves the other addresses alone.
pub write-other :
    (c : Cell) (p : Ptr) (o : Option EveClt) (x : Ptr)
    → (x == p) ≡ false
    → (next_of (write c p o) x ≡ next_of c x)
      × (prev_of (write c p o) x ≡ prev_of c x)
      × (qid_of (write c p o) x ≡ qid_of c x)
unfolding next_of prev_of qid_of write
write-other c p o x h = rw h (refl, refl, refl)

pub qid_of-none : (c : Cell) (p : Ptr) → c p ≡ none → qid_of c p ≡ none
unfolding qid_of
qid_of-none c p e = ap qid_in e

pub qid_of-freed : (c : Cell) (p : Ptr) → qid_of (write c p none) p ≡ none
unfolding qid_of write
qid_of-freed c p = let here : (p == p) ≡ true = ground arith in rw here refl

kept :
    {A : Type 0} (f : Ptr → Option A) (p x : Ptr) (v : A)
    → f p ≡ some v
    → (if x == p then some v else f x) ≡ f x
kept f p x v e = elim (Bool-cases (x == p)) [
  | inl same ↦ rw same (sym e ∙ ap f (sym ((==_iff x p).0 same)))
  | inr apart ↦ rw apart refl
]

-- An address with no queue holds no client.
pub cell-none : (c : Cell) (p : Ptr) → qid_of c p ≡ none → c p ≡ none
unfolding qid_of
cell-none c p e = qid_in-none (c p) e

pub load-freed :
    {W : Type 0} (st : State W) (p : Ptr) → p ≢ null → qid_of st.cell p ≡ none → load p st ≡ fault
unfolding load
load-freed st p ne e = rw (==-false p null ne, cell-none st.cell p e) refl

module _ {W : Type 0} (st : State W) (p : Ptr) (n : EveClt) (ne : p ≢ null)
    (e : st.cell p ≡ some n) where
  pub load-ok : load p st ≡ ok n st
  unfolding load
  load-ok = rw (==-false p null ne, e)

  pub set_next-ok :
      (q : Ptr)
      → (c' : Cell) × (set_next p q st ≡ ok tt (record st { cell = c' }))
        × Relinks st.cell c' (upd (next_of st.cell) p q) (prev_of st.cell)
  unfolding set_next
  set_next-ok q = (
    write st.cell p (some (record n { next = q })),
    rw (==-false p null ne, e),
    record {
      nexts = λ x. next_of-write st.cell p (record n { next = q }) x;
      prevs = λ x.
          prev_of-write st.cell p (record n { next = q }) x
          ∙ kept (prev_of st.cell) p x n.prev (links_at st.cell p n e).1;
      qids = λ x.
          qid_of-write st.cell p (record n { next = q }) x
          ∙ kept (qid_of st.cell) p x n.qid (links_at st.cell p n e).2;
    },
  )

  pub set_prev-ok :
      (q : Ptr)
      → (c' : Cell) × (set_prev p q st ≡ ok tt (record st { cell = c' }))
        × Relinks st.cell c' (next_of st.cell) (upd (prev_of st.cell) p q)
  unfolding set_prev
  set_prev-ok q = (
    write st.cell p (some (record n { prev = q })),
    rw (==-false p null ne, e),
    record {
      nexts = λ x.
          next_of-write st.cell p (record n { prev = q }) x
          ∙ kept (next_of st.cell) p x n.next (links_at st.cell p n e).0;
      prevs = λ x. prev_of-write st.cell p (record n { prev = q }) x;
      qids = λ x.
          qid_of-write st.cell p (record n { prev = q }) x
          ∙ kept (qid_of st.cell) p x n.qid (links_at st.cell p n e).2;
    },
  )

  pub set_timer-ok :
      (t : Timer)
      → (c' : Cell) × (set_timer p t st ≡ ok tt (record st { cell = c' }))
        × Relinks st.cell c' (next_of st.cell) (prev_of st.cell)
  unfolding set_timer
  set_timer-ok t = (
    write st.cell p (some (record n { timer = t })),
    rw (==-false p null ne, e),
    record {
      nexts = λ x.
          next_of-write st.cell p (record n { timer = t }) x
          ∙ kept (next_of st.cell) p x n.next (links_at st.cell p n e).0;
      prevs = λ x.
          prev_of-write st.cell p (record n { timer = t }) x
          ∙ kept (prev_of st.cell) p x n.prev (links_at st.cell p n e).1;
      qids = λ x.
          qid_of-write st.cell p (record n { timer = t }) x
          ∙ kept (qid_of st.cell) p x n.qid (links_at st.cell p n e).2;
    },
  )
