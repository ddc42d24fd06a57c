-- ===== src/MsgQ/Sample.antt =====
-- A concrete system for the tests of linux/src/msgQ.c: queues as lists of packages, and one block of memory.
use libjoe.Base.{
  ℕ, ◌+◌, ◌≡◌, ◌≤◌, ◌<◌, refl, sym, ap, ◌∙◌, ◌≢◌, Bool, true, false, not, ◌&&◌, Option, none, some,
  List, [], ◌∷◌, ◌++◌, ℤ, pos, eq_ℤ, arith, leb, if◌then◌else◌, length,
}
use libjoe.Mem.Live.{is_live}
use libjoe.MsgQ.System.{
  Package, xid_size, EveClt, System, Errno, IsLibc, Answer, got, failed, enomsg, e2big, eidrm,
}
use libjoe.MsgQ.Queue.{IsQueue, wanted, none_wanted}

abbrev pub Queues : Type 0
Queues = ℤ → List Package

abbrev pub put_in : ℤ → Package → Queues → Queues
put_in q p w r = if eq_ℤ r q then w r ++ p ∷ [] else w r

abbrev pub pick : (size : ℕ) (t : ℤ) → List Package → Answer Package × List Package
pick size t [] = (failed enomsg, [])
pick size t (p ∷ ps) =
    let rest = pick size t ps in
    if wanted t p
    then (if leb (xid_size + length p.bytes) size then (got p, ps) else (failed e2big, p ∷ ps))
    else (rest.0, p ∷ rest.1)

abbrev pub left_in : ℤ → List Package → Queues → Queues
left_in q ps w r = if eq_ℤ r q then ps else w r

abbrev pub space : Option EveClt → Bool → ℕ
space none false = 4000
space _ _ = 0

-- Queue 99 is gone; the clock stands still.
abbrev pub system : (pid : ℤ) → System Queues
system pid = record {
  pid = pid;
  msgsnd = λ q p nowait w. if eq_ℤ q (pos 99) then (failed eidrm, w) else (got tt, put_in q p w);
  msgrcv = λ q size t nowait w. let r = pick size t (w q) in (r.0, left_in q r.1 w);
  msg_qnum = λ q w. (got (pos (length (w q))), w);
  remove = λ q w. (got tt, w);
  clock = λ w. (some record { tv_sec = pos 100; tv_nsec = pos 5 }, w);
  usleep = λ w. w;
  hand = λ f bytes w. (pos 0, w);
  stat = λ w. (false, w);
  mkdir = λ w. (false, w);
  exists = λ name w. (true, w);
  create = λ name w. (false, w);
  ftok = λ name w. (pos 1, w);
  msgget = λ key create w. (got (pos 3), w);
  malloc = λ st n. space (st.cell 4000) (is_live 4000 st.log);
  stamp = λ s. s;
  event_name = λ s. s;
}

space_cases :
    (o : Option EveClt) (b : Bool) → space o b ≢ 0 → (o ≡ none) × (b ≡ false) × (space o b ≡ 4000)
space_cases none false h = (refl, refl, refl)
space_cases none true h = elim (h refl) [ ]
space_cases (some n) false h = elim (h refl) [ ]
space_cases (some n) true h = elim (h refl) [ ]

pub system-IsLibc : (pid : ℤ) → IsLibc (system pid)
system-IsLibc pid = record {
  fresh_cell = λ st n h.
      let (c, _, e) = space_cases (st.cell 4000) (is_live 4000 st.log) h in ap st.cell e ∙ c;
  fresh_log = λ st n h.
      let (_, l, e) = space_cases (st.cell 4000) (is_live 4000 st.log) h in
      ap (λ p. is_live p st.log) e ∙ l;
}

not_and : (b c : Bool) → (not b && c) ≡ true → (b ≡ false) × (c ≡ true)
not_and true c h = cc h
not_and false c h = (refl, h)

pick-got :
    (size : ℕ) (t : ℤ) (ps : List Package) (p : Package) (qs : List Package)
    → none_wanted t ps ≡ true
    → wanted t p ≡ true
    → xid_size + length p.bytes ≤ size
    → pick size t (ps ++ p ∷ qs) ≡ (got p, ps ++ qs)
pick-got size t [] p qs before here fits =
    let ok : leb (xid_size + length p.bytes) size ≡ true = ground arith in rw (here, ok) refl
pick-got size t (o ∷ ps) p qs before here fits =
    let (other, later) = not_and (wanted t o) (none_wanted t ps) before in
    rw (other, pick-got size t ps p qs later here fits) refl

pick-e2big :
    (size : ℕ) (t : ℤ) (ps : List Package) (p : Package) (qs : List Package)
    → none_wanted t ps ≡ true
    → wanted t p ≡ true
    → size < xid_size + length p.bytes
    → pick size t (ps ++ p ∷ qs) ≡ (failed e2big, ps ++ p ∷ qs)
pick-e2big size t [] p qs before here big =
    let no : leb (xid_size + length p.bytes) size ≡ false = ground arith in rw (here, no) refl
pick-e2big size t (o ∷ ps) p qs before here big =
    let (other, later) = not_and (wanted t o) (none_wanted t ps) before in
    rw (other, pick-e2big size t ps p qs later here big) refl

left_in-same : (q : ℤ) (ps : List Package) (w : Queues) → left_in q ps w q ≡ ps
left_in-same q ps w = let same : eq_ℤ q q ≡ true = ground arith in rw same refl

abbrev pub held : ℤ → Queues → List Package
held q w = w q

put_in-same : (q : ℤ) (p : Package) (w : Queues) → put_in q p w q ≡ w q ++ p ∷ []
put_in-same q p w = let same : eq_ℤ q q ≡ true = ground arith in rw same refl

abbrev snd_at : ℤ → Package → Queues → Bool → Answer (Unit {0}) × Queues
snd_at q p w gone = if gone then (failed eidrm, w) else (got tt, put_in q p w)

snd_at-got :
    (q : ℤ) (p : Package) (w : Queues) (gone : Bool)
    → (snd_at q p w gone).0 ≡ got tt
    → (snd_at q p w gone).1 q ≡ w q ++ p ∷ []
snd_at-got q p w true e = cc e
snd_at-got q p w false e = put_in-same q p w

snd_at-failed :
    (q : ℤ) (p : Package) (w : Queues) (gone : Bool) (er : Errno)
    → (snd_at q p w gone).0 ≡ failed er
    → (snd_at q p w gone).1 q ≡ w q
snd_at-failed q p w true er e = refl
snd_at-failed q p w false er e = cc e

pub system-IsQueue : (pid : ℤ) → IsQueue held (system pid)
system-IsQueue pid = record {
  sent = λ q p nowait w e. snd_at-got q p w (eq_ℤ q (pos 99)) e;
  refused = λ q p nowait w er e. snd_at-failed q p w (eq_ℤ q (pos 99)) er e;
  taken = λ q size t nowait w ps p qs h before here fits.
      let r : pick size t (w q) ≡ (got p, ps ++ qs) =
        rw h (pick-got size t ps p qs before here fits) in
      (ap (λ x. x.0) r, left_in-same q (pick size t (w q)).1 w ∙ ap (λ x. x.1) r);
  too_big = λ q size t nowait w ps p qs h before here big.
      let r : pick size t (w q) ≡ (failed e2big, ps ++ p ∷ qs) =
        rw h (pick-e2big size t ps p qs before here big) in
      (ap (λ x. x.0) r, left_in-same q (pick size t (w q)).1 w ∙ ap (λ x. x.1) r ∙ sym h);
  clock = λ q w. refl;
}
