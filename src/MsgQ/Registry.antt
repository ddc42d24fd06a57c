-- ===== src/MsgQ/Registry.antt =====
-- What the event clients of a server of linux/src/msgQ.c stand for: a sequence of addresses, each with
-- its queue. `msgQ_srv_add` puts one behind it.
use libjoe.Base.{
  ◌≡◌, refl, ◌∙◌, sym, ap, ◌≢◌, inl, inr, Bool-cases, ==_iff, true, false, some, List, [], ◌∷◌,
  ◌++◌, ℤ, pos, ◌+ℤ◌, arith, ◌==◌, ==-false, ==-sym_false, ok, if◌then◌else◌,
}
use libjoe.Mem.{Table}
use libjoe.Mem.Live.{is_live, IsLog}
use libjoe.MsgQ.System.{Ptr, null, EveClt, Cell, State}
use libjoe.MsgQ.Commands.{load, set_next, set_prev}
use libjoe.MsgQ.Server.{Srv, msg_q_srv_add}
use libjoe.MsgQ.Ring.{mem, distinct, first_of, last_of, Links, LinkPath, LinkPath-same, mem-last_of}
use libjoe.MsgQ.View.{
  next_of, prev_of, qid_of, upd, Relinks, at_qid, links_at, load-ok, set_next-ok, set_prev-ok,
}

abbrev pub Clients : Type 0
Clients = List (Ptr × ℤ)

abbrev pub addrs : Clients → List Ptr
addrs [] = []
addrs ((p, q) ∷ xs) = p ∷ addrs xs

-- Each client is a live block and has its queue.
abbrev pub Holds : Cell → Table → Clients → Type 0
Holds c t [] = Unit {0}
Holds c t ((p, q) ∷ xs) = (p ≢ null) × (qid_of c p ≡ some q) × (is_live p t ≡ true) × Holds c t xs

pub record IsRing (c : Cell) (t : Table) (h : Ptr) (xs : Clients) : Type 0 where
  pub given : h ≢ null
  pub head : (q : ℤ) × (qid_of c h ≡ some q)
  pub path : LinkPath (next_of c) (prev_of c) h (addrs xs) h
  pub apart : distinct (h ∷ addrs xs) ≡ true
  pub holds : Holds c t xs
  pub log : IsLog t

pub addrs-append : (xs ys : Clients) → addrs (xs ++ ys) ≡ addrs xs ++ addrs ys
addrs-append [] ys = refl
addrs-append ((p, q) ∷ xs) ys = ap (◌∷◌ p) (addrs-append xs ys)

pub Holds-append :
    (c : Cell) (t : Table) (xs ys : Clients) → Holds c t xs → Holds c t ys → Holds c t (xs ++ ys)
Holds-append c t [] ys h k = k
Holds-append c t ((p, q) ∷ xs) ys (ne, e, l, h) k = (ne, e, l, Holds-append c t xs ys h k)

pub Holds-same :
    (c c' : Cell) (t t' : Table) (xs : Clients)
    → ((x : Ptr) → mem x (addrs xs) ≡ true → qid_of c' x ≡ qid_of c x)
    → ((x : Ptr) → x ≢ null → mem x (addrs xs) ≡ true → is_live x t' ≡ is_live x t)
    → Holds c t xs
    → Holds c' t' xs
Holds-same c c' t t' [] same alike h = tt
Holds-same c c' t t' ((p, q) ∷ xs) same alike (ne, e, l, h) = (
  ne,
  same p (ground arith) ∙ e,
  alike p ne (ground arith) ∙ l,
  Holds-same c c' t t' xs (λ x i. same x (ground arith)) (λ x n i. alike x n (ground arith)) h,
)

pub Holds-left : (c : Cell) (t : Table) (xs ys : Clients) → Holds c t (xs ++ ys) → Holds c t xs
Holds-left c t [] ys h = tt
Holds-left c t ((p, q) ∷ xs) ys (ne, e, l, h) = (ne, e, l, Holds-left c t xs ys h)

-- A client among others, and the others.
pub Holds-middle :
    (c : Cell) (t : Table) (ys : Clients) (p : Ptr) (q : ℤ) (zs : Clients)
    → Holds c t (ys ++ (p, q) ∷ zs)
    → Holds c t ((p, q) ∷ []) × Holds c t (ys ++ zs)
Holds-middle c t [] p q zs (ne, e, l, h) = ((ne, e, l, tt), h)
Holds-middle c t ((a, b) ∷ ys) p q zs (ne, e, l, h) =
    let (one, all) = Holds-middle c t ys p q zs h in (one, (ne, e, l, all))

pub Holds-mem :
    (c : Cell) (t : Table) (xs : Clients) (x : Ptr)
    → Holds c t xs
    → mem x (addrs xs) ≡ true
    → (x ≢ null) × ((q : ℤ) × (qid_of c x ≡ some q))
Holds-mem c t [] x h i = cc
Holds-mem c t ((p, q) ∷ xs) x (ne, e, l, h) i = elim (Bool-cases (x == p)) [
  | inl same ↦ let e' : x ≡ p = (==_iff x p).0 same in rw e' (ne, (q, e))
  | inr other ↦ Holds-mem c t xs x h (ground arith)
]

-- A member of the ring, `head` included, is there.
pub IsRing-mem :
    {c : Cell} {t : Table} {h : Ptr} {xs : Clients}
    → IsRing c t h xs
    → (x : Ptr) → mem x (h ∷ addrs xs) ≡ true
    → (x ≢ null) × ((q : ℤ) × (qid_of c x ≡ some q))
IsRing-mem {c} {t} {h} {xs} ring x i = elim (Bool-cases (x == h)) [
  | inl same ↦ let e : x ≡ h = (==_iff x h).0 same in rw e (ring.given, ring.head)
  | inr other ↦ Holds-mem c t xs x ring.holds (ground arith)
]

pub LinkPath-ends :
    (f g : Links) (a : Ptr) (ps : List Ptr) (z : Ptr)
    → LinkPath f g a ps z
    → (f a ≡ some (first_of ps z)) × (g z ≡ some (last_of a ps))
LinkPath-ends f g a [] z (n, b) = (n, b)
LinkPath-ends f g a (p ∷ ps) z (n, b, rest) = (n, (LinkPath-ends f g p ps z rest).1)

pub some_inj : {A : Type 0} {a b : A} → some a ≡ some b → a ≡ b
some_inj h = ground arith

-- A read of a client whose links are known.
pub read_at :
    {W : Type 0} (st : State W) (p : Ptr) (q : ℤ)
    → p ≢ null
    → qid_of st.cell p ≡ some q
    → (n : EveClt) × (load p st ≡ ok n st)
      × (st.cell p ≡ some n)
      × (n.qid ≡ q)
      × (next_of st.cell p ≡ some n.next)
      × (prev_of st.cell p ≡ some n.prev)
read_at st p q ne e =
    let (n, here, qid) = at_qid st.cell p q e in
    (
      n,
      load-ok st p n ne here,
      here,
      qid,
      (links_at st.cell p n here).0,
      (links_at st.cell p n here).1,
    )

pub upd-same :
    {f g : Links} (p q : Ptr) → ((x : Ptr) → f x ≡ g x) → (x : Ptr) → upd f p q x ≡ upd g p q x
upd-same p q h x = ap (λ o. if x == p then some q else o) (h x)

-- A ring is one still where neither its links nor its queues change and its blocks stay live.
pub IsRing-same :
    {c : Cell} {t : Table} {h : Ptr} {xs : Clients} (c' : Cell) (t' : Table)
    → IsRing c t h xs
    → ((x : Ptr)
        → mem x (h ∷ addrs xs) ≡ true
        → (next_of c' x ≡ next_of c x) × (prev_of c' x ≡ prev_of c x) × (qid_of c' x ≡ qid_of c x))
    → IsLog t'
    → ((x : Ptr) → x ≢ null → mem x (addrs xs) ≡ true → is_live x t' ≡ is_live x t)
    → IsRing c' t' h xs
IsRing-same {c} {t} {h} {xs} c' t' ring same log alike = record {
  given = ring.given;
  head = (ring.head.0, (same h (ground arith)).2 ∙ ring.head.1);
  path =
      LinkPath-same (next_of c) (prev_of c) (next_of c') (prev_of c') h (addrs xs) h
        (λ x i. (same x i).0) (λ x i. (same x i).1) ring.path;
  apart = ring.apart;
  holds = Holds-same c c' t t' xs (λ x i. (same x (ground arith)).2) alike ring.holds;
  log = log;
}

-- A write to a client that is there.
pub set_next_at :
    {W : Type 0} (st : State W) (p : Ptr) (q : ℤ) (v : Ptr)
    → p ≢ null
    → qid_of st.cell p ≡ some q
    → (c' : Cell) × (set_next p v st ≡ ok tt (record st { cell = c' }))
      × Relinks st.cell c' (upd (next_of st.cell) p v) (prev_of st.cell)
set_next_at st p q v ne e = let (n, here, _) = at_qid st.cell p q e in set_next-ok st p n ne here v

pub set_prev_at :
    {W : Type 0} (st : State W) (p : Ptr) (q : ℤ) (v : Ptr)
    → p ≢ null
    → qid_of st.cell p ≡ some q
    → (c' : Cell) × (set_prev p v st ≡ ok tt (record st { cell = c' }))
      × Relinks st.cell c' (next_of st.cell) (upd (prev_of st.cell) p v)
set_prev_at st p q v ne e = let (n, here, _) = at_qid st.cell p q e in set_prev-ok st p n ne here v

module _ {W : Type 0} (st : State W) (srv : Srv) (xs : Clients)
    (ring : IsRing st.cell st.log srv.head xs) where
  pub add-run :
      (clt : Ptr) (q : ℤ)
      → clt ≢ null
      → qid_of st.cell clt ≡ some q
      → mem clt (srv.head ∷ addrs xs) ≡ false
      → (c' : Cell) × (msg_q_srv_add (some srv) clt st
          ≡ ok
              (pos 0, some (record srv { clt_amt = srv.clt_amt +ℤ pos 1 }))
              (record st { cell = c' }))
        × Relinks st.cell c'
            (upd (upd (next_of st.cell) clt srv.head) (last_of srv.head (addrs xs)) clt)
            (upd (upd (prev_of st.cell) clt (last_of srv.head (addrs xs))) srv.head clt)
  unfolding msg_q_srv_add
  add-run clt q ne e out =
      let h = srv.head in
      let l = last_of h (addrs xs) in
      let apart : (clt == h) ≡ false = ground arith in
      let (_, back) = LinkPath-ends (next_of st.cell) (prev_of st.cell) h (addrs xs) h ring.path in
      let (qh, eh) = ring.head in
      let (nl, (ql, el)) = IsRing-mem ring l (mem-last_of h (addrs xs)) in
      let (n0, r0, _, _, _, p0) = read_at st h qh ring.given eh in
      let e0 : n0.prev ≡ l = some_inj (sym p0 ∙ back) in
      let (c1, r1, s1) = set_prev_at st clt q l ne e in
      let st1 = record st { cell = c1 } in
      let (c2, r2, s2) = set_next_at st1 clt q h ne (s1.qids clt ∙ e) in
      let st2 = record st { cell = c2 } in
      let (n3, r3, _, _, _, p3) = read_at st2 h qh ring.given (s2.qids h ∙ s1.qids h ∙ eh) in
      let e3 : n3.prev ≡ l =
        some_inj (sym p3 ∙ s2.prevs h ∙ s1.prevs h ∙ rw (==-sym_false clt h apart) back) in
      let (c4, r4, s4) = set_next_at st2 l ql clt nl (s2.qids l ∙ s1.qids l ∙ el) in
      let st4 = record st { cell = c4 } in
      let (c5, r5, s5) =
        set_prev_at st4 h qh clt ring.given (s4.qids h ∙ s2.qids h ∙ s1.qids h ∙ eh) in
      (
        c5,
        rw (==-false clt null ne, apart, r0, e0, r1, r2, r3, e3, r4, r5) refl,
        record {
          nexts = λ x.
              s5.nexts x
              ∙ s4.nexts x
              ∙ upd-same l clt (λ x. s2.nexts x ∙ upd-same clt h s1.nexts x) x;
          prevs = λ x. s5.prevs x ∙ upd-same h clt (λ x. s4.prevs x ∙ s2.prevs x ∙ s1.prevs x) x;
          qids = λ x. s5.qids x ∙ s4.qids x ∙ s2.qids x ∙ s1.qids x;
        },
      )
