-- ===== src/MsgQ/Removing.antt =====
-- `msgQ_srv_del` of linux/src/msgQ.c on a ring: the loop finds the client, or comes back to `head`.
use libjoe.Base.{
  ℕ, suc, ◌+◌, ◌≡◌, refl, ◌∙◌, ◌⊎◌, append-nil, sym, ap, ◌≢◌, inl, inr, Bool-cases, true, false,
  none, some, List, [], ◌∷◌, ◌++◌, ℤ, pos, minus_one, pos_part, ◌-ℤ◌, arith, ◌==◌, ==-false,
  ==-sym_false, ok, length, length-append,
}
use libjoe.Mem.{Table, ofree}
use libjoe.Mem.Live.{is_live}
use libjoe.Mem.Log.{ofree-live, ofree-IsLog}
use libjoe.MsgQ.System.{Ptr, null, Cell, write, State}
use libjoe.MsgQ.Commands.{ofree_block}
use libjoe.MsgQ.Server.{Srv, del_loop, msg_q_srv_del}
use libjoe.MsgQ.Ring.{
  mem, distinct, first_of, last_of, Links, LinkPath, LinkPath-remove, mem-last_of, mem-first_of,
  mem-append, distinct_middle, ne_of_mem,
}
use libjoe.MsgQ.View.{next_of, prev_of, qid_of, upd, Relinks, write-other, qid_of-freed}
use libjoe.MsgQ.Registry.{
  Clients, addrs, Holds, IsRing, IsRing-mem, addrs-append, LinkPath-ends, read_at, set_next_at,
  set_prev_at, upd-same, some_inj, Holds-same, Holds-left, Holds-middle,
}

-- The loop passes over clients that are not the one to delete.
del_loop-skip :
    {W : Type 0} (st : State W) (srv : Srv) (d : Ptr) (m : ℕ) (a : Ptr) (ys : Clients)
    (rest : List Ptr)
    → LinkPath (next_of st.cell) (prev_of st.cell) a (addrs ys ++ rest) srv.head
    → Holds st.cell st.log ys
    → mem srv.head (addrs ys) ≡ false
    → mem d (addrs ys) ≡ false
    → del_loop (length ys + m) srv d (first_of (addrs ys ++ rest) srv.head) st
      ≡ del_loop m srv d (first_of rest srv.head) st
unfolding del_loop
del_loop-skip st srv d m a [] rest path h out1 out2 = let e : 0 + m ≡ m = omega arith in rw e refl
del_loop-skip st srv d m a ((p, q) ∷ ys) rest (_, _, path) (ne, e, _, h) out1 out2 =
    let (n, r, _, _, nx, _) = read_at st p q ne e in
    let (go, _) =
      LinkPath-ends (next_of st.cell) (prev_of st.cell) p (addrs ys ++ rest) srv.head path in
    let to : n.next ≡ first_of (addrs ys ++ rest) srv.head = some_inj (sym nx ∙ go) in
    let apart1 : (p == srv.head) ≡ false = ground arith in
    let apart2 : (p == d) ≡ false = ground arith in
    let fuel : length ((p, q) ∷ ys) + m ≡ suc (length ys + m) = omega arith in
    rw (fuel, apart1, apart2, r)
      (ap (λ y. del_loop (length ys + m) srv d y st) to
        ∙ del_loop-skip st srv d m p ys rest path h (ground arith) (ground arith))

-- The links of an address in the middle of a path.
LinkPath-middle :
    (f g : Links) (a : Ptr) (ps : List Ptr) (q : Ptr) (qs : List Ptr) (z : Ptr)
    → LinkPath f g a (ps ++ q ∷ qs) z
    → (g q ≡ some (last_of a ps)) × (f q ≡ some (first_of qs z))
LinkPath-middle f g a [] q qs z (n, b, rest) = (b, (LinkPath-ends f g q qs z rest).0)
LinkPath-middle f g a (p ∷ ps) q qs z (n, b, rest) = LinkPath-middle f g p ps q qs z rest

pub ofree_block-live :
    {W : Type 0} (st : State W) (d : Ptr)
    → d ≢ null
    → is_live d st.log ≡ true
    → ofree_block d st
      ≡ ok (pos 0) (record st { cell = write st.cell d none; log = (ofree d st.log).1 })
unfolding ofree_block
ofree_block-live st d ne live = let (r, _) = ofree-live d st.log ne live in rw r refl

-- The loop at the client that is to go: it is taken out of the ring, and given back.
del_loop-here :
    {W : Type 0} (st : State W) (srv : Srv) (m : ℕ) (d l x : Ptr) (q ql qx : ℤ)
    → d ≢ null
    → qid_of st.cell d ≡ some q
    → is_live d st.log ≡ true
    → (d == srv.head) ≡ false
    → l ≢ null
    → qid_of st.cell l ≡ some ql
    → (d == l) ≡ false
    → x ≢ null
    → qid_of st.cell x ≡ some qx
    → prev_of st.cell d ≡ some l
    → next_of st.cell d ≡ some x
    → (c' : Cell) × (del_loop (suc m) srv d d st
        ≡ ok
            (pos 0, some (record srv { clt_amt = srv.clt_amt -ℤ pos 1 }))
            (record st { cell = write c' d none; log = (ofree d st.log).1 }))
      × Relinks st.cell c' (upd (next_of st.cell) l x) (upd (prev_of st.cell) x l)
unfolding del_loop
del_loop-here st srv m d l x q ql qx ne e live out nl el far nx ex back forth =
    let (n0, r0, _, _, f0, b0) = read_at st d q ne e in
    let e0 : n0.prev ≡ l = some_inj (sym b0 ∙ back) in
    let e0' : n0.next ≡ x = some_inj (sym f0 ∙ forth) in
    let (c1, r1, s1) = set_next_at st l ql x nl el in
    let st1 = record st { cell = c1 } in
    let (n2, r2, _, _, f2, b2) = read_at st1 d q ne (s1.qids d ∙ e) in
    let e2 : n2.prev ≡ l = some_inj (sym b2 ∙ s1.prevs d ∙ back) in
    let e2' : n2.next ≡ x = some_inj (sym f2 ∙ s1.nexts d ∙ rw far forth) in
    let (c3, r3, s3) = set_prev_at st1 x qx l nx (s1.qids x ∙ ex) in
    let st3 = record st { cell = c3 } in
    let here : (d == d) ≡ true = ground arith in
    (
      c3,
      rw (out, here, r0, e0, e0', r1, r2, e2, e2', r3, ofree_block-live st3 d ne live) refl,
      record {
        nexts = λ y. s3.nexts y ∙ s1.nexts y;
        prevs = λ y. s3.prevs y ∙ upd-same x l s1.prevs y;
        qids = λ y. s3.qids y ∙ s1.qids y;
      },
    )

module _ (c c' : Cell) (t : Table) (h d : Ptr) (q : ℤ) (ys zs : Clients) where
  IsRing-remove :
      IsRing c t h (ys ++ (d, q) ∷ zs)
      → Relinks c c'
          (upd (next_of c) (last_of h (addrs ys)) (first_of (addrs zs) h))
          (upd (prev_of c) (first_of (addrs zs) h) (last_of h (addrs ys)))
      → IsRing (write c' d none) (ofree d t).1 h (ys ++ zs)
  IsRing-remove ring links =
      let all = addrs-append ys ((d, q) ∷ zs) in
      let rest = addrs-append ys zs in
      let path : LinkPath (next_of c) (prev_of c) h (addrs ys ++ d ∷ addrs zs) h =
        rw (sym all) ring.path in
      let apart : distinct (h ∷ addrs ys ++ d ∷ addrs zs) ≡ true = rw (sym all) ring.apart in
      let (out, apart') = distinct_middle (h ∷ addrs ys) d (addrs zs) apart in
      let l = last_of h (addrs ys) in
      let x = first_of (addrs zs) h in
      let c2 = write c' d none in
      let other : (y : Ptr) → mem y (h ∷ addrs ys ++ addrs zs) ≡ true → (y == d) ≡ false =
        λ y i. ==-sym_false d y (ne_of_mem d y (h ∷ addrs ys ++ addrs zs) out i) in
      let at_l : mem l (h ∷ addrs ys ++ addrs zs) ≡ true =
        ground (arith, mem-append l (addrs ys) (addrs zs), mem-last_of h (addrs ys)) in
      let at_x : mem x (h ∷ addrs ys ++ addrs zs) ≡ true =
        ground (arith, mem-append x (addrs ys) (addrs zs), mem-first_of (addrs zs) h) in
      let among : (y : Ptr)
          → mem y (addrs (ys ++ zs)) ≡ true
          → mem y (h ∷ addrs ys ++ addrs zs) ≡ true =
        λ y i. ground (arith, ap (mem y) rest, i) in
      record {
        given = ring.given;
        head = (
          ring.head.0,
          (write-other c' d none h (other h (ground arith))).2 ∙ links.qids h ∙ ring.head.1,
        );
        path = rw rest (
            LinkPath-remove (next_of c) (prev_of c) (next_of c2) (prev_of c2) h (addrs ys) d
              (addrs zs) h apart (ground arith)
              ((write-other c' d none l (other l at_l)).0 ∙ links.nexts l ∙ ground arith)
              ((write-other c' d none x (other x at_x)).1 ∙ links.prevs x ∙ ground arith)
              (λ y i n. (write-other c' d none y (other y i)).0 ∙ links.nexts y ∙ rw n refl)
              (λ y i n. (write-other c' d none y (other y i)).1 ∙ links.prevs y ∙ rw n refl) path);
        apart = rw rest apart';
        holds =
            Holds-same c c2 t (ofree d t).1 (ys ++ zs)
              (λ y i. (write-other c' d none y (other y (among y i))).2 ∙ links.qids y)
              (λ y n i.
                let far : (d == y) ≡ false = ==-sym_false y d (other y (among y i)) in
                (ofree-IsLog d y n ring.log).1 ∙ rw far refl)
              (Holds-middle c t ys d q zs ring.holds).1;
        log = (ofree-IsLog d h ring.given ring.log).0;
      }

module _ {W : Type 0} (st : State W) (srv : Srv) where
  -- Where `clt_amt` counts the clients of a ring, `msgQ_srv_del` of any of them returns 0, takes it out of
  -- the ring, counts down and gives its block back; the other clients, their order and queues stay.
  pub msg_q_srv_del-removes :
      (ys zs : Clients) (d : Ptr) (q : ℤ)
      → IsRing st.cell st.log srv.head (ys ++ (d, q) ∷ zs)
      → srv.clt_amt ≡ pos (length (ys ++ (d, q) ∷ zs))
      → (c' : Cell) × (msg_q_srv_del (some srv) d st
          ≡ ok
              (pos 0, some (record srv { clt_amt = srv.clt_amt -ℤ pos 1 }))
              (record st { cell = c'; log = (ofree d st.log).1 }))
        × IsRing c' (ofree d st.log).1 srv.head (ys ++ zs)
        × (qid_of c' d ≡ none)
        × ((x : Ptr) → (x == d) ≡ false → qid_of c' x ≡ qid_of st.cell x)
  unfolding msg_q_srv_del
  msg_q_srv_del-removes ys zs d q ring amt =
      let h = srv.head in
      let all = addrs-append ys ((d, q) ∷ zs) in
      let path : LinkPath (next_of st.cell) (prev_of st.cell) h (addrs ys ++ d ∷ addrs zs) h =
        rw (sym all) ring.path in
      let apart : distinct (h ∷ addrs ys ++ d ∷ addrs zs) ≡ true = rw (sym all) ring.apart in
      let ((ne, e, live, _), others) = Holds-middle st.cell st.log ys d q zs ring.holds in
      let (n0, r0, _, _, f0, _) = read_at st h ring.head.0 ring.given ring.head.1 in
      let (go, _) =
        LinkPath-ends (next_of st.cell) (prev_of st.cell) h (addrs ys ++ d ∷ addrs zs) h path in
      let e0 : n0.next ≡ first_of (addrs ys ++ d ∷ addrs zs) h = some_inj (sym f0 ∙ go) in
      let (back, forth) =
        LinkPath-middle (next_of st.cell) (prev_of st.cell) h (addrs ys) d (addrs zs) h path in
      let (out, _) = distinct_middle (h ∷ addrs ys) d (addrs zs) apart in
      let nh : (d == h) ≡ false = ground arith in
      let out_of_ys : mem d (addrs ys) ≡ false =
        ground (arith, mem-append d (addrs ys) (addrs zs)) in
      let head_out : mem h (addrs ys) ≡ false =
        ground (arith, mem-append h (addrs ys) (d ∷ addrs zs)) in
      let at_l : mem (last_of h (addrs ys)) (h ∷ addrs (ys ++ (d, q) ∷ zs)) ≡ true = rw all (
        ground (
          arith,
          mem-append (last_of h (addrs ys)) (addrs ys) (d ∷ addrs zs),
          mem-last_of h (addrs ys),
        )) in
      let at_x : mem (first_of (addrs zs) h) (h ∷ addrs (ys ++ (d, q) ∷ zs)) ≡ true = rw all (
        ground (
          arith,
          mem-append (first_of (addrs zs) h) (addrs ys) (d ∷ addrs zs),
          mem-first_of (addrs zs) h,
        )) in
      let far : (d == last_of h (addrs ys)) ≡ false =
        ne_of_mem d (last_of h (addrs ys)) (h ∷ addrs ys) (ground arith)
          (mem-last_of h (addrs ys)) in
      let (nl, (ql, el)) = IsRing-mem ring (last_of h (addrs ys)) at_l in
      let (nx, (qx, ex)) = IsRing-mem ring (first_of (addrs zs) h) at_x in
      let (c', run, links) =
        del_loop-here st srv (length zs + 1) d (last_of h (addrs ys)) (first_of (addrs zs) h) q ql
          qx ne e live nh nl el far nx ex back forth in
      let fuel : pos_part srv.clt_amt + 1 ≡ length ys + suc (length zs + 1) =
        rw amt (omega (arith, length-append ys ((d, q) ∷ zs))) in
      let no : (d == null) ≡ false = ==-false d null ne in
      (
        write c' d none,
        rw (no, nh, r0)
            (ap (λ y. del_loop (pos_part srv.clt_amt + 1) srv d y st) e0
              ∙ ap (λ k. del_loop k srv d (first_of (addrs ys ++ d ∷ addrs zs) h) st) fuel
              ∙ del_loop-skip st srv d (suc (length zs + 1)) h ys (d ∷ addrs zs) path
                  (Holds-left st.cell st.log ys ((d, q) ∷ zs) ring.holds) head_out out_of_ys
              ∙ run),
        IsRing-remove st.cell c' st.log h d q ys zs ring links,
        qid_of-freed c' d,
        λ x other. (write-other c' d none x other).2 ∙ links.qids x,
      )

  -- NULL, `head` and any other address that is not in the ring are an error, -1, for `msgQ_srv_del`, and
  -- nothing changes, where `clt_amt` counts the clients.
  pub msg_q_srv_del-missing :
      (xs : Clients) (d : Ptr)
      → IsRing st.cell st.log srv.head xs
      → srv.clt_amt ≡ pos (length xs)
      → (d ≡ null) ⊎ (mem d (addrs xs) ≡ false)
      → msg_q_srv_del (some srv) d st ≡ ok (minus_one, some srv) st
  unfolding msg_q_srv_del del_loop
  msg_q_srv_del-missing xs d ring amt why =
      let h = srv.head in
      let whole : addrs xs ++ [] ≡ addrs xs = append-nil (addrs xs) in
      let path : LinkPath (next_of st.cell) (prev_of st.cell) h (addrs xs ++ []) h =
        rw whole ring.path in
      let (n0, r0, _, _, f0, _) = read_at st h ring.head.0 ring.given ring.head.1 in
      let (go, _) = LinkPath-ends (next_of st.cell) (prev_of st.cell) h (addrs xs ++ []) h path in
      let e0 : n0.next ≡ first_of (addrs xs ++ []) h = some_inj (sym f0 ∙ go) in
      let fuel : pos_part srv.clt_amt + 1 ≡ length xs + 1 = rw amt refl in
      let here : (h == h) ≡ true = ground arith in
      let last : del_loop 1 srv d h st ≡ ok (minus_one, some srv) st = rw here refl in
      elim (Bool-cases (d == null)) [
        | inl z ↦ rw z refl
        | inr n ↦ elim (Bool-cases (d == h)) [
          | inl z ↦ rw (n, z) refl
          | inr nh ↦
              let out : mem d (addrs xs) ≡ false = elim why [ inl z ↦ cc | inr o ↦ o ] in
              rw (n, nh, r0)
                (ap (λ y. del_loop (pos_part srv.clt_amt + 1) srv d y st) e0
                  ∙ ap (λ k. del_loop k srv d (first_of (addrs xs ++ []) h) st) fuel
                  ∙ del_loop-skip st srv d 1 h xs [] path ring.holds (ground arith) out
                  ∙ last)
        ]
      ]
