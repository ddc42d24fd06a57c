-- ===== src/MsgQ/Adding.antt =====
-- `msgQ_srv_add` of linux/src/msgQ.c on a ring: the client stands behind all others.
use libjoe.Base.{
  ◌≡◌, refl, ◌∙◌, ◌≢◌, true, false, some, List, [], ◌∷◌, ◌++◌, ℤ, pos, ◌+ℤ◌, arith, ◌==◌,
  ==-sym_false, ok,
}
use libjoe.Mem.Live.{is_live}
use libjoe.MsgQ.System.{Ptr, null, Cell, State}
use libjoe.MsgQ.Server.{Srv, msg_q_srv_add}
use libjoe.MsgQ.Ring.{
  mem, distinct, last_of, Links, LinkPath, LinkPath-append_last, mem-last_of, distinct-append_last,
  ne_of_mem,
}
use libjoe.MsgQ.View.{next_of, prev_of, qid_of, upd}
use libjoe.MsgQ.Registry.{Clients, addrs, IsRing, addrs-append, Holds-append, Holds-same, add-run}

module _ (f g : Links) (h : Ptr) (ps : List Ptr) (clt : Ptr) where
  -- The links that `msgQ_srv_add` sets make one ring of the old one and the client.
  LinkPath-upd :
      (f' g' : Links)
      → ((x : Ptr) → f' x ≡ upd (upd f clt h) (last_of h ps) clt x)
      → ((x : Ptr) → g' x ≡ upd (upd g clt (last_of h ps)) h clt x)
      → distinct (h ∷ ps) ≡ true
      → mem clt (h ∷ ps) ≡ false
      → LinkPath f g h ps h
      → LinkPath f' g' h (ps ++ clt ∷ []) h
  LinkPath-upd f' g' ef eg d out path =
      let l = last_of h ps in
      let far : (clt == l) ≡ false = ne_of_mem clt l (h ∷ ps) out (mem-last_of h ps) in
      LinkPath-append_last f g f' g' h ps h clt d (ef clt ∙ rw far (ground arith))
        (ef l ∙ ground arith) (eg h ∙ ground arith) (eg clt ∙ ground arith)
        (λ x i n. ef x ∙ rw (n, ==-sym_false clt x (ne_of_mem clt x (h ∷ ps) out i)) refl)
        (λ x i.
          eg x
          ∙ ground (arith, ne_of_mem clt x ps (ground arith) i, ne_of_mem h x ps (ground arith) i))
        path

module _ {W : Type 0} (st : State W) (srv : Srv) (xs : Clients) where
  -- A live client that is not in the ring yet is its last one afterwards: `msgQ_srv_add` returns 0 and
  -- counts it, the other clients and their order stay, and no queue changes.
  pub msg_q_srv_add-appends :
      (clt : Ptr) (q : ℤ)
      → IsRing st.cell st.log srv.head xs
      → clt ≢ null
      → qid_of st.cell clt ≡ some q
      → is_live clt st.log ≡ true
      → mem clt (srv.head ∷ addrs xs) ≡ false
      → (c' : Cell) × (msg_q_srv_add (some srv) clt st
          ≡ ok
              (pos 0, some (record srv { clt_amt = srv.clt_amt +ℤ pos 1 }))
              (record st { cell = c' }))
        × IsRing c' st.log srv.head (xs ++ (clt, q) ∷ [])
        × ((x : Ptr) → qid_of c' x ≡ qid_of st.cell x)
  msg_q_srv_add-appends clt q ring ne e live out =
      let h = srv.head in
      let (c', run, links) = add-run st srv xs ring clt q ne e out in
      let all = addrs-append xs ((clt, q) ∷ []) in
      (
        c',
        run,
        record {
          given = ring.given;
          head = (ring.head.0, links.qids h ∙ ring.head.1);
          path = rw all (
              LinkPath-upd (next_of st.cell) (prev_of st.cell) h (addrs xs) clt (next_of c')
                (prev_of c') links.nexts links.prevs ring.apart out ring.path);
          apart = rw all (distinct-append_last (h ∷ addrs xs) clt ring.apart out);
          holds =
              Holds-append c' st.log xs ((clt, q) ∷ [])
                (Holds-same st.cell c' st.log st.log xs (λ x i. links.qids x) (λ x n i. refl)
                  ring.holds)
                (ne, links.qids clt ∙ e, live, tt);
          log = ring.log;
        },
        links.qids,
      )
