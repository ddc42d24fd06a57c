-- ===== src/MsgQ/Responding.antt =====
-- The response of `msgQ_srv_monitorrequest` of linux/src/msgQ.c to an event client, and what a call of
-- `msgsnd` leaves alone.
use libjoe.Base.{
  ℕ, zero, suc, ◌≡◌, refl, sym, ap, ◌∙◌, ◌⊎◌, inl, inr, Bool, false, Option, some, [], ◌∷◌, ◌++◌, ℤ,
  pos, sub_le, ◌-ℤ◌, arith, Run, ok, Safe, Safe-and_then, and_then, pure, ◌>>=◌, length,
  length-append, minus_one,
}
use libjoe.Mem.{ofree}
use libjoe.Timer.Functions.{tm_set_ms}
use libjoe.MsgQ.System.{
  Ptr, Package, pkg, State, eintr, eagain, enoent, enomsg, eidrm, e2big, unknown, Answer, got,
  failed, System,
}
use libjoe.MsgQ.Commands.{or_zero, after_send, send}
use libjoe.MsgQ.Server.{Srv, msg_q_srv_del}
use libjoe.MsgQ.Events.{after_response, respond}
use libjoe.MsgQ.View.{set_timer-ok}
use libjoe.MsgQ.Registry.{Clients, IsRing-same, Holds-middle, read_at}
use libjoe.MsgQ.Removing.{msg_q_srv_del-removes}
use libjoe.MsgQ.Registered.{qids, IsServer, distinct_queues_middle, qids-append}

-- Only the world has changed.
abbrev pub Outside : {W A : Type 0} → State W → A → State W → Type 0
Outside st a st' = st' ≡ record st { world = st'.world }

after_send-Outside :
    {W : Type 0} (st st' : State W) (again : State W → Run (State W) (Answer (Unit {0})))
    (r : Answer (Unit {0}))
    → Outside st r st'
    → Safe (Outside st) (again st')
    → Safe (Outside st) (after_send again r st')
after_send-Outside st st' again (got u) same h = same
after_send-Outside st st' again (failed eintr) same h = h
after_send-Outside st st' again (failed eagain) same h = same
after_send-Outside st st' again (failed enoent) same h = same
after_send-Outside st st' again (failed enomsg) same h = same
after_send-Outside st st' again (failed eidrm) same h = same
after_send-Outside st st' again (failed e2big) same h = same
after_send-Outside st st' again (failed unknown) same h = same

pub send-Outside :
    {W : Type 0} (k : System W) (n : ℕ) (q : ℤ) (p : Package) (nowait : Bool) (st : State W)
    → Safe (Outside st) (send k n q p nowait st)
unfolding send
send-Outside k zero q p nowait st = tt
send-Outside k (suc n) q p nowait st =
    let (r, w) = k.msgsnd q p nowait st.world in
    let st' = record st { world = w } in
    after_send-Outside st st' (send k n q p nowait) r refl (send-Outside k n q p nowait st')

-- A client that is deleted leaves a server with the others.
module _ {W : Type 0} (st : State W) (srv : Srv) (ys : Clients) (d : Ptr) (q : ℤ) (zs : Clients)
    (here : IsServer st.cell st.log srv (ys ++ (d, q) ∷ zs)) where
  pub msg_q_srv_del-IsServer :
      (srv' : Srv) × (st' : State W) × (msg_q_srv_del (some srv) d st ≡ ok (pos 0, some srv') st')
      × IsServer st'.cell st'.log srv' (ys ++ zs)
  msg_q_srv_del-IsServer =
      let (c', run, ring, _, _) = msg_q_srv_del-removes st srv ys zs d q here.ring here.amount in
      (
        record srv { clt_amt = srv.clt_amt -ℤ pos 1 },
        record st { cell = c'; log = (ofree d st.log).1 },
        run,
        record {
          ring = ring;
          amount = rw here.amount (
              sub_le (length (ys ++ (d, q) ∷ zs)) 1 (omega (arith, length-append ys ((d, q) ∷ zs)))
              ∙ ap pos (omega (arith, length-append ys ((d, q) ∷ zs), length-append ys zs)));
          few = omega (arith, length-append ys ((d, q) ∷ zs), length-append ys zs, here.few);
          apart = rw (qids-append ys zs) (
              distinct_queues_middle (qids ys) q (qids zs)
                (rw (sym (qids-append ys ((d, q) ∷ zs))) here.apart));
        },
      )

-- What `respond` may do: the clients stay, or the one it responds to is dropped.
abbrev pub Responded :
    {W : Type 0}
    → (ys : Clients) (d : Ptr) (q : ℤ) (zs : Clients) → ℤ × Option Srv
    → State W
    → Type 0
Responded ys d q zs (r, srv') st' =
    (s : Srv) × (xs' : Clients) × (srv' ≡ some s)
    × IsServer st'.cell st'.log s xs'
    × ((xs' ≡ ys ++ (d, q) ∷ zs) ⊎ (xs' ≡ ys ++ zs))

module _ {W : Type 0} (k : System W) (srv : Srv) (ys : Clients) (d : Ptr) (q : ℤ)
    (zs : Clients) where
  after_response-cases :
      (Q : ℤ × Option Srv → State W → Type 0) (st : State W) (r : Answer (Unit {0}))
      → ((i : ℤ) → Q (i, some srv) st)
      → Safe Q ((do (_, srv') ← msg_q_srv_del (some srv) d; pure (minus_one, srv')) st)
      → Safe Q (after_response srv d r st)
  after_response-cases Q st (got u) stays drops = stays (pos 0)
  after_response-cases Q st (failed eintr) stays drops = drops
  after_response-cases Q st (failed eagain) stays drops = stays minus_one
  after_response-cases Q st (failed enoent) stays drops = drops
  after_response-cases Q st (failed enomsg) stays drops = drops
  after_response-cases Q st (failed eidrm) stays drops = drops
  after_response-cases Q st (failed e2big) stays drops = drops
  after_response-cases Q st (failed unknown) stays drops = drops

  after_response-Responded :
      (st : State W) (r : Answer (Unit {0}))
      → IsServer st.cell st.log srv (ys ++ (d, q) ∷ zs)
      → Safe (Responded ys d q zs) (after_response srv d r st)
  after_response-Responded st r here =
      let (s, st', run, left) = msg_q_srv_del-IsServer st srv ys d q zs here in
      after_response-cases (Responded ys d q zs) st r
        (λ i. (srv, ys ++ (d, q) ∷ zs, refl, here, inl refl))
        (rw run (s, ys ++ zs, refl, left, inr refl))

  -- The timer is set, and then the response is sent.
  pub respond-send :
      (n : ℕ) (p : Package) (st : State W)
      → IsServer st.cell st.log srv (ys ++ (d, q) ∷ zs)
      → (st' : State W) × (respond k n srv p d st
          ≡ and_then (send k n q (pkg p.msgid k.pid []) false st') (λ r. after_response srv d r))
        × IsServer st'.cell st'.log srv (ys ++ (d, q) ∷ zs)
        × (st'.world ≡ (k.clock st.world).1)
  unfolding respond
  respond-send n p st here =
      let ((ne, e, _, _), _) = Holds-middle st.cell st.log ys d q zs here.ring.holds in
      let st1 = record st { world = (k.clock st.world).1 } in
      let (n0, r0, there, _, _, _) = read_at st1 d q ne e in
      let (c', r1, links) =
        set_timer-ok st1 d n0 ne there
          (or_zero (tm_set_ms (k.clock st.world).0 (some n0.timer) 0).1) in
      let st2 = record st1 { cell = c' } in
      let (n2, r2, _, qid, _, _) = read_at st2 d q ne (links.qids d ∙ e) in
      (
        st2,
        rw (r0, r1, r2)
            (ap
              (λ v.
                and_then (send k n v (pkg p.msgid k.pid []) false st2)
                  (λ r. after_response srv d r))
              qid),
        record {
          ring =
              IsRing-same c' st.log here.ring (λ x i. (links.nexts x, links.prevs x, links.qids x))
                here.ring.log (λ x n i. refl);
          amount = here.amount;
          few = here.few;
          apart = here.apart;
        },
        refl,
      )

  pub respond-Responded :
      (n : ℕ) (p : Package) (st : State W)
      → IsServer st.cell st.log srv (ys ++ (d, q) ∷ zs)
      → Safe (Responded ys d q zs) (respond k n srv p d st)
  respond-Responded n p st here =
      let (st', run, still, _) = respond-send n p st here in
      rw run (
        Safe-and_then (Outside st') (Responded ys d q zs)
          (send k n q (pkg p.msgid k.pid []) false st') (λ r. after_response srv d r)
          (send-Outside k n q (pkg p.msgid k.pid []) false st')
          (λ r st3 same. after_response-Responded st3 r (rw same still)))

  -- A response that is sent at once.
  pub respond-answers :
      (n : ℕ) (p : Package) (st : State W) (w : W)
      → IsServer st.cell st.log srv (ys ++ (d, q) ∷ zs)
      → k.msgsnd q (pkg p.msgid k.pid []) false (k.clock st.world).1 ≡ (got tt, w)
      → (st' : State W) × (respond k (suc n) srv p d st ≡ ok (pos 0, some srv) st')
        × IsServer st'.cell st'.log srv (ys ++ (d, q) ∷ zs)
        × (st'.world ≡ w)
  unfolding send
  respond-answers n p st w here sent =
      let (st', run, still, clock) = respond-send (suc n) p st here in
      (record st' { world = w }, run ∙ rw (clock, sent) refl, still, refl)
