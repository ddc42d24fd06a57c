-- ===== src/MsgQ/Monitoring.antt =====
-- `msgQ_srv_monitorrequest` of linux/src/msgQ.c as a whole: it waits for a request and handles it.
use libjoe.Base.{
  ℕ, zero, suc, ◌≡◌, refl, inl, inr, Bool-cases, Bool, true, false, Option, some, ℤ, pos, minus_one,
  eq_ℤ, to_int, to_unsigned, if◌then◌else◌, ok, Safe, Safe-and_then, pure, ◌>>◌,
}
use libjoe.Timer.Functions.{Timer, zero_timer, tm_set_ms, tm_is_timeout}
use libjoe.MsgQ.System.{
  Package, State, Answer, got, failed, System, IsLibc, Cmd, message_queue_max_size,
}
use libjoe.MsgQ.Commands.{
  or_zero, wait_timer, sleep, is_enomsg, Receipt, received, timed_out, broken, after_receive,
  receive,
}
use libjoe.MsgQ.Server.{Srv, reg_to_server}
use libjoe.MsgQ.Events.{register, msg_q_srv_monitorrequest}
use libjoe.MsgQ.Registry.{Clients}
use libjoe.MsgQ.Registered.{qids, IsServer, unchanged}
use libjoe.MsgQ.Registering.{Changed, register-IsServer}

-- Every package that a process receives carries a number in xid that fits into an int.
abbrev pub IntXids : {W : Type 0} → System W → Type 0
IntXids {W} k =
    (q : ℤ) (size : ℕ) (t : ℤ) (nowait : Bool) (w : W) (p : Package)
    → (k.msgrcv q size t nowait w).0 ≡ got p
    → to_int p.xid ≡ p.xid

abbrev HasInt : Receipt → Type 0
HasInt (received p) = to_int p.xid ≡ p.xid
HasInt timed_out = Unit {0}
HasInt (broken e) = Unit {0}

abbrev Waits : {W : Type 0} → State W → Receipt → State W → Type 0
Waits st r st' = (st' ≡ record st { world = st'.world }) × HasInt r

module _ {W : Type 0} (k : System W) (ints : IntXids k) where
  after_receive-Waits :
      (st : State W) (w0 : W) (again : Cmd W Receipt) (timer : Timer) (a : Answer Package)
      → ((p : Package) → a ≡ got p → to_int p.xid ≡ p.xid)
      → ((w : W) → Safe (Waits st) (again (record st { world = w })))
      → Safe (Waits st) (after_receive k again timer a (record st { world = w0 }))
  after_receive-Waits st w0 again timer (got p) int later = (refl, int p refl)
  after_receive-Waits st w0 again timer (failed e) int later =
      elim (Bool-cases (eq_ℤ (tm_is_timeout (k.clock w0).0 timer) (pos 0))) [
        | inr late ↦ rw late (refl, tt)
        | inl early ↦ elim (Bool-cases (is_enomsg e)) [
          | inl empty ↦ rw (early, empty) (later (k.clock w0).1)
          | inr error ↦ rw (early, error) (refl, tt)
        ]
      ]

  receive-Waits :
      (n : ℕ) (qid : ℤ) (t : ℤ) (nowait : Bool) (timer : Timer) (st : State W) (w : W)
      → Safe (Waits st) (receive k (sleep k.usleep) n qid t nowait timer (record st { world = w }))
  unfolding receive
  receive-Waits zero qid t nowait timer st w = tt
  receive-Waits (suc n) qid t nowait timer st w =
      after_receive-Waits st (k.msgrcv qid message_queue_max_size t nowait w).1
        (sleep k.usleep >> receive k (sleep k.usleep) n qid t nowait timer) timer
        (k.msgrcv qid message_queue_max_size t nowait w).0
        (ints qid message_queue_max_size t nowait w)
        (λ w'. receive-Waits n qid t nowait timer st (k.usleep w'))

  wait_timer-world :
      (tout : ℤ) (st : State W)
      → (timer : Timer) × (w : W) × (wait_timer k tout st ≡ ok timer (record st { world = w }))
  unfolding wait_timer
  wait_timer-world tout st = elim (Bool-cases (eq_ℤ tout (pos 0))) [
    | inl z ↦ (zero_timer, st.world, rw z refl)
    | inr nz ↦
        let (now, w) = k.clock st.world in
        (or_zero (tm_set_ms now (some zero_timer) (to_unsigned tout)).1, w, rw nz refl)
  ]

-- What `msgQ_srv_monitorrequest` does after the wait.
abbrev handle : {W : Type 0} → System W → ℕ → Srv → Receipt → Cmd W (ℤ × Option Srv)
handle k n srv (received p) = register k n srv p
handle k n srv timed_out = pure (pos 1, some srv)
handle k n srv (broken e) = pure (minus_one, some srv)

handle-IsServer :
    {W : Type 0} (k : System W) (lib : IsLibc k) (n : ℕ) (srv : Srv) (xs : Clients) (st : State W)
    (r : Receipt)
    → IsServer st.cell st.log srv xs
    → HasInt r
    → Safe (Changed (qids xs)) (handle k n srv r st)
handle-IsServer k lib n srv xs st (received p) here int =
    register-IsServer k lib n srv p st xs int here
handle-IsServer k lib n srv xs st timed_out here int = (srv, xs, refl, here, unchanged)
handle-IsServer k lib n srv xs st (broken e) here int = (srv, xs, refl, here, unchanged)

module _ {W : Type 0} (k : System W) (lib : IsLibc k) (ints : IntXids k) (n : ℕ) (srv : Srv)
    (tout : ℤ) (st : State W) (xs : Clients) where
  -- If the xid of every package fits into an int, a call of `msgQ_srv_monitorrequest` does not fault, and
  -- when it ends, with a request, a time-out or an error, the event clients form a ring again, counted by
  -- `clt_amt`, at most ten, no queue twice. The list of their queues is the old one, or has one new queue
  -- at its end, or has lost one queue.
  pub msg_q_srv_monitorrequest-IsServer :
      IsServer st.cell st.log srv xs
      → Safe (Changed (qids xs)) (msg_q_srv_monitorrequest k n (some srv) tout st)
  unfolding msg_q_srv_monitorrequest
  msg_q_srv_monitorrequest-IsServer here =
      let (timer, w, r0) = wait_timer-world k ints tout st in
      let nowait = if eq_ℤ tout (pos 0) then false else true in
      rw r0 (
        Safe-and_then (Waits st) (Changed (qids xs))
          (receive k (sleep k.usleep) n srv.qid reg_to_server nowait timer
            (record st { world = w }))
          (handle k n srv) (receive-Waits k ints n srv.qid reg_to_server nowait timer st w)
          (λ r st' (same, int). handle-IsServer k lib n srv xs st' r (rw same here) int))
