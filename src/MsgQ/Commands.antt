-- ===== src/MsgQ/Commands.antt =====
-- The single steps of linux/src/msgQ.c: reads and writes of event clients, calls of the operating
-- system, and the loops that wait.
use libjoe.Base.{
  ℕ, zero, suc, Bool, true, false, Option, none, some, ℤ, pos, negsuc, to_unsigned, eq_ℤ, ◌==◌,
  if◌then◌else◌, ok, fault, out_of_fuel, pure, ◌>>=◌, ◌>>◌,
}
use libjoe.Mem.{omalloc, ofree}
use libjoe.Timer.Functions.{Timer, zero_timer, tm_set_ms, tm_is_timeout}
use libjoe.MsgQ.System.{
  Ptr, null, Package, EveClt, write, Errno, eintr, enomsg, Answer, got, failed, System, Cmd,
  message_queue_max_size,
}

-- sizeof(msgQ_eve_clt)
abbrev pub eve_clt_size : ℕ
eve_clt_size = 40

abbrev pub or_zero : Option Timer → Timer
or_zero none = zero_timer
or_zero (some t) = t

abbrev pub is_enomsg : Errno → Bool
is_enomsg enomsg = true
is_enomsg _ = false

-- How a loop that waits for a message ends: with one, with a time-out, or with another error.
pub data Receipt : Type 0 where
  received : Package → Receipt
  timed_out : Receipt
  broken : Errno → Receipt

module _ {W : Type 0} where
  unfoldable pub load : Ptr → Cmd W EveClt
  load p st = if p == null then fault else elim (st.cell p) [ none ↦ fault | some n ↦ ok n st ]

  abbrev pub store : Ptr → EveClt → Cmd W (Unit {0})
  store p n st = ok tt (record st { cell = write st.cell p (some n) })

  unfoldable pub set_next : Ptr → Ptr → Cmd W (Unit {0})
  unfolding load
  set_next p q = do n ← load p; store p (record n { next = q })

  unfoldable pub set_prev : Ptr → Ptr → Cmd W (Unit {0})
  unfolding load
  set_prev p q = do n ← load p; store p (record n { prev = q })

  unfoldable pub set_timer : Ptr → Timer → Cmd W (Unit {0})
  unfolding load
  set_timer p t = do n ← load p; store p (record n { timer = t })

  -- A call of the operating system.
  abbrev pub call : {A : Type 0} → (W → A × W) → Cmd W A
  call f st = let (a, w) = f st.world in ok a (record st { world = w })

  abbrev pub sleep : (W → W) → Cmd W (Unit {0})
  sleep f st = ok tt (record st { world = f st.world })

  -- `ofree(p)`: the block is gone when `ofree` has called `free`.
  unfoldable pub ofree_block : Ptr → Cmd W ℤ
  ofree_block p st =
      let (r, log') = ofree p st.log in
      ok r (record st {
        cell = elim r [ pos n ↦ write st.cell p none | negsuc n ↦ st.cell ];
        log = log';
      })

  -- `omalloc` of an event client, `memset` and the assignment of `qid`.
  unfoldable pub new_eve_clt : System W → ℤ → Cmd W Ptr
  new_eve_clt k qid st =
      let (p, log') =
        omalloc (k.malloc st eve_clt_size) k.stamp (some "msgQ event client") eve_clt_size st.log in
      let clt : EveClt = record { qid = qid; timer = zero_timer; prev = null; next = null } in
      ok p
        (record st { cell = if p == null then st.cell else write st.cell p (some clt); log = log' })

  -- `Timer timer = {0}; if (tout) tm_set_ms(&timer, tout);`
  unfoldable pub wait_timer : System W → ℤ → Cmd W Timer
  wait_timer k tout = if eq_ℤ tout (pos 0) then pure zero_timer else do
    now ← call k.clock
    pure (or_zero (tm_set_ms now (some zero_timer) (to_unsigned tout)).1)

  -- After a `msgrcv` that fails the timer is asked first, and then `errno`.
  abbrev pub after_receive :
      System W → (again : Cmd W Receipt) → Timer → Answer Package → Cmd W Receipt
  after_receive k again timer (got p) = pure (received p)
  after_receive k again timer (failed e) = do
    now ← call k.clock
    if eq_ℤ (tm_is_timeout now timer) (pos 0)
        then (if is_enomsg e then again else pure (broken e))
        else pure timed_out

  -- The loops around `msgrcv`. `pause` is the `usleep` at the end of a round.
  unfoldable pub receive :
      System W
      → (pause : Cmd W (Unit {0})) → ℕ
      → (qid : ℤ) (msgtyp : ℤ) (nowait : Bool) → Timer
      → Cmd W Receipt
  receive k pause zero qid msgtyp nowait timer = λ _. out_of_fuel
  receive k pause (suc n) qid msgtyp nowait timer = do
    r ← call (k.msgrcv qid message_queue_max_size msgtyp nowait)
    after_receive k (do pause; receive k pause n qid msgtyp nowait timer) timer r

  abbrev pub after_send :
      (again : Cmd W (Answer (Unit {0}))) → Answer (Unit {0}) → Cmd W (Answer (Unit {0}))
  after_send again (got u) = pure (got u)
  after_send again (failed eintr) = again
  after_send again (failed e) = pure (failed e)

  -- The loops around `msgsnd`: again after EINTR.
  unfoldable pub send :
      System W → ℕ → (qid : ℤ) → Package → (nowait : Bool) → Cmd W (Answer (Unit {0}))
  send k zero qid p nowait = λ _. out_of_fuel
  send k (suc n) qid p nowait = do
    r ← call (k.msgsnd qid p nowait)
    after_send (send k n qid p nowait) r
