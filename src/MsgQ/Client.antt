-- ===== src/MsgQ/Client.antt =====
-- The msgQ_clt_* functions of linux/src/msgQ.c, statement by statement. A client is an argument, `none`
-- for a NULL pointer, and its new value is part of the result.
use Prim.Native.String.{String}
use libjoe.Base.{
  ℕ, Bool, true, false, Option, none, some, List, [], ℤ, pos, negsuc, minus_one, to_int, eq_ℤ,
  leb_ℤ, ◌+ℤ◌, ltb, ◌==◌, if◌then◌else◌, take, ok, pure, ◌>>=◌, ◌>>◌,
}
use libjoe.Mem.{omalloc, ofree}
use libjoe.Timer.Functions.{zero_timer, tm_set_ms}
use libjoe.MsgQ.System.{Ptr, null, pkg, message_queue_max_size, got, failed, System, Cmd}
use libjoe.MsgQ.Commands.{
  call, sleep, or_zero, wait_timer, received, timed_out, broken, receive, send,
}
use libjoe.MsgQ.Files.{msg_q_get_qid}
use libjoe.MsgQ.Server.{send_to_server, reg_to_server, copied}

-- The data of `msgQ_clt`. `hand` is the address of the handler, `self` the client's own.
pub record Clt : Type 0 where
  pub self : Ptr
  pub srv_q : ℤ
  pub pid : ℤ
  pub eid : ℤ
  pub hand : Ptr

-- `MESSAGE_QUEUE_ANY_MESSAGE`
abbrev pub any_message : ℤ
any_message = pos 0

module _ {W : Type 0} (k : System W) where
  unfoldable pub msg_q_clt_send : ℕ → Option Clt → Option (List ℕ) → (len : ℕ) → Cmd W ℤ
  msg_q_clt_send n none bytes len = pure minus_one
  msg_q_clt_send n (some clt) none len = pure minus_one
  msg_q_clt_send n (some clt) (some bytes) len =
      if len == 0
      then pure minus_one
      else if ltb message_queue_max_size len
      then pure minus_one
      else do
        r ← send k n clt.srv_q (pkg send_to_server k.pid (take len bytes)) false
        elim r [ got u ↦ pure (pos 0) | failed e ↦ pure minus_one ]

  -- `data` is a buffer of `len` bytes, or NULL. The loop does not sleep.
  unfoldable pub msg_q_clt_recv :
      ℕ → Option Clt → (buffer : Bool) → (len : ℕ) → (tout : ℤ) → Cmd W (ℤ × List ℕ)
  msg_q_clt_recv n none buffer len tout = pure (minus_one, [])
  msg_q_clt_recv n (some clt) buffer len tout =
      if (if buffer then len == 0 else true) then pure (minus_one, []) else do
        timer ← wait_timer k tout
        r ← receive k (pure tt) n clt.srv_q k.pid (if eq_ℤ tout (pos 0) then false else true) timer
        elim r [
          | received p ↦ pure (pos 0, copied len p)
          | timed_out ↦ pure (pos 1, [])
          | broken e ↦ pure (minus_one, [])
        ]

  abbrev pub forget : Clt → Clt
  forget clt = record clt { pid = pos 0; hand = null }

  -- After more than ten time-outs in a row the client registers again.
  unfoldable pub count_timeout : Clt → Cmd W (ℤ × Option Clt)
  count_timeout clt st =
      if leb_ℤ st.tout_cnt (pos 10)
      then ok (pos 1, some clt) (record st { tout_cnt = st.tout_cnt +ℤ pos 1 })
      else ok (minus_one, some (forget clt)) (record st { tout_cnt = pos 0 })

  unfoldable pub msg_q_clt_monitorevent : ℕ → Option Clt → (tout : ℤ) → Cmd W (ℤ × Option Clt)
  unfolding count_timeout
  msg_q_clt_monitorevent n none tout = pure (minus_one, none)
  msg_q_clt_monitorevent n (some clt) tout = do
    timer ← wait_timer k tout
    r ←
        receive k (sleep k.usleep) n clt.eid any_message (if eq_ℤ tout (pos 0) then false else true)
          timer
    elim r [
      | timed_out ↦ count_timeout clt
      | broken e ↦ pure (minus_one, some (forget clt))
      | received p ↦ if clt.hand == null then pure (minus_one, some clt) else do
        res ← call (k.hand clt.hand p.bytes)
        if eq_ℤ res (pos 0) then pure (pos 0, some clt) else pure (minus_one, some clt)
    ]

  -- The private queue is removed again where the registration fails.
  unfoldable pub give_up : Clt → Cmd W (ℤ × Option Clt)
  give_up clt = do call (k.remove clt.eid); pure (minus_one, some clt)

  -- The wait for the server's response, three seconds at most.
  unfoldable pub await_response : ℕ → Clt → (hand : Ptr) → Cmd W (ℤ × Option Clt)
  unfolding give_up
  await_response n clt hand = do
    now ← call k.clock
    let timer = or_zero (tm_set_ms now (some zero_timer) 3000).1
    r ← receive k (sleep k.usleep) n clt.eid any_message true timer
    elim r [
      | received p ↦ pure (pos 0, some (record clt { pid = to_int p.xid; hand = hand }))
      | timed_out ↦ give_up clt
      | broken e ↦ give_up clt
    ]

  unfoldable pub msg_q_clt_requestevent :
      ℕ → Option Clt → (key : Option String) → (hand : Ptr) → Cmd W (ℤ × Option Clt)
  unfolding await_response give_up
  msg_q_clt_requestevent n none key hand = pure (minus_one, none)
  msg_q_clt_requestevent n (some clt) none hand = pure (minus_one, some clt)
  msg_q_clt_requestevent n (some clt) (some key) hand =
      if hand == null
      then pure (minus_one, some clt)
      else if eq_ℤ clt.pid (pos 0)
      then (do
        eid ← msg_q_get_qid k (some (k.event_name key))
        let clt' = record clt { eid = eid }
        elim eid [
          | negsuc m ↦ pure (minus_one, some clt')
          | pos m ↦ do
            r ← send k n clt.srv_q (pkg reg_to_server (pos m) []) true
            elim r [ failed e ↦ give_up clt' | got u ↦ await_response n clt' hand ]
        ])
      else pure (pos 0, some (record clt { hand = hand }))

  unfoldable pub ofree_clt : Clt → Cmd W ℤ
  ofree_clt clt st = let (r, log') = ofree clt.self st.log in ok r (record st { log = log' })

  unfoldable pub msg_q_clt_destroy : Option Clt → Cmd W (ℤ × Option Clt)
  unfolding ofree_clt
  msg_q_clt_destroy none = pure (minus_one, none)
  msg_q_clt_destroy (some clt) = do
    r ← call (k.remove clt.srv_q)
    elim r [ failed e ↦ pure (minus_one, some clt) | got u ↦ do ofree_clt clt; pure (pos 0, none) ]

  unfoldable pub msg_q_clt_init : Option Clt → Option String → Cmd W (ℤ × Option Clt)
  msg_q_clt_init none name = pure (minus_one, none)
  msg_q_clt_init (some clt) none = pure (minus_one, some clt)
  msg_q_clt_init (some clt) (some name) = do
    qid ← msg_q_get_qid k (some name)
    let clt' = record clt { srv_q = qid }
    elim qid [ negsuc m ↦ pure (minus_one, some clt') | pos m ↦ pure (pos 0, some clt') ]

  -- sizeof(msgQ_clt)
  abbrev pub clt_size : ℕ
  clt_size = 72

  unfoldable pub msg_q_clt_new : Cmd W (Option Clt)
  msg_q_clt_new st =
      let (p, log') = omalloc (k.malloc st clt_size) k.stamp (some "msgQ_clt") clt_size st.log in
      ok
        (if p == null
          then none
          else some record { self = p; srv_q = pos 0; pid = pos 0; eid = pos 0; hand = null })
        (record st { log = log' })
