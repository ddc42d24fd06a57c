-- ===== src/MsgQ/Server.antt =====
-- The msgQ_srv_* functions of linux/src/msgQ.c, statement by statement. A server is an argument, `none`
-- for a NULL pointer, and its new value is part of the result; the nodes of its event clients, and its
-- `head` among them, are in memory. `n` bounds the rounds of each loop that waits or tries again.
use libjoe.Base.{
  ℕ, zero, suc, ◌+◌, Bool, true, false, Option, none, some, List, [], ℤ, pos, minus_one, pos_part,
  to_int, eq_ℤ, ◌+ℤ◌, ◌-ℤ◌, ltb, ◌==◌, if◌then◌else◌, take, out_of_fuel, pure, ◌>>=◌, ◌>>◌,
}
use libjoe.MsgQ.System.{
  Ptr, null, Package, pkg, message_queue_max_size, Answer, got, failed, System, Cmd,
}
use libjoe.MsgQ.Commands.{
  load, set_next, set_prev, call, sleep, ofree_block, wait_timer, received, timed_out, broken,
  receive, send,
}

-- The data of `msgQ_srv`. `self` is its own address, `head` that of its field of this name.
pub record Srv : Type 0 where
  pub self : Ptr
  pub qid : ℤ
  pub pid : ℤ
  pub head : Ptr
  pub clt_amt : ℤ

-- `msgid` of requests
abbrev pub send_to_server : ℤ
send_to_server = pos 1

abbrev pub reg_to_server : ℤ
reg_to_server = pos 2

-- The bytes that a receiving function copies to a buffer of `len` bytes.
abbrev pub copied : (len : ℕ) → Package → List ℕ
copied len p = take len p.bytes

module _ {W : Type 0} where
  unfoldable pub msg_q_srv_add : Option Srv → (clt : Ptr) → Cmd W (ℤ × Option Srv)
  msg_q_srv_add none clt = pure (minus_one, none)
  msg_q_srv_add (some srv) clt =
      if clt == null
      then pure (minus_one, some srv)
      else if clt == srv.head
      then pure (minus_one, some srv)
      else do
        h ← load srv.head
        set_prev clt h.prev
        set_next clt srv.head
        h' ← load srv.head
        set_next h'.prev clt
        set_prev srv.head clt
        pure (pos 0, some (record srv { clt_amt = srv.clt_amt +ℤ pos 1 }))

  -- The loop of `msgQ_srv_del`.
  unfoldable pub del_loop : ℕ → Srv → (del_client client : Ptr) → Cmd W (ℤ × Option Srv)
  del_loop zero srv del_client client = λ _. out_of_fuel
  del_loop (suc n) srv del_client client =
      if client == srv.head
      then pure (minus_one, some srv)
      else if client == del_client
      then (do
        c ← load client
        set_next c.prev c.next
        c' ← load client
        set_prev c'.next c'.prev
        ofree_block client
        pure (pos 0, some (record srv { clt_amt = srv.clt_amt -ℤ pos 1 })))
      else do c ← load client; del_loop n srv del_client c.next

  unfoldable pub msg_q_srv_del : Option Srv → (del_client : Ptr) → Cmd W (ℤ × Option Srv)
  unfolding del_loop
  msg_q_srv_del none del_client = pure (minus_one, none)
  msg_q_srv_del (some srv) del_client =
      if del_client == null
      then pure (minus_one, some srv)
      else if del_client == srv.head
      then pure (minus_one, some srv)
      else do h ← load srv.head; del_loop (pos_part srv.clt_amt + 1) srv del_client h.next

abbrev pub queue_length : Answer ℤ → ℤ
queue_length (got len) = to_int len
queue_length (failed e) = minus_one

module _ {W : Type 0} (k : System W) where
  unfoldable pub msg_q_srv_length : Option Srv → Cmd W ℤ
  msg_q_srv_length none = pure minus_one
  msg_q_srv_length (some srv) = do r ← call (k.msg_qnum srv.qid); pure (queue_length r)

  -- The loop of `msgQ_srv_clear`; the last parameter is a NULL check that never fails.
  unfoldable pub clear_loop : ℕ → Srv → Cmd W ℤ
  unfolding msg_q_srv_length
  clear_loop zero srv = λ _. out_of_fuel
  clear_loop (suc n) srv = do
    len ← msg_q_srv_length (some srv)
    if eq_ℤ len (pos 0)
        then pure (pos 0)
        else do call (k.msgrcv srv.qid message_queue_max_size (pos 0) true); clear_loop n srv

  unfoldable pub msg_q_srv_clear : ℕ → Option Srv → Cmd W ℤ
  unfolding clear_loop
  msg_q_srv_clear n none = pure minus_one
  msg_q_srv_clear n (some srv) = do
    len ← msg_q_srv_length (some srv)
    if eq_ℤ len (pos 0) then pure (pos 0) else clear_loop n srv

  -- `data` is `none` for a NULL pointer; otherwise `len` bytes are read from it.
  unfoldable pub msg_q_srv_send :
      ℕ → Option Srv → Option (List ℕ) → (len : ℕ) → Cmd W (ℤ × Option Srv)
  msg_q_srv_send n none bytes len = pure (minus_one, none)
  msg_q_srv_send n (some srv) none len = pure (minus_one, some srv)
  msg_q_srv_send n (some srv) (some bytes) len =
      if len == 0
      then pure (minus_one, some srv)
      else if ltb message_queue_max_size len
      then pure (minus_one, some srv)
      else if eq_ℤ srv.pid (pos 0)
      then pure (minus_one, some srv)
      else do
        r ← send k n srv.qid (pkg srv.pid (pos 0) (take len bytes)) true
        let srv' = record srv { pid = pos 0 }
        elim r [ got u ↦ pure (pos 0, some srv') | failed e ↦ pure (minus_one, some srv') ]

  -- `data` is a buffer of `len` bytes, or NULL.
  unfoldable pub msg_q_srv_recv :
      ℕ → Option Srv → (buffer : Bool) → (len : ℕ) → (tout : ℤ) → Cmd W (ℤ × List ℕ × Option Srv)
  msg_q_srv_recv n none buffer len tout = pure (minus_one, [], none)
  msg_q_srv_recv n (some srv) buffer len tout =
      if (if buffer then len == 0 else true)
      then pure (minus_one, [], some srv)
      else if eq_ℤ srv.pid (pos 0)
      then (do
        timer ← wait_timer k tout
        r ←
            receive k (sleep k.usleep) n srv.qid send_to_server
              (if eq_ℤ tout (pos 0) then false else true) timer
        elim r [
          | received p ↦ pure (pos 0, copied len p, some (record srv { pid = to_int p.xid }))
          | timed_out ↦ pure (pos 1, [], some srv)
          | broken e ↦ pure (minus_one, [], some srv)
        ])
      else pure (pos 0, [], some srv)
