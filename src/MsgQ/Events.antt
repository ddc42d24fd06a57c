-- ===== src/MsgQ/Events.antt =====
-- The functions of linux/src/msgQ.c by which a server registers event clients and sends them events, and
-- by which it is made, set up and destroyed.
use Prim.Native.String.{String}
use libjoe.Base.{
  ℕ, zero, suc, ◌+◌, true, false, Option, none, some, List, [], ℤ, pos, negsuc, minus_one, pos_part,
  to_int, eq_ℤ, leb_ℤ, ltb, ◌==◌, if◌then◌else◌, take, ok, out_of_fuel, pure, ◌>>=◌, ◌>>◌,
}
use libjoe.Mem.{omalloc, ofree}
use libjoe.Timer.Functions.{zero_timer, tm_set_ms}
use libjoe.MsgQ.System.{
  Ptr, null, Package, pkg, EveClt, write, message_queue_max_size, message_queue_max_client, eintr,
  eagain, Answer, got, failed, System, Cmd,
}
use libjoe.MsgQ.Commands.{
  load, set_next, set_prev, set_timer, call, sleep, ofree_block, new_eve_clt, or_zero, wait_timer,
  received, timed_out, broken, receive, send,
}
use libjoe.MsgQ.Files.{msg_q_get_qid}
use libjoe.MsgQ.Server.{Srv, reg_to_server, msg_q_srv_add, msg_q_srv_del, msg_q_srv_clear}

module _ {W : Type 0} where
  -- The loop of `msgQ_srv_monitorrequest`: the client with this queue, or `head`.
  unfoldable pub find_loop : ℕ → Srv → (xid : ℤ) → (client : Ptr) → Cmd W Ptr
  find_loop zero srv xid client = λ _. out_of_fuel
  find_loop (suc n) srv xid client =
      if client == srv.head
      then pure client
      else do c ← load client; if eq_ℤ c.qid xid then pure client else find_loop n srv xid c.next

  abbrev pub after_response : Srv → (client : Ptr) → Answer (Unit {0}) → Cmd W (ℤ × Option Srv)
  after_response srv client (got u) = pure (pos 0, some srv)
  after_response srv client (failed eagain) = pure (minus_one, some srv)
  after_response srv client (failed e) = do
    (_, srv') ← msg_q_srv_del (some srv) client
    pure (minus_one, srv')

module _ {W : Type 0} (k : System W) where
  -- The loop of `msgQ_srv_sendevent`. A client whose queue fails is deleted, and then read again.
  unfoldable pub event_loop : ℕ → Srv → Package → (client : Ptr) → Cmd W (Option Srv)
  event_loop zero srv p client = λ _. out_of_fuel
  event_loop (suc n) srv p client = if client == srv.head then pure (some srv) else do
    c ← load client
    r ← call (k.msgsnd c.qid p true)
    elim r [
      | got u ↦ do c' ← load client; event_loop n srv p c'.next
      | failed e ↦ elim e [
        | eintr ↦ event_loop n srv p client
        | eagain ↦ do c' ← load client; event_loop n srv p c'.next
        | e' ↦ do
          (_, srv') ← msg_q_srv_del (some srv) client
          c' ← load client
          elim srv' [ none ↦ pure none | some s ↦ event_loop n s p c'.next ]
      ]
    ]

  unfoldable pub msg_q_srv_sendevent :
      ℕ → Option Srv → Option (List ℕ) → (len : ℕ) → Cmd W (ℤ × Option Srv)
  unfolding event_loop
  msg_q_srv_sendevent n none bytes len = pure (minus_one, none)
  msg_q_srv_sendevent n (some srv) none len = pure (minus_one, some srv)
  msg_q_srv_sendevent n (some srv) (some bytes) len =
      if len == 0
      then pure (minus_one, some srv)
      else if ltb message_queue_max_size len
      then pure (minus_one, some srv)
      else do
        h ← load srv.head
        srv' ← event_loop n srv (pkg k.pid (pos 0) (take len bytes)) h.next
        pure (pos 0, srv')

  -- The client that the loop has found, or a new one; `none` where that fails.
  unfoldable pub client_for : Srv → (xid : ℤ) → (client : Ptr) → Cmd W (Option (Ptr × Srv))
  client_for srv xid client =
      if client == srv.head
      then (do
        new ← new_eve_clt k (to_int xid)
        if new == null then pure none else do
          (r, srv') ← msg_q_srv_add (some srv) new
          if eq_ℤ r (pos 0)
              then pure (elim srv' [ none ↦ none | some s ↦ some (new, s) ])
              else do ofree_block new; pure none)
      else pure (some (client, srv))

  -- The timer of the client is set, and it gets a response with the process number of the server; a client
  -- whose queue fails is deleted.
  unfoldable pub respond : ℕ → Srv → Package → (client : Ptr) → Cmd W (ℤ × Option Srv)
  respond n srv p client = do
    now ← call k.clock
    c0 ← load client
    set_timer client (or_zero (tm_set_ms now (some c0.timer) 0).1)
    c ← load client
    r ← send k n c.qid (pkg p.msgid k.pid []) false
    after_response srv client r

  -- What `msgQ_srv_monitorrequest` does with a request.
  unfoldable pub register : ℕ → Srv → Package → Cmd W (ℤ × Option Srv)
  unfolding find_loop client_for respond
  register n srv p =
      if leb_ℤ (pos message_queue_max_client) srv.clt_amt then pure (minus_one, some srv) else do
        h ← load srv.head
        found ← find_loop (pos_part srv.clt_amt + 1) srv p.xid h.next
        r ← client_for srv p.xid found
        elim r [ none ↦ pure (minus_one, some srv) | some (client, srv') ↦ respond n srv' p client ]

  unfoldable pub msg_q_srv_monitorrequest : ℕ → Option Srv → (tout : ℤ) → Cmd W (ℤ × Option Srv)
  unfolding register
  msg_q_srv_monitorrequest n none tout = pure (minus_one, none)
  msg_q_srv_monitorrequest n (some srv) tout = do
    timer ← wait_timer k tout
    r ←
        receive k (sleep k.usleep) n srv.qid reg_to_server
          (if eq_ℤ tout (pos 0) then false else true) timer
    elim r [
      | received p ↦ register n srv p
      | timed_out ↦ pure (pos 1, some srv)
      | broken e ↦ pure (minus_one, some srv)
    ]

  -- `ofree` of the server, with its field `head`.
  unfoldable pub ofree_srv : Srv → Cmd W ℤ
  ofree_srv srv st =
      let (r, log') = ofree srv.self st.log in
      ok r (record st {
        cell = elim r [ pos n ↦ write st.cell srv.head none | negsuc n ↦ st.cell ];
        log = log';
      })

  unfoldable pub msg_q_srv_destroy : Option Srv → Cmd W (ℤ × Option Srv)
  unfolding ofree_srv
  msg_q_srv_destroy none = pure (minus_one, none)
  msg_q_srv_destroy (some srv) = do
    r ← call (k.remove srv.qid)
    elim r [ failed e ↦ pure (minus_one, some srv) | got u ↦ do ofree_srv srv; pure (pos 0, none) ]

  -- A queue number below 0 is an error; otherwise the queue is emptied and the ring of clients closed.
  unfoldable pub after_get_qid : ℕ → Srv → Cmd W (ℤ × Option Srv)
  after_get_qid n srv = elim srv.qid [
    | negsuc m ↦ pure (minus_one, some srv)
    | pos m ↦ do
      msg_q_srv_clear k n (some srv)
      set_prev srv.head srv.head
      set_next srv.head srv.head
      pure (pos 0, some (record srv { pid = pos 0 }))
  ]

  unfoldable pub msg_q_srv_init : ℕ → Option Srv → Option String → Cmd W (ℤ × Option Srv)
  unfolding after_get_qid
  msg_q_srv_init n none name = pure (minus_one, none)
  msg_q_srv_init n (some srv) none = pure (minus_one, some srv)
  msg_q_srv_init n (some srv) (some name) = do
    qid ← msg_q_get_qid k (some name)
    after_get_qid n (record srv { qid = qid })

  -- sizeof(msgQ_srv), and the place of `head` in it
  abbrev pub srv_size : ℕ
  srv_size = 136

  abbrev pub head_offset : ℕ
  head_offset = 88

  unfoldable pub msg_q_srv_new : Cmd W (Option Srv)
  msg_q_srv_new st =
      let (p, log') = omalloc (k.malloc st srv_size) k.stamp (some "msgQ_srv") srv_size st.log in
      let clear : EveClt = record { qid = pos 0; timer = zero_timer; prev = null; next = null } in
      if p == null
      then ok none (record st { log = log' })
      else ok
          (some
            record { self = p; qid = pos 0; pid = pos 0; head = p + head_offset; clt_amt = pos 0 })
          (record st { cell = write st.cell (p + head_offset) (some clear); log = log' })
