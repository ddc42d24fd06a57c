-- ===== src/MsgQ/ExchangeTests.antt =====
-- A request and its response in linux/src/msgQ.c on a concrete system, and the theorems about them there.
use libjoe.Base.{
  ◌≡◌, ◌⊎◌, ◌≤◌, refl, some, none, true, [], ◌∷◌, ℤ, pos, minus_one, arith, ok, replicate,
}
use libjoe.Mem.{mem_manager}
use libjoe.MsgQ.System.{pkg, State}
use libjoe.MsgQ.Commands.{send}
use libjoe.MsgQ.Server.{Srv, send_to_server, msg_q_srv_send, msg_q_srv_recv}
use libjoe.MsgQ.Client.{Clt, msg_q_clt_send, msg_q_clt_recv}
use libjoe.MsgQ.Exchange.{
  msg_q_srv_recv-msg_q_clt_send, msg_q_clt_recv-msg_q_srv_send, msg_q_srv_recv-too_big,
}
use libjoe.MsgQ.Sample.{Queues, put_in, held, system, system-IsQueue}

abbrev clt : Clt
clt = record { self = 1000; srv_q = pos 3; pid = pos 0; eid = pos 0; hand = 0 }

abbrev idle : Srv
idle = record { self = 1000; qid = pos 3; pid = pos 0; head = 1088; clt_amt = pos 0 }

abbrev busy : Srv
busy = record { self = 1000; qid = pos 3; pid = pos 60; head = 1088; clt_amt = pos 0 }

abbrev state : Queues → State Queues
state w = record { cell = λ _. none; log = mem_manager; tout_cnt = pos 0; world = w }

-- A response to another process waits.
abbrev before : Queues
before = put_in (pos 3) (pkg (pos 61) (pos 0) (8 ∷ [])) (λ _. [])

abbrev requested : Queues
requested = put_in (pos 3) (pkg send_to_server (pos 60) (1 ∷ 2 ∷ [])) before

msg_q_srv_recv-msg_q_clt_send_example :
    (st3 : State Queues) × (msg_q_srv_recv
        (system (pos 50))
        1
        (some idle)
        true
        16
        (pos 20)
        (state requested)
      ≡ ok (pos 0, 1 ∷ 2 ∷ [], some busy) st3)
    × (st3.world (pos 3) ≡ before (pos 3))
unfolding msg_q_clt_send send
msg_q_srv_recv-msg_q_clt_send_example =
    msg_q_srv_recv-msg_q_clt_send held (system-IsQueue (pos 60)) (system-IsQueue (pos 50)) clt idle
      1 0 (1 ∷ 2 ∷ []) 2 16 (pos 20) (state before) (state requested) (state requested) refl refl
      (omega arith) (omega arith) (omega arith) refl refl refl

abbrev responded : Queues
responded = put_in (pos 3) (pkg (pos 60) (pos 0) (5 ∷ [])) before

msg_q_clt_recv-msg_q_srv_send_example :
    (st3 : State Queues) × (msg_q_clt_recv
        (system (pos 60))
        1
        (some clt)
        true
        16
        (pos 0)
        (state responded)
      ≡ ok (pos 0, 5 ∷ []) st3)
    × (st3.world (pos 3) ≡ before (pos 3))
    × (idle ≡ record busy { pid = pos 0 })
unfolding msg_q_srv_send send
msg_q_clt_recv-msg_q_srv_send_example =
    msg_q_clt_recv-msg_q_srv_send held (system-IsQueue (pos 60)) (system-IsQueue (pos 50)) clt busy
      idle 1 0 (5 ∷ []) 1 16 (pos 0) (state before) (state responded) (state responded) refl refl
      (λ e. ground arith) (omega arith) (omega arith) (omega arith) refl refl refl

abbrev large : Queues
large = put_in (pos 3) (pkg send_to_server (pos 60) (replicate 2040 7)) before

msg_q_srv_recv-too_big_example :
    (r : ℤ) × (st3 : State Queues) × (msg_q_srv_recv
        (system (pos 50))
        1
        (some idle)
        true
        16
        (pos 0)
        (state large)
      ≡ ok (r, [], some idle) st3)
    × ((r ≡ pos 1) ⊎ (r ≡ minus_one))
    × (st3.world (pos 3) ≡ large (pos 3))
unfolding msg_q_clt_send send
msg_q_srv_recv-too_big_example =
    msg_q_srv_recv-too_big held (system-IsQueue (pos 60)) (system-IsQueue (pos 50)) clt idle 1 0
      (replicate 2040 7) 2040 16 (pos 0) (state before) (state large) (state large) refl refl
      (omega arith) (omega arith) (let h : 2040 ≤ 2040 = omega arith in h) (omega arith) refl refl
      refl
