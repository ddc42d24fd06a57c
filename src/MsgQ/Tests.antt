-- ===== src/MsgQ/Tests.antt =====
-- The servers of linux/src/msgQ.c on a concrete system, and the theorems about them there.
use libjoe.Base.{
  Bool, true, List, length, eq_ℤ, ◌<◌, ◌≡◌, refl, sym, inl, inr, none, some, false, [], ◌∷◌, ℤ, pos,
  ◌+ℤ◌, ◌-ℤ◌, arith, ◌==◌, ok, fault, Safe, Ensures, replicate,
}
use libjoe.Mem.{cleared, ofree}
use libjoe.Mem.Live.{is_live, is_distinct, used, AllCleared-replicate}
use libjoe.Timer.Functions.{zero_timer}
use libjoe.MsgQ.System.{got, System, IsLibc, Ptr, Package, pkg, EveClt, Cell, write, State}
use libjoe.MsgQ.Server.{Srv, reg_to_server, msg_q_srv_add, msg_q_srv_del}
use libjoe.MsgQ.Events.{msg_q_srv_init, msg_q_srv_monitorrequest, register, msg_q_srv_sendevent}
use libjoe.MsgQ.View.{next_of, prev_of, qid_of}
use libjoe.MsgQ.Registry.{Clients, IsRing}
use libjoe.MsgQ.Adding.{msg_q_srv_add-appends}
use libjoe.MsgQ.Removing.{msg_q_srv_del-removes}
use libjoe.MsgQ.Registered.{IsServer}
use libjoe.MsgQ.Registering.{Changed, Answered, register-answers}
use libjoe.MsgQ.Monitoring.{IntXids, msg_q_srv_monitorrequest-IsServer}
use libjoe.MsgQ.Clearing.{IsCounted, AllFit}
use libjoe.MsgQ.Starting.{Started, msg_q_srv_init-IsServer}
use libjoe.MsgQ.Broadcast.{msg_q_srv_sendevent-broadcast, msg_q_srv_sendevent-fault}
use libjoe.MsgQ.Sample.{Queues, held, put_in, system, system-IsLibc, system-IsQueue}

abbrev clt_of : ℤ → Ptr → Ptr → EveClt
clt_of q p n = record { qid = q; timer = zero_timer; prev = p; next = n }

-- A server with one client, whose queue is `q`, and a client at 3000 that stands apart.
abbrev state : ℤ → State Queues
state q = record {
  cell =
      write
        (write (write (λ _. none) 1088 (some (clt_of (pos 0) 2000 2000))) 2000
          (some (clt_of q 1088 1088)))
        3000 (some (clt_of (pos 9) 0 0));
  log =
      record { dec = "a"; addr = 2000; size = 40 }
      ∷ record { dec = "b"; addr = 3000; size = 40 }
      ∷ replicate 198 cleared;
  tout_cnt = pos 0;
  world = λ _. [];
}

abbrev srv : Srv
srv = record { self = 1000; qid = pos 3; pid = pos 0; head = 1088; clt_amt = pos 1 }

abbrev one : ℤ → Clients
one q = (2000, q) ∷ []

one-IsRing : (q : ℤ) → IsRing (state q).cell (state q).log 1088 (one q)
unfolding write next_of prev_of qid_of is_live is_distinct
one-IsRing q = record {
  given = omega arith;
  head = (pos 0, refl);
  path = (refl, refl, (refl, refl));
  apart = refl;
  holds = (omega arith, refl, refl, tt);
  log = record {
    slots = refl;
    distinct = refl;
    unused = (λ z. absurd (omega arith), (λ z. absurd (omega arith), AllCleared-replicate 198));
  };
}

one-IsServer : (q : ℤ) → IsServer (state q).cell (state q).log srv (one q)
one-IsServer q = record { ring = one-IsRing q; amount = refl; few = omega arith; apart = refl }

msg_q_srv_add-appends_example :
    (c' : Cell) × (msg_q_srv_add (some srv) 3000 (state (pos 7))
      ≡ ok
          (pos 0, some (record srv { clt_amt = pos 1 +ℤ pos 1 }))
          (record (state (pos 7)) { cell = c' }))
    × IsRing c' (state (pos 7)).log 1088 ((2000, pos 7) ∷ (3000, pos 9) ∷ [])
    × ((x : Ptr) → qid_of c' x ≡ qid_of (state (pos 7)).cell x)
unfolding write qid_of is_live
msg_q_srv_add-appends_example =
    msg_q_srv_add-appends (state (pos 7)) srv (one (pos 7)) 3000 (pos 9) (one-IsRing (pos 7))
      (omega arith) refl refl refl

msg_q_srv_del-removes_example :
    (c' : Cell) × (msg_q_srv_del (some srv) 2000 (state (pos 7))
      ≡ ok
          (pos 0, some (record srv { clt_amt = pos 1 -ℤ pos 1 }))
          (record (state (pos 7)) { cell = c'; log = (ofree 2000 (state (pos 7)).log).1 }))
    × IsRing c' (ofree 2000 (state (pos 7)).log).1 1088 []
    × (qid_of c' 2000 ≡ none)
    × ((x : Ptr) → (x == 2000) ≡ false → qid_of c' x ≡ qid_of (state (pos 7)).cell x)
msg_q_srv_del-removes_example =
    msg_q_srv_del-removes (state (pos 7)) srv [] [] 2000 (pos 7) (one-IsRing (pos 7)) refl

abbrev request : ℤ → Package
request q = pkg reg_to_server q []

-- There is always one more request.
abbrev requests : System Queues
requests = record (system (pos 50)) { msgrcv = λ q size t nowait w. (got (request (pos 8)), w) }

requests-IsLibc : IsLibc requests
requests-IsLibc =
    let lib = system-IsLibc (pos 50) in
    record { fresh_cell = lib.fresh_cell; fresh_log = lib.fresh_log }

requests-IntXids : IntXids requests
requests-IntXids q size t nowait w p e = let same : request (pos 8) ≡ p = cc e in rw (sym same) refl

msg_q_srv_monitorrequest-IsServer_example :
    Safe
      (Changed (pos 7 ∷ []))
      (msg_q_srv_monitorrequest requests 4 (some srv) (pos 20) (state (pos 7)))
msg_q_srv_monitorrequest-IsServer_example =
    msg_q_srv_monitorrequest-IsServer requests requests-IsLibc requests-IntXids 4 srv (pos 20)
      (state (pos 7)) (one (pos 7)) (one-IsServer (pos 7))

abbrev answered : Queues
answered = put_in (pos 8) (pkg reg_to_server (pos 50) []) (λ _. [])

register-answers_example :
    Ensures
      (Answered (pos 8) answered)
      (register (system (pos 50)) 4 srv (request (pos 8)) (state (pos 7)))
unfolding write is_live used
register-answers_example =
    register-answers (system (pos 50)) (system-IsLibc (pos 50)) 3 srv (request (pos 8))
      (state (pos 7)) (one (pos 7)) answered refl (one-IsServer (pos 7)) (omega arith)
      (λ why. elim why [ inl z ↦ absurd (omega arith) | inr full ↦ absurd (omega arith) ]) refl

abbrev event : Package
event = pkg (pos 50) (pos 0) (1 ∷ 2 ∷ [])

msg_q_srv_sendevent-broadcast_example :
    msg_q_srv_sendevent (system (pos 50)) 5 (some srv) (some (1 ∷ 2 ∷ 3 ∷ [])) 2 (state (pos 7))
    ≡ ok (pos 0, some srv) (record (state (pos 7)) { world = put_in (pos 7) event (λ _. []) })
msg_q_srv_sendevent-broadcast_example =
    msg_q_srv_sendevent-broadcast (system (pos 50)) srv (state (pos 7)) (1 ∷ 2 ∷ 3 ∷ []) 2
      (omega arith) (omega arith) (one (pos 7)) 5 (one-IsServer (pos 7)) (omega arith)
      (inl refl, tt)

msg_q_srv_sendevent-fault_example :
    msg_q_srv_sendevent (system (pos 50)) 5 (some srv) (some (1 ∷ 2 ∷ [])) 2 (state (pos 99))
    ≡ fault
msg_q_srv_sendevent-fault_example =
    msg_q_srv_sendevent-fault (system (pos 50)) srv (state (pos 99)) (1 ∷ 2 ∷ []) 2 (omega arith)
      (omega arith) [] [] 2000 (pos 99) 5 (one-IsServer (pos 99)) (omega arith) tt refl

-- A server as `msgQ_srv_new` leaves it.
abbrev unset : Srv
unset = record { self = 1000; qid = pos 0; pid = pos 0; head = 1088; clt_amt = pos 0 }

system-IsCounted : IsCounted held (system (pos 50))
system-IsCounted = record {
  counts = λ q w. refl;
  counted = λ q r w. refl;
  stat = λ r w. refl;
  mkdir = λ r w. refl;
  exists = λ name r w. refl;
  create = λ name r w. refl;
  ftok = λ name r w. refl;
  msgget = λ key new r w. refl;
}

-- Two messages have been left in the queue of the server.
abbrev left_over : Bool → List Package
left_over true = request (pos 8) ∷ event ∷ []
left_over false = []

abbrev unclean : State Queues
unclean = record (state (pos 7)) { world = λ q. left_over (eq_ℤ q (pos 3)) }

left_over-AllFit : (b : Bool) → AllFit (left_over b)
left_over-AllFit true = (omega arith, (omega arith, tt))
left_over-AllFit false = tt

length-left_over : (b : Bool) → length (left_over b) < 3
length-left_over true = omega arith
length-left_over false = omega arith

msg_q_srv_init-IsServer_example :
    Ensures
      (Started held unclean)
      (msg_q_srv_init (system (pos 50)) 3 (some unset) (some "test") unclean)
msg_q_srv_init-IsServer_example =
    msg_q_srv_init-IsServer (system-IsQueue (pos 50)) system-IsCounted 3 unset unclean (omega arith)
      (one-IsRing (pos 7)).head refl (one-IsRing (pos 7)).log
      (λ q. left_over-AllFit (eq_ℤ q (pos 3))) (λ q. length-left_over (eq_ℤ q (pos 3)))
      (omega arith) "test"
