-- ===== src/MsgQ/Broadcast.antt =====
-- `msgQ_srv_sendevent` of linux/src/msgQ.c: an event goes to the queue of each client, in the order of the
-- ring.
use libjoe.Base.{
  ℕ, suc, ◌+◌, ◌-◌, ◌≡◌, ◌≤◌, ◌<◌, refl, sym, ap, ◌∙◌, ◌≢◌, ◌⊎◌, inl, inr, append-nil, true, false,
  some, List, [], ◌∷◌, ◌++◌, ℤ, pos, arith, ◌==◌, ltb, ==-sym_false, ==-false, ok, fault, length,
  take,
}
use libjoe.MsgQ.System.{
  Ptr, message_queue_max_size, Package, pkg, State, System, got, failed, eagain, eidrm,
}
use libjoe.MsgQ.Server.{Srv}
use libjoe.MsgQ.Events.{event_loop, msg_q_srv_sendevent}
use libjoe.MsgQ.Ring.{mem, first_of, LinkPath, mem-append, distinct}
use libjoe.MsgQ.View.{load-freed, next_of, prev_of}
use libjoe.MsgQ.Registry.{
  Clients, addrs, addrs-append, Holds, Holds-left, Holds-middle, LinkPath-ends, read_at, some_inj,
}
use libjoe.Mem.{ofree}
use libjoe.MsgQ.Removing.{msg_q_srv_del-removes}
use libjoe.MsgQ.Registered.{qids, IsServer}

-- The world after a package was put into each of the queues, one after the other.
abbrev pub broadcast : {W : Type 0} → System W → Package → List ℤ → W → W
broadcast k p [] w = w
broadcast k p (q ∷ qs) w = broadcast k p qs (k.msgsnd q p true w).1

-- Each queue takes the package, or is full.
abbrev pub Delivers : {W : Type 0} → System W → Package → List ℤ → W → Type 0
Delivers k p [] w = Unit {0}
Delivers k p (q ∷ qs) w =
    (((k.msgsnd q p true w).0 ≡ got tt) ⊎ ((k.msgsnd q p true w).0 ≡ failed eagain))
    × Delivers k p qs (k.msgsnd q p true w).1

module _ {W : Type 0} (k : System W) (srv : Srv) (p : Package) where
  -- The loop passes over clients whose queues take the package or are full.
  event_loop-Delivers :
      (st : State W) (m : ℕ) (a : Ptr) (ys : Clients) (rest : List Ptr)
      → LinkPath (next_of st.cell) (prev_of st.cell) a (addrs ys ++ rest) srv.head
      → Holds st.cell st.log ys
      → mem srv.head (addrs ys) ≡ false
      → Delivers k p (qids ys) st.world
      → event_loop k (length ys + m) srv p (first_of (addrs ys ++ rest) srv.head) st
        ≡ event_loop k m srv p
            (first_of rest srv.head)
            (record st { world = broadcast k p (qids ys) st.world })
  unfolding event_loop
  event_loop-Delivers st m a [] rest path h out sent = let e : 0 + m ≡ m = omega arith in rw e refl
  event_loop-Delivers st m a ((c, q) ∷ ys) rest (_, _, path) (ne, e, _, h) out (answer, sent) =
      let (n, r, _, same, _, _) = read_at st c q ne e in
      let st1 = record st { world = (k.msgsnd q p true st.world).1 } in
      let (n1, r1, _, _, nx, _) = read_at st1 c q ne e in
      let (go, _) =
        LinkPath-ends (next_of st.cell) (prev_of st.cell) c (addrs ys ++ rest) srv.head path in
      let to : n1.next ≡ first_of (addrs ys ++ rest) srv.head = some_inj (sym nx ∙ go) in
      let apart : (c == srv.head) ≡ false = ground arith in
      let fuel : length ((c, q) ∷ ys) + m ≡ suc (length ys + m) = omega arith in
      let step =
        ap (λ y. event_loop k (length ys + m) srv p y st1) to
        ∙ event_loop-Delivers st1 m c ys rest path h (ground arith) sent in
      elim answer [
        | inl taken ↦ rw (fuel, apart, r, same, taken, r1) step
        | inr full ↦ rw (fuel, apart, r, same, full, r1) step
      ]

module _ {W : Type 0} (k : System W) (srv : Srv) (st : State W) (bytes : List ℕ) (len : ℕ)
    (sz : len ≢ 0) (fits : len ≤ message_queue_max_size) where
  -- With data of 1 to 2040 bytes and queues that each take the event or are full, `msgQ_srv_sendevent`
  -- returns 0 after one msgsnd to the queue of each client, in the order of registration; the server and
  -- its memory stay as they are.
  pub msg_q_srv_sendevent-broadcast :
      (xs : Clients) (n : ℕ)
      → IsServer st.cell st.log srv xs
      → length xs < n
      → Delivers k (pkg k.pid (pos 0) (take len bytes)) (qids xs) st.world
      → msg_q_srv_sendevent k n (some srv) (some bytes) len st
        ≡ ok
            (pos 0, some srv)
            (record st {
              world = broadcast k (pkg k.pid (pos 0) (take len bytes)) (qids xs) st.world;
            })
  unfolding msg_q_srv_sendevent event_loop
  msg_q_srv_sendevent-broadcast xs n here enough sent =
      let p = pkg k.pid (pos 0) (take len bytes) in
      let ring = here.ring in
      let nz : (len == 0) ≡ false = ==-false len 0 sz in
      let small : ltb message_queue_max_size len ≡ false = ground arith in
      let (h, r0, _, _, nx, _) = read_at st srv.head ring.head.0 ring.given ring.head.1 in
      let path : LinkPath (next_of st.cell) (prev_of st.cell) srv.head (addrs xs ++ []) srv.head =
        rw (append-nil (addrs xs)) ring.path in
      let (go, _) =
        LinkPath-ends (next_of st.cell) (prev_of st.cell) srv.head (addrs xs ++ []) srv.head path in
      let to : h.next ≡ first_of (addrs xs ++ []) srv.head = some_inj (sym nx ∙ go) in
      let fuel : n ≡ length xs + suc (n - length xs - 1) = omega arith in
      let end : (srv.head == srv.head) ≡ true = ground arith in
      let st' = record st { world = broadcast k p (qids xs) st.world } in
      let last : event_loop k (suc (n - length xs - 1)) srv p srv.head st' ≡ ok (some srv) st' =
        rw end refl in
      let loop : event_loop k n srv p h.next st ≡ ok (some srv) st' =
        ap (λ y. event_loop k n srv p y st) to
        ∙ ap (λ m. event_loop k m srv p (first_of (addrs xs ++ []) srv.head) st) fuel
        ∙ event_loop-Delivers k srv p st (suc (n - length xs - 1)) srv.head xs [] path ring.holds
            (ground (arith, ring.apart)) sent
        ∙ last in
      rw (nz, small, r0, loop) refl

  -- When the queue of a client is gone (EIDRM) and the queues before it take the event or are full,
  -- `msgQ_srv_sendevent` of 1 to 2040 bytes reads the client after it has been given back: a fault.
  pub msg_q_srv_sendevent-fault :
      (ys zs : Clients) (d : Ptr) (q : ℤ) (n : ℕ)
      → IsServer st.cell st.log srv (ys ++ (d, q) ∷ zs)
      → length ys < n
      → Delivers k (pkg k.pid (pos 0) (take len bytes)) (qids ys) st.world
      → (k.msgsnd q
          (pkg k.pid (pos 0) (take len bytes))
          true
          (broadcast k (pkg k.pid (pos 0) (take len bytes)) (qids ys) st.world)).0
        ≡ failed eidrm
      → msg_q_srv_sendevent k n (some srv) (some bytes) len st ≡ fault
  unfolding msg_q_srv_sendevent event_loop
  msg_q_srv_sendevent-fault ys zs d q n here enough sent gone =
      let p = pkg k.pid (pos 0) (take len bytes) in
      let ring = here.ring in
      let rest = d ∷ addrs zs in
      let nz : (len == 0) ≡ false = ==-false len 0 sz in
      let small : ltb message_queue_max_size len ≡ false = ground arith in
      let (h, r0, _, _, nx, _) = read_at st srv.head ring.head.0 ring.given ring.head.1 in
      let all = addrs-append ys ((d, q) ∷ zs) in
      let path : LinkPath (next_of st.cell) (prev_of st.cell) srv.head (addrs ys ++ rest) srv.head =
        rw (sym all) ring.path in
      let apart : distinct (srv.head ∷ addrs ys ++ rest) ≡ true = rw (sym all) ring.apart in
      let (go, _) =
        LinkPath-ends (next_of st.cell) (prev_of st.cell) srv.head (addrs ys ++ rest) srv.head
          path in
      let to : h.next ≡ first_of (addrs ys ++ rest) srv.head = some_inj (sym nx ∙ go) in
      let m = n - length ys - 1 in
      let fuel : n ≡ length ys + suc m = omega arith in
      let ((ne, e, _, _), _) = Holds-middle st.cell st.log ys d q zs ring.holds in
      let nh : (d == srv.head) ≡ false =
        ==-sym_false srv.head d (ground (arith, mem-append srv.head (addrs ys) rest)) in
      let st1 = record st { world = broadcast k p (qids ys) st.world } in
      let st2 = record st1 { world = (k.msgsnd q p true st1.world).1 } in
      let (n1, r1, _, same, _, _) = read_at st1 d q ne e in
      let (c', run, _, freed, _) = msg_q_srv_del-removes st2 srv ys zs d q ring here.amount in
      let last : event_loop k (suc m) srv p d st1 ≡ fault =
        rw
          (
            nh,
            r1,
            same,
            gone,
            run,
            load-freed (record st2 { cell = c'; log = (ofree d st.log).1 }) d ne freed,
          )
          refl in
      let loop : event_loop k n srv p h.next st ≡ fault =
        ap (λ y. event_loop k n srv p y st) to
        ∙ ap (λ i. event_loop k i srv p (first_of (addrs ys ++ rest) srv.head) st) fuel
        ∙ event_loop-Delivers k srv p st (suc m) srv.head ys rest path
            (Holds-left st.cell st.log ys ((d, q) ∷ zs) ring.holds)
            (ground (arith, mem-append srv.head (addrs ys) rest)) sent
        ∙ last in
      rw (nz, small, r0, loop) refl
