-- ===== src/MsgQ/Starting.antt =====
-- `msgQ_srv_init` of linux/src/msgQ.c: what it needs of a server, and the server that it leaves.
use Prim.Native.String.{String}
use libjoe.Base.{
  ◌^◌, List, ◌≤◌, length, Ensures, Ensures-and_then, ◌<◌, ℕ, ◌≡◌, refl, ◌∙◌, ◌≢◌, ◌⊎◌, inl, inr,
  true, Option, some, [], ℤ, pos, negsuc, minus_one, arith, ◌==◌, pure, ◌>>◌,
}
use libjoe.Mem.Live.{IsLog}
use libjoe.MsgQ.System.{null, State, Package, System}
use libjoe.MsgQ.Commands.{set_prev, set_next}
use libjoe.MsgQ.Queue.{IsQueue}
use libjoe.MsgQ.Server.{Srv, msg_q_srv_clear}
use libjoe.MsgQ.Events.{after_get_qid, msg_q_srv_init}
use libjoe.MsgQ.Clearing.{IsCounted, AllFit, Emptied, get_qid-EndsOutside, clear-Emptied}
use libjoe.MsgQ.View.{qid_of}
use libjoe.MsgQ.Registry.{set_prev_at, set_next_at}
use libjoe.MsgQ.Registered.{IsServer}

-- What `msgQ_srv_init` may do: it fails and leaves the memory, or it leaves a server with no client and with an
-- empty queue.
abbrev pub Started :
    {W : Type 0} → (ℤ → W → List Package) → State W → ℤ × Option Srv → State W → Type 0
Started held st (r, srv') st' =
    ((r ≡ minus_one) × (st' ≡ record st { world = st'.world }))
    ⊎ ((r ≡ pos 0)
        × ((s : Srv) × (srv' ≡ some s)
            × (s.pid ≡ pos 0)
            × IsServer st'.cell st'.log s []
            × (held s.qid st'.world ≡ [])))

module _ {W : Type 0} {k : System W} {held : ℤ → W → List Package} (queue : IsQueue held k)
    (outside : IsCounted held k) (n : ℕ) (srv : Srv) (st : State W) (ne : srv.head ≢ null)
    (there : (q : ℤ) × (qid_of st.cell srv.head ≡ some q)) (none_yet : srv.clt_amt ≡ pos 0)
    (log : IsLog st.log) (fit : (q : ℤ) → AllFit (held q st.world))
    (bounded : (q : ℤ) → length (held q st.world) < n) (word : n ≤ 2 ^ 31) where
  -- The two writes that close the ring.
  close_ring :
      (qid : ℤ) (st1 : State W)
      → Emptied outside qid st st1
      → Ensures (Started held st) (
          (do
            set_prev srv.head srv.head
            set_next srv.head srv.head
            pure (pos 0, some (record srv { qid = qid; pid = pos 0 })))
            st1)
  close_ring qid st1 (same, empty) =
      let (q, e) = there in
      let e1 : qid_of st1.cell srv.head ≡ some q = rw same e in
      let (c1, r1, s1) = set_prev_at st1 srv.head q srv.head ne e1 in
      let st2 = record st1 { cell = c1 } in
      let (c2, r2, s2) = set_next_at st2 srv.head q srv.head ne (s1.qids srv.head ∙ e1) in
      let here : (srv.head == srv.head) ≡ true = ground arith in
      rw (r1, r2)
        (inr (
          refl,
          (
            record srv { qid = qid; pid = pos 0 },
            refl,
            refl,
            record {
              ring = record {
                given = ne;
                head = (q, s2.qids srv.head ∙ s1.qids srv.head ∙ e1);
                path = (
                  s2.nexts srv.head ∙ rw here refl,
                  s2.prevs srv.head ∙ s1.prevs srv.head ∙ rw here refl,
                );
                apart = refl;
                holds = tt;
                log = rw same log;
              };
              amount = none_yet;
              few = omega arith;
              apart = refl;
            },
            empty,
          ),
        ))

  started :
      (qid : ℤ) (w : W)
      → ((q : ℤ) → held q w ≡ held q st.world)
      → Ensures
          (Started held st)
          (after_get_qid k n (record srv { qid = qid }) (record st { world = w }))
  unfolding after_get_qid
  started (negsuc m) w same = inl (refl, refl)
  started (pos m) w same =
      Ensures-and_then (λ r st'. Emptied outside (pos m) st st') (Started held st)
        (msg_q_srv_clear k n (some (record srv { qid = pos m })) (record st { world = w }))
        (λ _. do
          set_prev srv.head srv.head
          set_next srv.head srv.head
          pure (pos 0, some (record srv { qid = pos m; pid = pos 0 })))
        (clear-Emptied outside queue n (record srv { qid = pos m }) st w
          (rw (same (pos m)) (fit (pos m))) (rw (same (pos m)) (bounded (pos m))) word)
        (λ r st1 empty. close_ring (pos m) st1 empty)

  -- For a server whose `head` is there and whose `clt_amt` is 0, and a log of mem.c in order, where each queue
  -- has less than `n` messages, `n` at most 2 ^ 31, and none that is too big for MESSAGE_QUEUE_MAX_SIZE with
  -- its `xid`, where the queue that is found can be asked for its length, `msgQ_srv_init` ends without a fault:
  -- it returns -1 and leaves the memory as it was, or 0, and the server is idle, its event clients form a ring
  -- with no client, and its queue is empty.
  pub msg_q_srv_init-IsServer :
      (name : String) → Ensures (Started held st) (msg_q_srv_init k n (some srv) (some name) st)
  unfolding msg_q_srv_init
  msg_q_srv_init-IsServer name =
      let (qid, w, r, same) = get_qid-EndsOutside outside name st in rw r (started qid w same)
