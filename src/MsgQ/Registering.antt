-- ===== src/MsgQ/Registering.antt =====
-- `msgQ_srv_monitorrequest` of linux/src/msgQ.c: what a request does to the event clients of a server.
use libjoe.Base.{
  ℕ, suc, ◌+◌, ◌≡◌, ◌<◌, refl, sym, ap, ◌∙◌, inl, inr, Bool-cases, append-nil, true, false, Option,
  some, List, [], ◌∷◌, ◌++◌, ℤ, pos, pos_part, leb_ℤ, to_int, ◌+ℤ◌, add_pos, arith, ◌==◌,
  ==-sym_false, ok, Safe, Ensures, Safe-weaken, length, length-append,
}
use libjoe.Mem.{Table}
use libjoe.MsgQ.Commands.{load}
use libjoe.MsgQ.System.{
  got, pkg, Cell, EveClt, Ptr, message_queue_max_client, Package, State, System, IsLibc,
}
use libjoe.MsgQ.Server.{Srv}
use libjoe.MsgQ.Events.{client_for, respond, register}
use libjoe.MsgQ.Ring.{first_of, mem, ne_of_mem, mem-append}
use libjoe.MsgQ.View.{next_of, prev_of}
use libjoe.MsgQ.Registry.{Clients, addrs, addrs-append, IsRing, LinkPath-ends, read_at, some_inj}
use libjoe.MsgQ.Registered.{
  has_queue_middle, qids, qids-append, length-qids, has_queue, IsServer, Change, unchanged, joined,
  dropped, distinct_queues-append_last,
}
use libjoe.MsgQ.Finding.{NoBlock, Finds, find_loop-Finds, client_for-new}
use libjoe.MsgQ.Responding.{respond-answers, Responded, respond-Responded}

-- There is a server with event clients whose queues come by one step from `qs`.
abbrev pub Changed : {W : Type 0} → List ℤ → ℤ × Option Srv → State W → Type 0
Changed qs (r, srv') st' =
    (s : Srv) × (xs' : Clients) × (srv' ≡ some s)
    × IsServer st'.cell st'.log s xs'
    × Change qs (qids xs')

module _ {W : Type 0} (k : System W) (n : ℕ) (p : Package) (st : State W) where
  -- The client is there.
  register-old :
      (srv : Srv) (ys zs : Clients) (d : Ptr)
      → IsServer st.cell st.log srv (ys ++ (d, p.xid) ∷ zs)
      → Safe (Changed (qids (ys ++ (d, p.xid) ∷ zs))) (respond k n srv p d st)
  register-old srv ys zs d here =
      let qs = qids (ys ++ (d, p.xid) ∷ zs) in
      Safe-weaken (Responded ys d p.xid zs) (Changed qs) (respond k n srv p d st)
        (respond-Responded k srv ys d p.xid zs n p st here)
        (λ (r, srv') st' (s, xs', same, left, which). (
          s,
          xs',
          same,
          left,
          elim which [
            | inl e ↦ rw e unchanged
            | inr e ↦
                rw (e, qids-append ys zs)
                  (dropped (qids ys) (qids zs) p.xid (qids-append ys ((d, p.xid) ∷ zs)))
          ],
        ))

  register-new :
      (srv : Srv) (xs : Clients) (d : Ptr)
      → IsServer st.cell st.log srv (xs ++ (d, p.xid) ∷ [])
      → has_queue p.xid (qids xs) ≡ false
      → length xs < message_queue_max_client
      → Safe (Changed (qids xs)) (respond k n srv p d st)
  register-new srv xs d here out room =
      Safe-weaken (Responded xs d p.xid []) (Changed (qids xs)) (respond k n srv p d st)
        (respond-Responded k srv xs d p.xid [] n p st here)
        (λ (r, srv') st' (s, xs', same, left, which). (
          s,
          xs',
          same,
          left,
          elim which [
            | inl e ↦
                rw (e, qids-append xs ((d, p.xid) ∷ []))
                  (joined p.xid out (omega (arith, length-qids xs, room)))
            | inr e ↦ rw (e, append-nil xs) unchanged
          ],
        ))

IsServer-joined :
    {c c' : Cell} {t t' : Table} {srv : Srv} {xs : Clients} (d : Ptr) (q : ℤ)
    → IsServer c t srv xs
    → IsRing c' t' srv.head (xs ++ (d, q) ∷ [])
    → has_queue q (qids xs) ≡ false
    → length xs < message_queue_max_client
    → IsServer c' t' (record srv { clt_amt = srv.clt_amt +ℤ pos 1 }) (xs ++ (d, q) ∷ [])
IsServer-joined {xs = xs} d q here ring out room = record {
  ring = ring;
  amount =
      rw here.amount
        (add_pos (length xs) 1 ∙ ap pos (omega (arith, length-append xs ((d, q) ∷ []))));
  few = omega (arith, length-append xs ((d, q) ∷ []), room);
  apart =
      rw (qids-append xs ((d, q) ∷ [])) (distinct_queues-append_last (qids xs) q here.apart out);
}

client_for-old :
    {W : Type 0} (k : System W) (srv : Srv) (xid : ℤ) (d : Ptr) (st : State W)
    → (d == srv.head) ≡ false
    → client_for k srv xid d st ≡ ok (some (d, srv)) st
unfolding client_for
client_for-old k srv xid d st apart = rw apart refl

-- The queue `q` is registered, and the world is `w`.
abbrev pub Answered : {W : Type 0} → ℤ → W → ℤ × Option Srv → State W → Type 0
Answered q w (r, srv') st' =
    (r ≡ pos 0)
    × (st'.world ≡ w)
    × ((s : Srv) × (xs' : Clients) × (srv' ≡ some s)
        × IsServer st'.cell st'.log s xs'
        × (has_queue q (qids xs') ≡ true))

module _ {W : Type 0} (k : System W) (lib : IsLibc k) (n : ℕ) (srv : Srv) (p : Package)
    (st : State W) (xs : Clients) where
  -- The loop that looks for the client, from the first one.
  find_first :
      IsServer st.cell st.log srv xs
      → (h : EveClt) × (load srv.head st ≡ ok h st)
        × Finds st srv (pos_part srv.clt_amt + 1) p.xid h.next xs
  find_first here =
      let (h, r0, _, _, nx, _) =
        read_at st srv.head here.ring.head.0 here.ring.given here.ring.head.1 in
      let (go, _) =
        LinkPath-ends (next_of st.cell) (prev_of st.cell) srv.head (addrs xs) srv.head
          here.ring.path in
      let to : h.next ≡ first_of (addrs xs) srv.head = some_inj (sym nx ∙ go) in
      let fuel : pos_part srv.clt_amt + 1 ≡ length xs + 1 = rw here.amount refl in
      (
        h,
        r0,
        rw (to, fuel)
            (find_loop-Finds st srv p.xid srv.head xs here.ring.path here.ring.holds
              (ground (arith, here.ring.apart))),
      )

  old_apart :
      IsServer st.cell st.log srv xs
      → (ys zs : Clients) (d : Ptr) → xs ≡ ys ++ (d, p.xid) ∷ zs
      → (d == srv.head) ≡ false
  old_apart here ys zs d e =
      let inside : mem d (addrs xs) ≡ true =
        rw (e, addrs-append ys ((d, p.xid) ∷ zs))
          (ground (arith, mem-append d (addrs ys) (d ∷ addrs zs))) in
      ==-sym_false srv.head d
        (ne_of_mem srv.head d (addrs xs) (ground (arith, here.ring.apart)) inside)

  -- A request whose xid fits into an int is handled without a fault, and when the call ends, the event
  -- clients form a ring again, counted by `clt_amt`, at most ten, no queue twice. The list of their queues
  -- is the old one, or has one new queue at its end, or has lost one queue.
  pub register-IsServer :
      to_int p.xid ≡ p.xid
      → IsServer st.cell st.log srv xs
      → Safe (Changed (qids xs)) (register k n srv p st)
  unfolding register
  register-IsServer int here =
      let (h, r0, found) = find_first here in
      elim (Bool-cases (leb_ℤ (pos message_queue_max_client) srv.clt_amt)) [
        | inl full ↦ rw full (srv, xs, refl, here, unchanged)
        | inr free ↦
            let room : length xs < message_queue_max_client = ground (arith, here.amount) in
            elim found [
              | inl (run, out) ↦ elim (client_for-new k lib st srv xs here.ring p.xid) [
                | inl (no_memory, _) ↦
                    rw (free, r0, run, no_memory) (srv, xs, refl, here, unchanged)
                | inr (d, st', new, _, ring) ↦
                    rw (free, r0, run, new)
                      (register-new k n p st' (record srv { clt_amt = srv.clt_amt +ℤ pos 1 }) xs d
                        (IsServer-joined d p.xid here (rw (sym int) ring) out room) out room)
              ]
              | inr (ys, zs, d, e, run) ↦
                  rw (free, r0, run, client_for-old k srv p.xid d st (old_apart here ys zs d e), e)
                    (register-old k n p st srv ys zs d (rw (sym e) here))
            ]
      ]

  -- With fewer than ten clients, a block for one more, and an xid that fits into an int, a request whose
  -- response the first msgsnd takes ends with 0; its queue is then registered, and nothing outside changes
  -- but by the clock and that msgsnd.
  pub register-answers :
      (w' : W)
      → to_int p.xid ≡ p.xid
      → IsServer st.cell st.log srv xs
      → length xs < message_queue_max_client
      → (NoBlock k st → ⊥)
      → k.msgsnd p.xid (pkg p.msgid k.pid []) false (k.clock st.world).1 ≡ (got tt, w')
      → Ensures (Answered p.xid w') (register k (suc n) srv p st)
  unfolding register
  register-answers w' int here room memory sent =
      let (h, r0, found) = find_first here in
      let free : leb_ℤ (pos message_queue_max_client) srv.clt_amt ≡ false =
        ground (arith, here.amount) in
      elim found [
        | inl (run, out) ↦ elim (client_for-new k lib st srv xs here.ring p.xid) [
          | inl (_, why) ↦ elim (memory why) [ ]
          | inr (d, st', new, same, ring) ↦
              let here' = IsServer-joined d p.xid here (rw (sym int) ring) out room in
              let (st2, done, left, w) =
                respond-answers k (record srv { clt_amt = srv.clt_amt +ℤ pos 1 }) xs d p.xid [] n p
                  st' w' here' (rw same sent) in
              rw (free, r0, run, new, done)
                (
                  refl,
                  w,
                  (
                    record srv { clt_amt = srv.clt_amt +ℤ pos 1 },
                    xs ++ (d, p.xid) ∷ [],
                    refl,
                    left,
                    has_queue_middle xs d p.xid [],
                  ),
                )
        ]
        | inr (ys, zs, d, e, run) ↦
            let (st2, done, left, w) =
              respond-answers k srv ys d p.xid zs n p st w' (rw (sym e) here) sent in
            rw (free, r0, run, client_for-old k srv p.xid d st (old_apart here ys zs d e), done)
              (refl, w, (srv, ys ++ (d, p.xid) ∷ zs, refl, left, has_queue_middle ys d p.xid zs))
      ]
