-- ===== src/MsgQ/Finding.antt =====
-- How `msgQ_srv_monitorrequest` of linux/src/msgQ.c comes to the event client of a request: the loop that
-- looks for its queue, and the new client.
use Prim.Native.String.{String}
use native.Mathlib.Decide.{dec_lt, ℕ_discrete}
use libjoe.Base.{
  ℕ, suc, ◌+◌, ◌≡◌, refl, sym, ap, ◌∙◌, ◌≢◌, ◌⊎◌, inl, inr, Bool-cases, true, false, none, some, [],
  ◌∷◌, ◌++◌, ℤ, pos, eq_ℤ, eq_ℤ_iff, to_int, ◌+ℤ◌, arith, ◌==◌, ==-false, ==-sym_false, ok, length,
}
use libjoe.Mem.{omalloc, memory_allocate_max_times}
use libjoe.Mem.Live.{is_live, used, used-le-length}
use libjoe.Mem.Log.{omalloc-live, omalloc-null, omalloc-IsLog, is_live-omalloc}
use libjoe.Timer.Functions.{zero_timer}
use libjoe.MsgQ.System.{Ptr, null, EveClt, write, State, System, IsLibc}
use libjoe.MsgQ.Commands.{eve_clt_size, new_eve_clt}
use libjoe.MsgQ.Server.{Srv}
use libjoe.MsgQ.Events.{find_loop, client_for}
use libjoe.MsgQ.Ring.{mem, first_of, ne_of_mem, LinkPath}
use libjoe.MsgQ.View.{qid_of-none, qid_of-write, next_of, prev_of, qid_of, write-other}
use libjoe.MsgQ.Registry.{
  Clients, addrs, Holds, IsRing, IsRing-mem, IsRing-same, LinkPath-ends, read_at, some_inj,
}
use libjoe.MsgQ.Adding.{msg_q_srv_add-appends}
use libjoe.MsgQ.Registered.{qids, has_queue}

-- The loop returns the first client with the queue `xid`, or `head` where there is none.
abbrev pub Finds :
    {W : Type 0} → State W → Srv → (fuel : ℕ) → (xid : ℤ) → (start : Ptr) → Clients → Type 0
Finds st srv fuel xid start xs =
    ((find_loop fuel srv xid start st ≡ ok srv.head st) × (has_queue xid (qids xs) ≡ false))
    ⊎ ((ys : Clients) × (zs : Clients) × (d : Ptr) × (xs ≡ ys ++ (d, xid) ∷ zs)
        × (find_loop fuel srv xid start st ≡ ok d st))

pub find_loop-Finds :
    {W : Type 0} (st : State W) (srv : Srv) (xid : ℤ) (a : Ptr) (xs : Clients)
    → LinkPath (next_of st.cell) (prev_of st.cell) a (addrs xs) srv.head
    → Holds st.cell st.log xs
    → mem srv.head (addrs xs) ≡ false
    → Finds st srv (length xs + 1) xid (first_of (addrs xs) srv.head) xs
unfolding find_loop
find_loop-Finds st srv xid a [] path h out =
    let here : (srv.head == srv.head) ≡ true = ground arith in inl (rw here (refl, refl))
find_loop-Finds st srv xid a ((p, q) ∷ xs) (_, _, path) (ne, e, _, h) out =
    let (n, r, _, same, nx, _) = read_at st p q ne e in
    let (go, _) = LinkPath-ends (next_of st.cell) (prev_of st.cell) p (addrs xs) srv.head path in
    let to : n.next ≡ first_of (addrs xs) srv.head = some_inj (sym nx ∙ go) in
    let apart : (p == srv.head) ≡ false = ground arith in
    let fuel : length ((p, q) ∷ xs) + 1 ≡ suc (length xs + 1) = omega arith in
    elim (Bool-cases (eq_ℤ q xid)) [
      | inl z ↦ inr (
        [],
        xs,
        p,
        ap (λ v. (p, v) ∷ xs) ((eq_ℤ_iff q xid).0 z),
        rw (fuel, apart, r, same, z) refl,
      )
      | inr nz ↦
          let step : find_loop (length ((p, q) ∷ xs) + 1) srv xid p st
              ≡ find_loop (length xs + 1) srv xid (first_of (addrs xs) srv.head) st =
            rw (fuel, apart, r, same, nz) (ap (λ y. find_loop (length xs + 1) srv xid y st) to) in
          elim (find_loop-Finds st srv xid p xs path h (ground arith)) [
            | inl (run, none_has) ↦ inl (step ∙ run, ground arith)
            | inr (ys, zs, d, e', run) ↦ inr ((p, q) ∷ ys, zs, d, ap (◌∷◌ (p, q)) e', step ∙ run)
          ]
    ]

-- `omalloc` has no block for an event client.
abbrev pub NoBlock : {W : Type 0} → System W → State W → Type 0
NoBlock k st = (k.malloc st eve_clt_size ≡ null) ⊎ (used st.log ≡ memory_allocate_max_times)

module _ {W : Type 0} (k : System W) (lib : IsLibc k) (st : State W) (srv : Srv) (xs : Clients)
    (ring : IsRing st.cell st.log srv.head xs) where
  -- A new block is in no ring, and leaves the ring as it is.
  pub new_eve_clt-IsRing :
      (qid : ℤ)
      → ((new_eve_clt k qid st ≡ ok null st) × NoBlock k st)
        ⊎ ((p : Ptr) × (st' : State W) × (new_eve_clt k qid st ≡ ok p st')
            × (st'.world ≡ st.world)
            × (p ≢ null)
            × (qid_of st'.cell p ≡ some qid)
            × (is_live p st'.log ≡ true)
            × (mem p (srv.head ∷ addrs xs) ≡ false)
            × IsRing st'.cell st'.log srv.head xs)
  unfolding new_eve_clt
  new_eve_clt-IsRing qid =
      let p = k.malloc st eve_clt_size in
      let dec : String = "msgQ event client" in
      let table = omalloc p k.stamp (some dec) eve_clt_size st.log in
      let clt : EveClt = record { qid = qid; timer = zero_timer; prev = null; next = null } in
      let c' = write st.cell p (some clt) in
      elim (ℕ_discrete p 0) [
        | yes z ↦
            let e = omalloc-null p k.stamp dec eve_clt_size ring.log (inr (inl z)) in
            inl (rw e refl, inl z)
        | no ne ↦ elim (dec_lt (used st.log) memory_allocate_max_times) [
          | no full ↦
              let all : used st.log ≡ memory_allocate_max_times =
                omega (arith, full, used-le-length st.log, ring.log.slots) in
              let e = omalloc-null p k.stamp dec eve_clt_size ring.log (inr (inr all)) in
              inl (rw e refl, inr all)
          | yes room ↦
              let (e, _) =
                omalloc-live p k.stamp dec eve_clt_size ring.log ne (ground arith) room in
              let fresh = lib.fresh_cell st eve_clt_size ne in
              let nz : (p == null) ≡ false = ==-false p null ne in
              let here : (p == p) ≡ true = ground arith in
              let lives = λ (x : Ptr) (n : x ≢ null).
                is_live-omalloc p k.stamp dec eve_clt_size x ring.log n ne (ground arith) room in
              let out : mem p (srv.head ∷ addrs xs) ≡ false =
                elim (Bool-cases (mem p (srv.head ∷ addrs xs))) [
                  | inl i ↦
                      let (_, (q, there)) = IsRing-mem ring p i in
                      cc (there, qid_of-none st.cell p fresh)
                  | inr o ↦ o
                ] in
              let other = λ (x : Ptr) (i : mem x (srv.head ∷ addrs xs) ≡ true).
                ==-sym_false p x (ne_of_mem p x (srv.head ∷ addrs xs) out i) in
              inr (
                p,
                record st { cell = c'; log = table.1 },
                rw (e, nz) refl,
                refl,
                ne,
                qid_of-write st.cell p clt p ∙ rw here refl,
                lives p ne ∙ rw here refl,
                out,
                IsRing-same c' table.1 ring (λ x i. write-other st.cell p (some clt) x (other x i))
                    (omalloc-IsLog p k.stamp dec eve_clt_size ring.log
                      (lib.fresh_log st eve_clt_size ne))
                    (λ x n i.
                      let far : (p == x) ≡ false = ==-sym_false x p (other x (ground arith)) in
                      lives x n ∙ rw far refl),
              )
        ]
      ]

  -- Where no client is found, either there is no memory and nothing changes, or a new client stands
  -- behind the others.
  pub client_for-new :
      (xid : ℤ)
      → ((client_for k srv xid srv.head st ≡ ok none st) × NoBlock k st)
        ⊎ ((p : Ptr) × (st' : State W) × (client_for k srv xid srv.head st
              ≡ ok (some (p, record srv { clt_amt = srv.clt_amt +ℤ pos 1 })) st')
            × (st'.world ≡ st.world)
            × IsRing st'.cell st'.log srv.head (xs ++ (p, to_int xid) ∷ []))
  unfolding client_for
  client_for-new xid =
      let here : (srv.head == srv.head) ≡ true = ground arith in
      elim (new_eve_clt-IsRing (to_int xid)) [
        | inl (run, why) ↦ inl (rw (here, run) refl, why)
        | inr (p, st1, run, w, ne, e, live, out, ring1) ↦
            let (c', add, ring2, _) =
              msg_q_srv_add-appends st1 srv xs p (to_int xid) ring1 ne e live out in
            let nz : (p == null) ≡ false = ==-false p null ne in
            inr (p, record st1 { cell = c' }, rw (here, run, nz, add) refl, w, ring2)
      ]
