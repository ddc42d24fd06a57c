-- ===== src/MsgQ/Exchange.antt =====
-- Requests and responses of linux/src/msgQ.c: what one side sends is what the other side receives.
use libjoe.Base.{
  ℕ, zero, suc, ◌+◌, ◌≡◌, ◌≤◌, ◌<◌, refl, sym, ◌∙◌, ◌≢◌, ◌⊎◌, inl, inr, Bool-cases, true, false,
  some, List, [], ◌∷◌, ◌++◌, ℤ, pos, negsuc, minus_one, to_int, eq_ℤ, eq_ℤ_iff, arith, ◌==◌,
  ==-false, ltb, if◌then◌else◌, Run, ok, fault, out_of_fuel, and_then, pure, length, take,
  length-take, length-take_le, append-nil,
}
use libjoe.MsgQ.System.{
  Package, pkg, xid_size, message_queue_max_size, State, System, Answer, got, failed,
}
use libjoe.MsgQ.Commands.{sleep, send}
use libjoe.MsgQ.Server.{Srv, send_to_server, msg_q_srv_send, msg_q_srv_recv}
use libjoe.MsgQ.Client.{Clt, msg_q_clt_send, msg_q_clt_recv}
use libjoe.MsgQ.Queue.{
  IsQueue, none_wanted, wanted, send-got, wait_timer-held, receive-held, receive-too_big,
}

-- A call that answers `c` after one `msgsnd`, which is not what it answers when that fails, has sent.
sent_if :
    {S A : Type 0} (m : Run S (Answer (Unit {0}))) (a b c : A) (s : S)
    → (b ≡ c → ⊥)
    → and_then m (λ r. elim r [ got u ↦ pure a | failed e ↦ pure b ]) ≡ ok c s
    → (m ≡ ok (got tt) s) × (a ≡ c)
sent_if (ok (got u) s') a b c s apart h = (cc, cc)
sent_if (ok (failed e) s') a b c s apart h = elim (apart cc) [ ]
sent_if fault a b c s apart h = cc
sent_if out_of_fuel a b c s apart h = cc

wanted-own : (t x : ℤ) (b : List ℕ) → wanted t (pkg t x b) ≡ true
wanted-own (pos zero) x b = refl
wanted-own (pos (suc n)) x b = ground arith
wanted-own (negsuc n) x b = ground arith

module _ {W : Type 0} (held : ℤ → W → List Package) {kc ks : System W} (qc : IsQueue held kc)
    (qs : IsQueue held ks) where
  msg_q_clt_send-held :
      (n : ℕ) (clt : Clt) (bytes : List ℕ) (len : ℕ) (st st1 : State W)
      → len ≢ 0
      → len ≤ message_queue_max_size
      → msg_q_clt_send kc n (some clt) (some bytes) len st ≡ ok (pos 0) st1
      → held clt.srv_q st1.world
        ≡ held clt.srv_q st.world ++ pkg send_to_server kc.pid (take len bytes) ∷ []
  unfolding msg_q_clt_send
  msg_q_clt_send-held n clt bytes len st st1 nz fits done =
      let p = pkg send_to_server kc.pid (take len bytes) in
      let z : (len == 0) ≡ false = ==-false len 0 nz in
      let small : ltb message_queue_max_size len ≡ false = ground arith in
      let (run, _) =
        sent_if (send kc n clt.srv_q p false st) (pos 0) minus_one (pos 0) st1 (λ e. cc e)
          (rw (z, small) at done) in
      send-got qc n clt.srv_q p false st st1 run

  -- If `msgQ_clt_send` of at most 2032 bytes has returned 0 and no other request waits, then
  -- `msgQ_srv_recv` of an idle server returns 0 with these bytes, cut to the size of the buffer, and keeps
  -- the process number of the client for the response; the queue is then as it was before.
  pub msg_q_srv_recv-msg_q_clt_send :
      (clt : Clt) (srv : Srv) (n m : ℕ) (bytes : List ℕ) (len size : ℕ) (tout : ℤ)
      (st st1 st2 : State W)
      → clt.srv_q ≡ srv.qid
      → srv.pid ≡ pos 0
      → len ≢ 0
      → xid_size + len ≤ message_queue_max_size
      → size ≢ 0
      → none_wanted send_to_server (held srv.qid st.world) ≡ true
      → msg_q_clt_send kc n (some clt) (some bytes) len st ≡ ok (pos 0) st1
      → held srv.qid st2.world ≡ held srv.qid st1.world
      → (st3 : State W) × (msg_q_srv_recv ks (suc m) (some srv) true size tout st2
          ≡ ok (pos 0, take size (take len bytes), some (record srv { pid = to_int kc.pid })) st3)
        × (held srv.qid st3.world ≡ held srv.qid st.world)
  unfolding msg_q_srv_recv
  msg_q_srv_recv-msg_q_clt_send clt srv n m bytes len size tout st st1 st2 same_queue idle nz fits
        sz clear done later =
      let p = pkg send_to_server kc.pid (take len bytes) in
      let q = srv.qid in
      let z : (size == 0) ≡ false = ==-false size 0 sz in
      let now : held q st2.world ≡ held q st.world ++ p ∷ [] =
        later
        ∙ rw (sym same_queue) (msg_q_clt_send-held n clt bytes len st st1 nz (omega arith) done) in
      let free : eq_ℤ srv.pid (pos 0) ≡ true = (eq_ℤ_iff srv.pid (pos 0)).1 idle in
      let (timer, st4, r0, h0) = wait_timer-held qs tout st2 q in
      let (st5, r1, left) =
        receive-held qs (sleep ks.usleep) m q send_to_server
          (if eq_ℤ tout (pos 0) then false else true) timer st4 (held q st.world) p [] (h0 ∙ now)
          clear refl (omega (arith, length-take_le len bytes)) in
      (st5, rw (z, free, r0, r1) refl, left ∙ append-nil (held q st.world))

  msg_q_srv_send-held :
      (n : ℕ) (srv srv' : Srv) (bytes : List ℕ) (len : ℕ) (st st1 : State W)
      → len ≢ 0
      → len ≤ message_queue_max_size
      → srv.pid ≢ pos 0
      → msg_q_srv_send ks n (some srv) (some bytes) len st ≡ ok (pos 0, some srv') st1
      → (held srv.qid st1.world
          ≡ held srv.qid st.world ++ pkg srv.pid (pos 0) (take len bytes) ∷ [])
        × (srv' ≡ record srv { pid = pos 0 })
  unfolding msg_q_srv_send
  msg_q_srv_send-held n srv srv' bytes len st st1 nz fits busy done =
      let p = pkg srv.pid (pos 0) (take len bytes) in
      let z : (len == 0) ≡ false = ==-false len 0 nz in
      let small : ltb message_queue_max_size len ≡ false = ground arith in
      let b : eq_ℤ srv.pid (pos 0) ≡ false = elim (Bool-cases (eq_ℤ srv.pid (pos 0))) [
        | inl same ↦ elim (busy ((eq_ℤ_iff srv.pid (pos 0)).0 same)) [ ]
        | inr other ↦ other
      ] in
      let left = record srv { pid = pos 0 } in
      let (run, same) =
        sent_if (send ks n srv.qid p true st) (pos 0, some left) (minus_one, some left)
          (pos 0, some srv') st1 (λ e. cc e) (rw (z, small, b) at done) in
      (send-got qs n srv.qid p true st st1 run, cc same)

  -- If `msgQ_srv_send` of at most 2032 bytes has returned 0 and no other response waits for the client
  -- whose number the server keeps, `msgQ_clt_recv` of that client returns 0 with these bytes, cut to the
  -- size of the buffer; the queue is then as it was before, and the server is idle again.
  pub msg_q_clt_recv-msg_q_srv_send :
      (clt : Clt) (srv srv' : Srv) (n m : ℕ) (bytes : List ℕ) (len size : ℕ) (tout : ℤ)
      (st st1 st2 : State W)
      → clt.srv_q ≡ srv.qid
      → srv.pid ≡ kc.pid
      → kc.pid ≢ pos 0
      → len ≢ 0
      → xid_size + len ≤ message_queue_max_size
      → size ≢ 0
      → none_wanted kc.pid (held srv.qid st.world) ≡ true
      → msg_q_srv_send ks n (some srv) (some bytes) len st ≡ ok (pos 0, some srv') st1
      → held srv.qid st2.world ≡ held srv.qid st1.world
      → (st3 : State W) × (msg_q_clt_recv kc (suc m) (some clt) true size tout st2
          ≡ ok (pos 0, take size (take len bytes)) st3)
        × (held srv.qid st3.world ≡ held srv.qid st.world)
        × (srv' ≡ record srv { pid = pos 0 })
  unfolding msg_q_clt_recv
  msg_q_clt_recv-msg_q_srv_send clt srv srv' n m bytes len size tout st st1 st2 same_queue to_client
        own nz fits sz clear done later =
      let p = pkg srv.pid (pos 0) (take len bytes) in
      let q = srv.qid in
      let z : (size == 0) ≡ false = ==-false size 0 sz in
      let (sent, after) =
        msg_q_srv_send-held n srv srv' bytes len st st1 nz (omega arith) (rw to_client own) done in
      let now : held q st2.world ≡ held q st.world ++ p ∷ [] = later ∙ sent in
      let (timer, st4, r0, h0) = wait_timer-held qc tout st2 q in
      let (st5, r1, left) =
        receive-held qc (pure tt) m q kc.pid (if eq_ℤ tout (pos 0) then false else true) timer st4
          (held q st.world) p [] (h0 ∙ now) clear
          (rw (sym to_client) (wanted-own srv.pid (pos 0) (take len bytes)))
          (omega (arith, length-take_le len bytes)) in
      (st5, rw (z, same_queue, r0, r1) refl, left ∙ append-nil (held q st.world), after)

  -- If `msgQ_clt_send` of 2033 to 2040 bytes has returned 0 and no other request waits, `msgQ_srv_recv` of
  -- an idle server does not get it: it returns 1 or -1, and the queue stays as it is.
  pub msg_q_srv_recv-too_big :
      (clt : Clt) (srv : Srv) (n m : ℕ) (bytes : List ℕ) (len size : ℕ) (tout : ℤ)
      (st st1 st2 : State W)
      → clt.srv_q ≡ srv.qid
      → srv.pid ≡ pos 0
      → message_queue_max_size < xid_size + len
      → len ≤ message_queue_max_size
      → len ≤ length bytes
      → size ≢ 0
      → none_wanted send_to_server (held srv.qid st.world) ≡ true
      → msg_q_clt_send kc n (some clt) (some bytes) len st ≡ ok (pos 0) st1
      → held srv.qid st2.world ≡ held srv.qid st1.world
      → (r : ℤ) × (st3 : State W) × (msg_q_srv_recv ks (suc m) (some srv) true size tout st2
          ≡ ok (r, [], some srv) st3)
        × ((r ≡ pos 1) ⊎ (r ≡ minus_one))
        × (held srv.qid st3.world ≡ held srv.qid st1.world)
  unfolding msg_q_srv_recv
  msg_q_srv_recv-too_big clt srv n m bytes len size tout st st1 st2 same_queue idle big fits all sz
        clear done later =
      let p = pkg send_to_server kc.pid (take len bytes) in
      let q = srv.qid in
      let z : (size == 0) ≡ false = ==-false size 0 sz in
      let sent : held q st1.world ≡ held q st.world ++ p ∷ [] =
        rw (sym same_queue) (msg_q_clt_send-held n clt bytes len st st1 (omega arith) fits done) in
      let free : eq_ℤ srv.pid (pos 0) ≡ true = (eq_ℤ_iff srv.pid (pos 0)).1 idle in
      let (timer, st4, r0, h0) = wait_timer-held qs tout st2 q in
      let (r, st5, r1, which, left) =
        receive-too_big qs (sleep ks.usleep) m q send_to_server
          (if eq_ℤ tout (pos 0) then false else true) timer st4 (held q st.world) p []
          (h0 ∙ later ∙ sent) clear refl (omega (arith, length-take len bytes all)) in
      let kept = left ∙ h0 ∙ later in
      elim which [
        | inl late ↦ (pos 1, st5, rw (z, free, r0, r1, late) refl, inl refl, kept)
        | inr error ↦ (minus_one, st5, rw (z, free, r0, r1, error) refl, inr refl, kept)
      ]
