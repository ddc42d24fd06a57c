-- ===== src/MsgQ/Queue.antt =====
-- What linux/src/msgQ.c relies on of the message queues of the system, and what its loops around `msgsnd`
-- and `msgrcv` do with a queue that behaves so.
use libjoe.Base.{
  ℕ, zero, suc, ◌+◌, ◌≡◌, ◌≤◌, ◌<◌, refl, ap, ◌∙◌, ◌⊎◌, inl, inr, Bool-cases, Bool, true, not, ◌&&◌,
  some, List, [], ◌∷◌, ◌++◌, ℤ, pos, eq_ℤ, to_unsigned, ok, Safe, length,
}
use libjoe.Timer.Functions.{Timer, zero_timer, tm_set_ms, tm_is_timeout}
use libjoe.MsgQ.System.{
  Package, xid_size, message_queue_max_size, State, System, Cmd, Errno, Answer, got, failed, eintr,
  eagain, enoent, enomsg, eidrm, e2big, unknown,
}
use libjoe.MsgQ.Commands.{
  or_zero, wait_timer, Receipt, received, timed_out, broken, receive, after_send, send,
}

-- `msgtyp` 0 stands for every message, a positive one for those with this `msgid`.
abbrev pub wanted : ℤ → Package → Bool
wanted (pos zero) p = true
wanted t p = eq_ℤ p.msgid t

abbrev pub none_wanted : ℤ → List Package → Bool
none_wanted t [] = true
none_wanted t (p ∷ ps) = not (wanted t p) && none_wanted t ps

-- The calls of a process on queues that hold the packages `held`, oldest first.
pub record IsQueue {W : Type 0} (held : ℤ → W → List Package) (k : System W) : Type 0 where
  pub sent :
      (q : ℤ) (p : Package) (nowait : Bool) (w : W)
      → (k.msgsnd q p nowait w).0 ≡ got tt
      → held q (k.msgsnd q p nowait w).1 ≡ held q w ++ p ∷ []
  pub refused :
      (q : ℤ) (p : Package) (nowait : Bool) (w : W) (e : Errno)
      → (k.msgsnd q p nowait w).0 ≡ failed e
      → held q (k.msgsnd q p nowait w).1 ≡ held q w
  pub taken :
      (q : ℤ) (size : ℕ) (t : ℤ) (nowait : Bool) (w : W) (ps : List Package) (p : Package)
      (qs : List Package)
      → held q w ≡ ps ++ p ∷ qs
      → none_wanted t ps ≡ true
      → wanted t p ≡ true
      → xid_size + length p.bytes ≤ size
      → ((k.msgrcv q size t nowait w).0 ≡ got p)
        × (held q (k.msgrcv q size t nowait w).1 ≡ ps ++ qs)
  pub too_big :
      (q : ℤ) (size : ℕ) (t : ℤ) (nowait : Bool) (w : W) (ps : List Package) (p : Package)
      (qs : List Package)
      → held q w ≡ ps ++ p ∷ qs
      → none_wanted t ps ≡ true
      → wanted t p ≡ true
      → size < xid_size + length p.bytes
      → ((k.msgrcv q size t nowait w).0 ≡ failed e2big)
        × (held q (k.msgrcv q size t nowait w).1 ≡ held q w)
  pub clock : (q : ℤ) (w : W) → held q (k.clock w).1 ≡ held q w

after_send-held :
    {W : Type 0} (held : ℤ → W → List Package) (q : ℤ) (p : Package) (hs : List Package)
    (again : Cmd W (Answer (Unit {0}))) (st : State W) (r : Answer (Unit {0}))
    → (r ≡ got tt → held q st.world ≡ hs ++ p ∷ [])
    → (r ≡ failed eintr → Safe (λ r' st'. r' ≡ got tt → held q st'.world ≡ hs ++ p ∷ []) (again st))
    → Safe (λ r' st'. r' ≡ got tt → held q st'.world ≡ hs ++ p ∷ []) (after_send again r st)
after_send-held held q p hs again st (got u) sent repeated = sent
after_send-held held q p hs again st (failed eintr) sent repeated = repeated refl
after_send-held held q p hs again st (failed eagain) sent repeated = sent
after_send-held held q p hs again st (failed enoent) sent repeated = sent
after_send-held held q p hs again st (failed enomsg) sent repeated = sent
after_send-held held q p hs again st (failed eidrm) sent repeated = sent
after_send-held held q p hs again st (failed e2big) sent repeated = sent
after_send-held held q p hs again st (failed unknown) sent repeated = sent

module _ {W : Type 0} {held : ℤ → W → List Package} {k : System W} (queue : IsQueue held k) where
  -- A send that succeeds has put the package behind the others, whatever it took.
  send-held :
      (n : ℕ) (q : ℤ) (p : Package) (nowait : Bool) (st : State W) (hs : List Package)
      → held q st.world ≡ hs
      → Safe (λ r st'. r ≡ got tt → held q st'.world ≡ hs ++ p ∷ []) (send k n q p nowait st)
  unfolding send
  send-held zero q p nowait st hs h = tt
  send-held (suc n) q p nowait st hs h =
      let w = (k.msgsnd q p nowait st.world).1 in
      after_send-held held q p hs (send k n q p nowait) (record st { world = w })
        (k.msgsnd q p nowait st.world).0
        (λ e. queue.sent q p nowait st.world e ∙ ap (λ l. l ++ p ∷ []) h)
        (λ e.
          send-held n q p nowait (record st { world = w }) hs
            (queue.refused q p nowait st.world eintr e ∙ h))

  pub send-got :
      (n : ℕ) (q : ℤ) (p : Package) (nowait : Bool) (st st' : State W)
      → send k n q p nowait st ≡ ok (got tt) st'
      → held q st'.world ≡ held q st.world ++ p ∷ []
  send-got n q p nowait st st' run =
      let all : Safe (λ r st1. r ≡ got tt → held q st1.world ≡ held q st.world ++ p ∷ [])
          (send k n q p nowait st) =
        send-held n q p nowait st (held q st.world) refl in
      (rw run at all) refl

  -- The timer of a call that waits.
  pub wait_timer-held :
      (tout : ℤ) (st : State W) (q : ℤ)
      → (timer : Timer) × (st' : State W) × (wait_timer k tout st ≡ ok timer st')
        × (held q st'.world ≡ held q st.world)
  unfolding wait_timer
  wait_timer-held tout st q = elim (Bool-cases (eq_ℤ tout (pos 0))) [
    | inl z ↦ (zero_timer, st, rw z refl, refl)
    | inr nz ↦
        let (now, w) = k.clock st.world in
        (
          or_zero (tm_set_ms now (some zero_timer) (to_unsigned tout)).1,
          record st { world = w },
          rw nz refl,
          queue.clock q st.world,
        )
  ]

  -- A package that is wanted and fits is received at once.
  pub receive-held :
      (pause : Cmd W (Unit {0})) (n : ℕ) (q : ℤ) (t : ℤ) (nowait : Bool) (timer : Timer)
      (st : State W) (ps : List Package) (p : Package) (qs : List Package)
      → held q st.world ≡ ps ++ p ∷ qs
      → none_wanted t ps ≡ true
      → wanted t p ≡ true
      → xid_size + length p.bytes ≤ message_queue_max_size
      → (st' : State W) × (receive k pause (suc n) q t nowait timer st ≡ ok (received p) st')
        × (held q st'.world ≡ ps ++ qs)
  unfolding receive
  receive-held pause n q t nowait timer st ps p qs h before here fits =
      let (r, left) =
        queue.taken q message_queue_max_size t nowait st.world ps p qs h before here fits in
      (
        record st { world = (k.msgrcv q message_queue_max_size t nowait st.world).1 },
        rw r refl,
        left,
      )

  -- A package that is wanted but does not fit is not received, and stays.
  pub receive-too_big :
      (pause : Cmd W (Unit {0})) (n : ℕ) (q : ℤ) (t : ℤ) (nowait : Bool) (timer : Timer)
      (st : State W) (ps : List Package) (p : Package) (qs : List Package)
      → held q st.world ≡ ps ++ p ∷ qs
      → none_wanted t ps ≡ true
      → wanted t p ≡ true
      → message_queue_max_size < xid_size + length p.bytes
      → (r : Receipt) × (st' : State W) × (receive k pause (suc n) q t nowait timer st ≡ ok r st')
        × ((r ≡ timed_out) ⊎ (r ≡ broken e2big))
        × (held q st'.world ≡ held q st.world)
  unfolding receive
  receive-too_big pause n q t nowait timer st ps p qs h before here big =
      let (r, same) =
        queue.too_big q message_queue_max_size t nowait st.world ps p qs h before here big in
      let w = (k.msgrcv q message_queue_max_size t nowait st.world).1 in
      let st' = record st { world = (k.clock w).1 } in
      let kept = queue.clock q w ∙ same in
      elim (Bool-cases (eq_ℤ (tm_is_timeout (k.clock w).0 timer) (pos 0))) [
        | inl early ↦ (broken e2big, st', rw (r, early) refl, inr refl, kept)
        | inr late ↦ (timed_out, st', rw (r, late) refl, inl refl, kept)
      ]
