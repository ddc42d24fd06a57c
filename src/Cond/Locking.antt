-- ===== src/Cond/Locking.antt =====
-- The mutex of a condition variable of linux/src/cond.c: which functions give it back.
use libjoe.Base.{
  ◌≡◌, refl, ◌∙◌, ◌⊎◌, inl, inr, Bool, true, false, some, none, ℤ, pos, if◌then◌else◌, ok,
  out_of_fuel, pure, to_unsigned, Ensures, Ensures-and_then,
}
use libjoe.Timer.Functions.{Timer, tm_set_ms}
use libjoe.Linklist.Store.{Ptr}
use libjoe.Cond.Functions.{
  or_else, cond_wait, Status, write_status, condition_changed, State, Threads, lock, cond_timedwait,
  cond_var_changed, cond_var_broadcast, cond_var_wait, cond_var_timewait,
}

-- What is relied on of a mutex and a condition variable. `held` says whether this thread has the mutex. A mutex
-- that this thread does not have is free or becomes free; one that it has it cannot take again. A wait ends
-- with the mutex taken again, a timed wait comes to an end.
pub record IsThreads {W : Type 0} (held : Ptr → W → Bool) (k : Threads W) : Type 0 where
  pub locks :
      (p : Ptr) (w : W) → held p w ≡ false → (w' : W) × (k.lock p w ≡ some w') × (held p w' ≡ true)
  pub blocks : (p : Ptr) (w : W) → held p w ≡ true → k.lock p w ≡ none
  pub unlocks : (p : Ptr) (w : W) → held p w ≡ true → held p (k.unlock p w) ≡ false
  pub signals : (p : Ptr) (w : W) → held p (k.signal p w) ≡ held p w
  pub broadcasts : (p : Ptr) (w : W) → held p (k.broadcast p w) ≡ held p w
  pub clocks : (p : Ptr) (w : W) → held p (k.clock w).1 ≡ held p w
  pub waits :
      (p : Ptr) (s s' : Status) (w w' : W)
      → held p w ≡ true
      → k.wait p s w ≡ some (s', w')
      → held p w' ≡ true
  pub timed_waits :
      (p : Ptr) (t : Timer) (s : Status) (w : W)
      → held p w ≡ true
      → (late : Bool) × (s' : Status) × (w' : W) × (k.timedwait p t s w ≡ some (late, s', w'))
        × (held p w' ≡ true)

module _ {W : Type 0} {held : Ptr → W → Bool} {k : Threads W} (threads : IsThreads held k)
    (p : Ptr) where
  lock-held : (st : State W) → held p st.world ≡ true → lock k p st ≡ out_of_fuel
  unfolding lock
  lock-held st h = rw (threads.blocks p st.world h) refl

  lock-free :
      (st : State W) (w : W)
      → k.lock p st.world ≡ some w
      → lock k p st ≡ ok tt (record st { world = w })
  unfolding lock
  lock-free st w e = rw e refl

  -- What is left when another thread may go on: the status is set, no other one is touched, and the mutex is
  -- free.
  abbrev pub Changed : State W → ℤ → State W → Type 0
  Changed st r st' =
      (r ≡ pos 0)
      × (st'.status ≡ write_status st.status p condition_changed)
      × (held p st'.world ≡ false)

  -- On an object whose mutex this thread does not have, `cond_var_changed` and `cond_var_broadcast` return 0,
  -- set the status and no other one, give the mutex back, and end with a call of pthread_cond_signal,
  -- pthread_cond_broadcast.
  pub cond_var_changed-Changed :
      (st : State W)
      → held p st.world ≡ false
      → Ensures
          (λ r st'. Changed st r st' × ((w : W) × (st'.world ≡ k.signal p w)))
          (cond_var_changed k (some p) st)
        × Ensures
            (λ r st'. Changed st r st' × ((w : W) × (st'.world ≡ k.broadcast p w)))
            (cond_var_broadcast k (some p) st)
  unfolding cond_var_changed cond_var_broadcast
  cond_var_changed-Changed st free =
      let (w, e, h) = threads.locks p st.world free in
      let after = threads.unlocks p w h in
      (
        rw (lock-free st w e)
            ((refl, refl, threads.signals p (k.unlock p w) ∙ after), (k.unlock p w, refl)),
        rw (lock-free st w e)
            ((refl, refl, threads.broadcasts p (k.unlock p w) ∙ after), (k.unlock p w, refl)),
      )

  -- Neither `cond_var_changed`, `cond_var_broadcast`, `cond_var_wait` nor `cond_var_timewait` on the object returns
  -- to this thread.
  abbrev pub Stuck : State W → Type 0
  Stuck st =
      (cond_var_changed k (some p) st ≡ out_of_fuel)
      × (cond_var_broadcast k (some p) st ≡ out_of_fuel)
      × (cond_var_wait k (some p) st ≡ out_of_fuel)
      × ((ms : ℤ) → cond_var_timewait k (some p) ms st ≡ out_of_fuel)

  held-Stuck : (st : State W) → held p st.world ≡ true → Stuck st
  unfolding cond_var_changed cond_var_broadcast cond_var_wait cond_var_timewait
  held-Stuck st h = (
    rw (lock-held st h) refl,
    rw (lock-held st h) refl,
    rw (lock-held st h) refl,
    λ ms. rw (lock-held st h) refl,
  )

  timed-Stuck :
      (t : Timer) (st : State W)
      → held p st.world ≡ true
      → Ensures (λ late st'. Stuck st') (cond_timedwait k p t st)
  unfolding cond_timedwait
  timed-Stuck t st h =
      let (late, s', w', e, h') = threads.timed_waits p t st.status st.world h in
      rw e (held-Stuck (record st { status = s'; world = w' }) h')

  result :
      (late : Bool) (st : State W)
      → Stuck st
      → ((if late then pos 1 else pos 0) ≡ pos 0) ⊎ ((if late then pos 1 else pos 0) ≡ pos 1)
  result true st h = inr refl
  result false st h = inl refl

  -- On an object whose mutex this thread does not have, `cond_var_timewait` returns 0 or 1, and from then on
  -- neither `cond_var_changed`, `cond_var_broadcast`, `cond_var_wait` nor `cond_var_timewait` on the object
  -- returns to this thread.
  pub cond_var_timewait-Stuck :
      (ms : ℤ) (st : State W)
      → held p st.world ≡ false
      → Ensures
          (λ r st'. ((r ≡ pos 0) ⊎ (r ≡ pos 1)) × Stuck st')
          (cond_var_timewait k (some p) ms st)
  unfolding cond_var_timewait
  cond_var_timewait-Stuck ms st free =
      let (w, e, h) = threads.locks p st.world free in
      let now = k.clock w in
      let st1 : State W = record st { world = now.1 } in
      let tout = or_else k.stack (tm_set_ms now.0 (some k.stack) (to_unsigned ms)).1 in
      rw (lock-free st w e) (
        Ensures-and_then (λ late st'. Stuck st') _ (cond_timedwait k p tout st1)
          (λ late. pure (if late then pos 1 else pos 0))
          (timed-Stuck tout st1 (threads.clocks p w ∙ h)) (λ late st' q. (result late st' q, q)))

  -- A wait that comes to an end gives the mutex back and returns 0.
  pub cond_var_wait-free :
      (st : State W)
      → held p st.world ≡ false
      → ((s : Status) (w : W)
          → held p w ≡ true
          → (s' : Status) × (w' : W) × (k.wait p s w ≡ some (s', w')))
      → Ensures (λ r st'. (r ≡ pos 0) × (held p st'.world ≡ false)) (cond_var_wait k (some p) st)
  unfolding cond_var_wait cond_wait
  cond_var_wait-free st free woken =
      let (w, e, h) = threads.locks p st.world free in
      let (s', w', e') = woken st.status w h in
      rw (lock-free st w e, e')
        (refl, threads.unlocks p w' (threads.waits p st.status s' w w' h e'))
