-- ===== src/Sema/Counting.antt =====
-- What the functions of linux/src/sema.c do to the value of a semaphore.
use libjoe.Base.{
  ℕ, zero, suc, ◌≡◌, refl, sym, ◌∙◌, ◌⊎◌, inl, inr, Bool-cases, Bool, true, false, some, ℤ, pos,
  minus_one, eq_ℤ, Safe, Errno, eintr, eagain, enoent, enomsg, eidrm, e2big, unknown, Answer, got,
  failed,
}
use libjoe.Timer.Functions.{Timer, zero_timer, tm_set_ms, tm_is_timeout}
use libjoe.Sema.Functions.{
  Sema, State, System, Cmd, or_zero, after_semop, semop_loop, after_trylock, timelock_loop,
  sema_timelock, sema_lock, sema_unlock,
}

-- The calls act on a semaphore of value `value`: `semop` adds to it and never takes it below 0.
pub record IsSemaphore {W : Type 0} (value : ℤ → W → ℕ) (k : System W) : Type 0 where
  pub took :
      (id : ℤ) (nowait : Bool) (w : W)
      → (k.semop id minus_one nowait w).0 ≡ got tt
      → value id w ≡ suc (value id (k.semop id minus_one nowait w).1)
  pub gave :
      (id : ℤ) (nowait : Bool) (w : W)
      → (k.semop id (pos 1) nowait w).0 ≡ got tt
      → value id (k.semop id (pos 1) nowait w).1 ≡ suc (value id w)
  pub refused :
      (id : ℤ) (op : ℤ) (nowait : Bool) (w : W) (e : Errno)
      → (k.semop id op nowait w).0 ≡ failed e
      → value id (k.semop id op nowait w).1 ≡ value id w
  pub clock : (id : ℤ) (w : W) → value id (k.clock w).1 ≡ value id w
  pub usleep : (id : ℤ) (w : W) → value id (k.usleep w) ≡ value id w
  pub set :
      (id : ℤ) (v : ℕ) (w : W)
      → (k.setval id (pos v) w).0 ≡ false
      → value id (k.setval id (pos v) w).1 ≡ v

abbrev pub Takes : ℕ → ℕ → Type 0
Takes v v' = v ≡ suc v'

abbrev pub Gives : ℕ → ℕ → Type 0
Gives v v' = v' ≡ suc v

-- The call returns 0 and has done its work on the value `v`, or returns -1 and has not touched it.
abbrev pub Outcome : {W : Type 0} → (ℤ → W → ℕ) → ℤ → (ℕ → ℕ → Type 0) → ℕ → ℤ → State W → Type 0
Outcome value id Does v r st' =
    ((r ≡ pos 0) × Does v (value id st'.world)) ⊎ ((r ≡ minus_one) × (value id st'.world ≡ v))

after_semop-Outcome :
    {W : Type 0} (value : ℤ → W → ℕ) (id : ℤ) (Does : ℕ → ℕ → Type 0) (v : ℕ) (again : Cmd W ℤ)
    (st : State W) (r : Answer (Unit {0}))
    → (r ≡ got tt → Does v (value id st.world))
    → ((e : Errno) → r ≡ failed e → value id st.world ≡ v)
    → (value id st.world ≡ v → Safe (Outcome value id Does v) (again st))
    → Safe (Outcome value id Does v) (after_semop again r st)
after_semop-Outcome value id Does v again st (got u) done same later = inl (refl, done refl)
after_semop-Outcome value id Does v again st (failed eintr) done same later =
    later (same eintr refl)
after_semop-Outcome value id Does v again st (failed eagain) done same later =
    inr (refl, same eagain refl)
after_semop-Outcome value id Does v again st (failed enoent) done same later =
    inr (refl, same enoent refl)
after_semop-Outcome value id Does v again st (failed enomsg) done same later =
    inr (refl, same enomsg refl)
after_semop-Outcome value id Does v again st (failed eidrm) done same later =
    inr (refl, same eidrm refl)
after_semop-Outcome value id Does v again st (failed e2big) done same later =
    inr (refl, same e2big refl)
after_semop-Outcome value id Does v again st (failed unknown) done same later =
    inr (refl, same unknown refl)

module _ {W : Type 0} {value : ℤ → W → ℕ} {k : System W} (sem : IsSemaphore value k) where
  semop_loop-Outcome :
      (op : ℤ) (Does : ℕ → ℕ → Type 0) (id : ℤ)
      → ((w : W)
          → (k.semop id op false w).0 ≡ got tt
          → Does (value id w) (value id (k.semop id op false w).1))
      → (n : ℕ) (st : State W) (v : ℕ) → value id st.world ≡ v
      → Safe (Outcome value id Does v) (semop_loop k n id op st)
  unfolding semop_loop
  semop_loop-Outcome op Does id does zero st v e = tt
  semop_loop-Outcome op Does id does (suc n) st v e =
      let (r, w) = k.semop id op false st.world in
      let st1 = record st { world = w } in
      after_semop-Outcome value id Does v (semop_loop k n id op) st1 r
        (λ h. rw (sym e) (does st.world h)) (λ er h. sem.refused id op false st.world er h ∙ e)
        (λ same. semop_loop-Outcome op Does id does n st1 v same)

  -- `sema_lock` that ends has taken one from the value of the semaphore and returns 0, or has left the
  -- value as it was and returns -1.
  pub sema_lock-Takes :
      (n : ℕ) (s : Sema) (st : State W)
      → Safe (Outcome value s.id Takes (value s.id st.world)) (sema_lock k n (some s) st)
  unfolding sema_lock
  sema_lock-Takes n s st =
      semop_loop-Outcome minus_one Takes s.id (sem.took s.id false) n st (value s.id st.world) refl

  -- `sema_unlock` that ends has added one to the value and returns 0, or has left it and returns -1.
  pub sema_unlock-Gives :
      (n : ℕ) (s : Sema) (st : State W)
      → Safe (Outcome value s.id Gives (value s.id st.world)) (sema_unlock k n (some s) st)
  unfolding sema_unlock
  sema_unlock-Gives n s st =
      semop_loop-Outcome (pos 1) Gives s.id (sem.gave s.id false) n st (value s.id st.world) refl

  after_trylock-Outcome :
      (id : ℤ) (v : ℕ) (again : Cmd W ℤ) (timer : Timer) (st : State W) (r : Answer (Unit {0}))
      → (r ≡ got tt → Takes v (value id st.world))
      → ((e : Errno) → r ≡ failed e → value id st.world ≡ v)
      → ((w : W)
          → value id w ≡ v
          → Safe (Outcome value id Takes v) (again (record st { world = w })))
      → Safe (Outcome value id Takes v) (after_trylock k again timer r st)
  after_trylock-Outcome id v again timer st (got u) done same later = inl (refl, done refl)
  after_trylock-Outcome id v again timer st (failed eintr) done same later =
      later st.world (same eintr refl)
  after_trylock-Outcome id v again timer st (failed eagain) done same later =
      let (now, w) = k.clock st.world in
      let kept = sem.clock id st.world ∙ same eagain refl in
      elim (Bool-cases (eq_ℤ (tm_is_timeout now timer) (pos 0))) [
        | inl early ↦ rw early (later (k.usleep w) (sem.usleep id w ∙ kept))
        | inr late ↦ rw late (inr (refl, kept))
      ]
  after_trylock-Outcome id v again timer st (failed enoent) done same later =
      inr (refl, same enoent refl)
  after_trylock-Outcome id v again timer st (failed enomsg) done same later =
      inr (refl, same enomsg refl)
  after_trylock-Outcome id v again timer st (failed eidrm) done same later =
      inr (refl, same eidrm refl)
  after_trylock-Outcome id v again timer st (failed e2big) done same later =
      inr (refl, same e2big refl)
  after_trylock-Outcome id v again timer st (failed unknown) done same later =
      inr (refl, same unknown refl)

  timelock_loop-Takes :
      (id : ℤ) (timer : Timer) (n : ℕ) (st : State W) (w : W) (v : ℕ)
      → value id w ≡ v
      → Safe (Outcome value id Takes v) (timelock_loop k n id timer (record st { world = w }))
  unfolding timelock_loop
  timelock_loop-Takes id timer zero st w v e = tt
  timelock_loop-Takes id timer (suc n) st w v e =
      let (r, w1) = k.semop id minus_one true w in
      after_trylock-Outcome id v (timelock_loop k n id timer) timer (record st { world = w1 }) r
        (λ h. rw (sym e) (sem.took id true w h)) (λ er h. sem.refused id minus_one true w er h ∙ e)
        (λ w2 same. timelock_loop-Takes id timer n st w2 v same)

  -- `sema_timelock` that ends has taken one from the value and returns 0, or has left it, also after a
  -- time-out, and returns -1.
  pub sema_timelock-Takes :
      (n : ℕ) (s : Sema) (ms : ℕ) (st : State W)
      → Safe (Outcome value s.id Takes (value s.id st.world)) (sema_timelock k n (some s) ms st)
  unfolding sema_timelock
  sema_timelock-Takes n s ms st =
      timelock_loop-Takes s.id (or_zero (tm_set_ms (k.clock st.world).0 (some zero_timer) ms).1) n
        st (k.clock st.world).1 (value s.id st.world) (sem.clock s.id st.world)
