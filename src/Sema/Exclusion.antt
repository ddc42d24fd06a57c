-- ===== src/Sema/Exclusion.antt =====
-- Processes that share a semaphore of linux/src/sema.c: how many of them hold it.
use Prim.Native.String.{String}
use native.Mathlib.Decide.{ℕ_discrete}
use libjoe.Base.{
  ℕ, ◌+◌, ◌≡◌, refl, sym, ◌∙◌, ◌⊎◌, inl, inr, some, List, [], ◌∷◌, ◌++◌, ℤ, pos, minus_one, arith,
  length, length-append, ok,
}
use libjoe.Sema.Functions.{
  force_unlock, Sema, State, System, sema_timelock, sema_lock, sema_unlock, sema_init,
}
use libjoe.Sema.Counting.{
  IsSemaphore, Takes, Gives, Outcome, sema_lock-Takes, sema_unlock-Gives, sema_timelock-Takes,
}
use libjoe.Sema.Initial.{sema_init-HasValue}

-- A step of the processes that share the semaphore `id`: `hs` are the ones that hold it. Each has its own
-- memory, so only the world passes from one step to the next.
pub data Step {W : Type 0} (k : System W) (id : ℤ) : List ℕ → W → List ℕ → W → Type 0 where
  lock_step :
      (hs : List ℕ) (p n : ℕ) (s : Sema) (st st' : State W)
      → s.id ≡ id
      → sema_lock k n (some s) st ≡ ok (pos 0) st'
      → Step k id hs st.world (p ∷ hs) st'.world
  lock_failure :
      (hs : List ℕ) (n : ℕ) (s : Sema) (st st' : State W)
      → s.id ≡ id
      → sema_lock k n (some s) st ≡ ok minus_one st'
      → Step k id hs st.world hs st'.world
  timelock_step :
      (hs : List ℕ) (p n : ℕ) (s : Sema) (ms : ℕ) (st st' : State W)
      → s.id ≡ id
      → sema_timelock k n (some s) ms st ≡ ok (pos 0) st'
      → Step k id hs st.world (p ∷ hs) st'.world
  timelock_failure :
      (hs : List ℕ) (n : ℕ) (s : Sema) (ms : ℕ) (st st' : State W)
      → s.id ≡ id
      → sema_timelock k n (some s) ms st ≡ ok minus_one st'
      → Step k id hs st.world hs st'.world
  unlock_step :
      (hs : List ℕ) (p : ℕ) (hs' : List ℕ) (n : ℕ) (s : Sema) (st st' : State W)
      → s.id ≡ id
      → sema_unlock k n (some s) st ≡ ok (pos 0) st'
      → Step k id (hs ++ p ∷ hs') st.world (hs ++ hs') st'.world
  unlock_failure :
      (hs : List ℕ) (n : ℕ) (s : Sema) (st st' : State W)
      → s.id ≡ id
      → sema_unlock k n (some s) st ≡ ok minus_one st'
      → Step k id hs st.world hs st'.world

pub data Steps {W : Type 0} (k : System W) (id : ℤ) : List ℕ → W → List ℕ → W → Type 0 where
  no_step : (hs : List ℕ) (w : W) → Steps k id hs w hs w
  and_step :
      (hs : List ℕ) (w : W) (hs' : List ℕ) (w' : W) (hs'' : List ℕ) (w'' : W)
      → Step k id hs w hs' w'
      → Steps k id hs' w' hs'' w''
      → Steps k id hs w hs'' w''

-- What an outcome says where the answer is known.
Outcome-done :
    {W : Type 0} (value : ℤ → W → ℕ) (id : ℤ) (Does : ℕ → ℕ → Type 0) (v : ℕ) (st' : State W)
    → Outcome value id Does v (pos 0) st'
    → Does v (value id st'.world)
Outcome-done value id Does v st' (inl (_, d)) = d
Outcome-done value id Does v st' (inr (bad, _)) = cc bad

Outcome-failed :
    {W : Type 0} (value : ℤ → W → ℕ) (id : ℤ) (Does : ℕ → ℕ → Type 0) (v : ℕ) (st' : State W)
    → Outcome value id Does v minus_one st'
    → value id st'.world ≡ v
Outcome-failed value id Does v st' (inl (bad, _)) = cc bad
Outcome-failed value id Does v st' (inr (_, same)) = same

module _ {W : Type 0} {value : ℤ → W → ℕ} {k : System W} (sem : IsSemaphore value k) where
  -- A step moves one between the value and the processes that hold the semaphore.
  Step-total :
      (id : ℤ) (hs : List ℕ) (w : W) (hs' : List ℕ) (w' : W)
      → Step k id hs w hs' w'
      → length hs' + value id w' ≡ length hs + value id w
  Step-total id _ _ _ _ (lock_step hs p n s st st' e run) =
      let d = rw run at (sema_lock-Takes sem n s st) in
      let t = Outcome-done value s.id Takes (value s.id st.world) st' d in
      rw (sym e) (omega (arith, t))
  Step-total id _ _ _ _ (lock_failure hs n s st st' e run) =
      let d = rw run at (sema_lock-Takes sem n s st) in
      let t = Outcome-failed value s.id Takes (value s.id st.world) st' d in
      rw (sym e) (omega (arith, t))
  Step-total id _ _ _ _ (timelock_step hs p n s ms st st' e run) =
      let d = rw run at (sema_timelock-Takes sem n s ms st) in
      let t = Outcome-done value s.id Takes (value s.id st.world) st' d in
      rw (sym e) (omega (arith, t))
  Step-total id _ _ _ _ (timelock_failure hs n s ms st st' e run) =
      let d = rw run at (sema_timelock-Takes sem n s ms st) in
      let t = Outcome-failed value s.id Takes (value s.id st.world) st' d in
      rw (sym e) (omega (arith, t))
  Step-total id _ _ _ _ (unlock_step hs0 p hs1 n s st st' e run) =
      let d = rw run at (sema_unlock-Gives sem n s st) in
      let t = Outcome-done value s.id Gives (value s.id st.world) st' d in
      rw (sym e) (omega (arith, t, length-append hs0 hs1, length-append hs0 (p ∷ hs1)))
  Step-total id _ _ _ _ (unlock_failure hs n s st st' e run) =
      let d = rw run at (sema_unlock-Gives sem n s st) in
      let t = Outcome-failed value s.id Gives (value s.id st.world) st' d in
      rw (sym e) (omega (arith, t))

  Steps-total :
      (id : ℤ) (hs : List ℕ) (w : W) (hs' : List ℕ) (w' : W)
      → Steps k id hs w hs' w'
      → length hs' + value id w' ≡ length hs + value id w
  Steps-total id _ _ _ _ (no_step hs w) = refl
  Steps-total id _ _ _ _ (and_step hs w hs' w' hs'' w'' one more) =
      Steps-total id hs' w' hs'' w'' more ∙ Step-total id hs w hs' w' one

  -- After a `sema_init` with FORCE_UNLOCK that returns 0, in whatever order processes then lock, lock with a
  -- time limit and unlock what they hold, one of them holds the semaphore and its value is 0, or none
  -- does and its value is 1.
  pub sema_init-exclusion :
      (s s' : Sema) (path : String) (st st' : State W) (hs : List ℕ) (w : W)
      → sema_init k (some s) (some path) force_unlock st ≡ ok (pos 0, some s') st'
      → Steps k s'.id [] st'.world hs w
      → ((length hs ≡ 1) × (value s'.id w ≡ 0)) ⊎ ((length hs ≡ 0) × (value s'.id w ≡ 1))
  sema_init-exclusion s s' path st st' hs w run steps =
      let all = rw run at (sema_init-HasValue sem s path force_unlock st) in
      let (s1, same, one, _) = all refl 1 refl in
      let here : s' ≡ s1 = cc same in
      let total = Steps-total s'.id [] st'.world hs w steps in
      let start : value s'.id st'.world ≡ 1 = rw here one in
      elim (ℕ_discrete (length hs) 0) [
        | yes z ↦ inr (z, omega (arith, total, start, z))
        | no nz ↦ inl (omega (arith, total, start, nz), omega (arith, total, start, nz))
      ]
