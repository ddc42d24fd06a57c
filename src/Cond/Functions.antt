-- ===== src/Cond/Functions.antt =====
-- The functions of linux/src/cond.c, statement by statement, as commands over the statuses of the objects, the
-- log of mem.c and the world outside. An object is its address, `none` a NULL pointer; its `status` stands in
-- the state, since other threads change it while one waits. A call that never returns is the outcome
-- `out_of_fuel`.
use Prim.Native.String.{String}
use libjoe.Base.{
  ℕ, Bool, Option, none, some, ℤ, pos, minus_one, to_unsigned, ◌==◌, if◌then◌else◌, Run, ok,
  out_of_fuel, pure, ◌>>=◌, ◌>>◌,
}
use libjoe.Mem.{Table, omalloc}
use libjoe.Timer.Functions.{Timer, tm_set_ms}
use libjoe.Linklist.Store.{Ptr, null}

abbrev pub condition_nochanged : ℕ
condition_nochanged = 0

abbrev pub condition_changed : ℕ
condition_changed = 1

abbrev pub Status : Type 0
Status = Ptr → ℕ

unfoldable pub write_status : Status → Ptr → ℕ → Status
write_status s p v a = if a == p then v else s a

pub record State (W : Type 0) : Type 0 where
  pub status : Status
  pub log : Table
  pub world : W

abbrev pub Cmd : Type 0 → Type 0 → Type 0
Cmd W A = State W → Run (State W) A

-- The calls of the thread library on the mutex and the condition variable of the object at an address, and the
-- C library. True is an error, for `timedwait` ETIMEDOUT. `none` is a call that never returns. While a thread
-- waits, others may change each status. `stack` is what a variable holds that is not initialised.
pub record Threads (W : Type 0) : Type 0 where
  pub malloc : State W → ℕ → Ptr
  pub stamp : String → String
  pub free : Ptr → W → W
  pub cond_init : Ptr → W → Bool × W
  pub mutex_init : Ptr → W → Bool × W
  pub cond_destroy : Ptr → W → Bool × W
  pub mutex_destroy : Ptr → W → Bool × W
  pub lock : Ptr → W → Option W
  pub unlock : Ptr → W → W
  pub signal : Ptr → W → W
  pub broadcast : Ptr → W → W
  pub wait : Ptr → Status → W → Option (Status × W)
  pub timedwait : Ptr → Timer → Status → W → Option (Bool × Status × W)
  pub clock : W → Option Timer × W
  pub stack : Timer

abbrev pub or_else : Timer → Option Timer → Timer
or_else t none = t
or_else t (some t') = t'

-- sizeof(cond_var)
abbrev pub cond_var_size : ℕ
cond_var_size = 160

module _ {W : Type 0} where
  abbrev pub call : {A : Type 0} → (W → A × W) → Cmd W A
  call f st = let (a, w) = f st.world in ok a (record st { world = w })

  abbrev pub effect : (W → W) → Cmd W (Unit {0})
  effect f st = ok tt (record st { world = f st.world })

  abbrev pub after_lock : State W → Option W → Run (State W) (Unit {0})
  after_lock st none = out_of_fuel
  after_lock st (some w) = ok tt (record st { world = w })

  abbrev pub after_wait : State W → Option (Status × W) → Run (State W) (Unit {0})
  after_wait st none = out_of_fuel
  after_wait st (some (s, w)) = ok tt (record st { status = s; world = w })

  abbrev pub after_timedwait : State W → Option (Bool × Status × W) → Run (State W) Bool
  after_timedwait st none = out_of_fuel
  after_timedwait st (some (late, s, w)) = ok late (record st { status = s; world = w })

  -- `cond->status = v;`
  unfoldable pub set_status : Ptr → ℕ → Cmd W (Unit {0})
  set_status p v st = ok tt (record st { status = write_status st.status p v })

module _ {W : Type 0} (k : Threads W) where
  unfoldable pub lock : Ptr → Cmd W (Unit {0})
  lock p st = after_lock st (k.lock p st.world)

  unfoldable pub cond_wait : Ptr → Cmd W (Unit {0})
  cond_wait p st = after_wait st (k.wait p st.status st.world)

  unfoldable pub cond_timedwait : Ptr → Timer → Cmd W Bool
  cond_timedwait p tout st = after_timedwait st (k.timedwait p tout st.status st.world)

  -- Errors are only printed.
  unfoldable pub cond_var_init : Option Ptr → Cmd W ℤ
  unfolding set_status
  cond_var_init none = pure minus_one
  cond_var_init (some cond) = do
    error ← call (k.cond_init cond)
    error' ← call (k.mutex_init cond)
    set_status cond condition_nochanged
    pure (pos 0)

  -- `free` and not `ofree`: the log of mem.c is left alone.
  unfoldable pub cond_var_destroy : Option Ptr → Cmd W ℤ
  cond_var_destroy none = pure minus_one
  cond_var_destroy (some cond) = do
    error ← call (k.cond_destroy cond)
    error' ← call (k.mutex_destroy cond)
    effect (k.free cond)
    pure (pos 0)

  unfoldable pub cond_var_changed : Option Ptr → Cmd W ℤ
  unfolding set_status
  cond_var_changed none = pure minus_one
  cond_var_changed (some cond) = do
    lock cond
    set_status cond condition_changed
    effect (k.unlock cond)
    effect (k.signal cond)
    pure (pos 0)

  unfoldable pub cond_var_broadcast : Option Ptr → Cmd W ℤ
  unfolding set_status
  cond_var_broadcast none = pure minus_one
  cond_var_broadcast (some cond) = do
    lock cond
    set_status cond condition_changed
    effect (k.unlock cond)
    effect (k.broadcast cond)
    pure (pos 0)

  -- `status` is not looked at.
  unfoldable pub cond_var_wait : Option Ptr → Cmd W ℤ
  cond_var_wait none = pure minus_one
  cond_var_wait (some cond) = do lock cond; cond_wait cond; effect (k.unlock cond); pure (pos 0)

  -- Both branches return before the mutex is given back.
  unfoldable pub cond_var_timewait : Option Ptr → (ms : ℤ) → Cmd W ℤ
  cond_var_timewait none ms = pure minus_one
  cond_var_timewait (some cond) ms = do
    lock cond
    now ← call k.clock
    let tout = or_else k.stack (tm_set_ms now (some k.stack) (to_unsigned ms)).1
    late ← cond_timedwait cond tout
    pure (if late then pos 1 else pos 0)

  unfoldable pub cond_var_new : Cmd W (Option Ptr)
  cond_var_new st =
      let (p, log') =
        omalloc (k.malloc st cond_var_size) k.stamp (some "condition variable") cond_var_size
          st.log in
      ok (if p == null then none else some p) (record st { log = log' })
