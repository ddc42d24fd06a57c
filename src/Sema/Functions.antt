-- ===== src/Sema/Functions.antt =====
-- The functions of linux/src/sema.c, statement by statement, as commands over the log of mem.c and the
-- world outside. A semaphore object is an argument, `none` for a NULL pointer, and its new value is part of
-- the result. `n` bounds the rounds of each loop that tries again.
use Prim.Native.String.{String}
use libjoe.Base.{
  ℕ, zero, suc, Bool, true, false, Option, none, some, ℤ, pos, negsuc, minus_one, eq_ℤ, ◌==◌,
  if◌then◌else◌, Run, ok, out_of_fuel, pure, ◌>>=◌, ◌>>◌, eintr, eagain, Answer, got, failed,
}
use libjoe.Mem.{Table, omalloc, ofree}
use libjoe.Timer.Functions.{Timer, zero_timer, tm_set_ms, tm_is_timeout}

-- `SEMA_INIT_STATE`
pub data InitState : Type 0 where
  force_lock force_unlock excep_lock excep_unlock init_amount : InitState

-- The data of `sema_class`. `self` is its own address, `val` the member of `arg` that is used.
pub record Sema : Type 0 where
  pub self : ℕ
  pub id : ℤ
  pub key : ℤ
  pub key_path : String
  pub val : ℤ

-- The log of mem.c, and all the rest.
pub record State (W : Type 0) : Type 0 where
  pub log : Table
  pub world : W

abbrev pub Cmd : Type 0 → Type 0 → Type 0
Cmd W A = State W → Run (State W) A

-- The calls of the operating system and of the C library. `semop` has the fields `sem_op` and `sem_flg` as
-- arguments; `exists`, `create` and `ftok` take the path; `path_of` is what `snprintf` makes of a path.
pub record System (W : Type 0) : Type 0 where
  pub semop : (id : ℤ) → (sem_op : ℤ) → (nowait : Bool) → W → Answer (Unit {0}) × W
  pub clock : W → Option Timer × W
  pub usleep : W → W
  pub exists : String → W → Bool × W
  pub create : String → W → Bool × W
  pub ftok : String → W → ℤ × W
  pub semget : (key : ℤ) → (create : Bool) → W → ℤ × W
  pub setval : (id : ℤ) → (val : ℤ) → W → Bool × W
  pub path_of : String → String
  pub malloc : State W → ℕ → ℕ
  pub stamp : String → String

abbrev pub or_zero : Option Timer → Timer
or_zero none = zero_timer
or_zero (some t) = t

module _ {W : Type 0} where
  abbrev pub call : {A : Type 0} → (W → A × W) → Cmd W A
  call f st = let (a, w) = f st.world in ok a (record st { world = w })

  abbrev pub sleep : (W → W) → Cmd W (Unit {0})
  sleep f st = ok tt (record st { world = f st.world })

  -- A `semop` that fails is tried again after EINTR.
  abbrev pub after_semop : (again : Cmd W ℤ) → Answer (Unit {0}) → Cmd W ℤ
  after_semop again (got u) = pure (pos 0)
  after_semop again (failed eintr) = again
  after_semop again (failed e) = pure minus_one

module _ {W : Type 0} (k : System W) where
  -- The loops of `sema_lock` and `sema_unlock`.
  unfoldable pub semop_loop : ℕ → (id : ℤ) → (sem_op : ℤ) → Cmd W ℤ
  semop_loop zero id sem_op = λ _. out_of_fuel
  semop_loop (suc n) id sem_op = do
    r ← call (k.semop id sem_op false)
    after_semop (semop_loop n id sem_op) r

  -- The same with a time limit.
  abbrev pub after_trylock : (again : Cmd W ℤ) → Timer → Answer (Unit {0}) → Cmd W ℤ
  after_trylock again timer (got u) = pure (pos 0)
  after_trylock again timer (failed eintr) = again
  after_trylock again timer (failed eagain) = do
    now ← call k.clock
    if eq_ℤ (tm_is_timeout now timer) (pos 0) then (do sleep k.usleep; again) else pure minus_one
  after_trylock again timer (failed e) = pure minus_one

  unfoldable pub timelock_loop : ℕ → (id : ℤ) → Timer → Cmd W ℤ
  timelock_loop zero id timer = λ _. out_of_fuel
  timelock_loop (suc n) id timer = do
    r ← call (k.semop id minus_one true)
    after_trylock (timelock_loop n id timer) timer r

  unfoldable pub sema_timelock : ℕ → Option Sema → (ms : ℕ) → Cmd W ℤ
  unfolding timelock_loop
  sema_timelock n none ms = pure minus_one
  sema_timelock n (some sema) ms = do
    now ← call k.clock
    timelock_loop n sema.id (or_zero (tm_set_ms now (some zero_timer) ms).1)

  unfoldable pub sema_lock : ℕ → Option Sema → Cmd W ℤ
  unfolding semop_loop
  sema_lock n none = pure minus_one
  sema_lock n (some sema) = semop_loop n sema.id minus_one

  unfoldable pub sema_unlock : ℕ → Option Sema → Cmd W ℤ
  unfolding semop_loop
  sema_unlock n none = pure minus_one
  sema_unlock n (some sema) = semop_loop n sema.id (pos 1)

  -- `sema->arg.val = val;` and `semctl` with `SETVAL`
  unfoldable pub set_value : Sema → (val : ℤ) → Cmd W (ℤ × Option Sema)
  set_value sema val = do
    failed_call ← call (k.setval sema.id val)
    pure (if failed_call then negsuc 4 else pos 0, some (record sema { val = val }))

  -- The initial value, by the state that is asked for; `created` is whether `flag` has `IPC_CREAT`.
  unfoldable pub init_value : Sema → (created : Bool) → InitState → Cmd W (ℤ × Option Sema)
  unfolding set_value
  init_value sema created force_lock = set_value sema (pos 0)
  init_value sema created force_unlock = set_value sema (pos 1)
  init_value sema created excep_lock =
      if created then set_value sema (pos 0) else pure (pos 0, some sema)
  init_value sema created excep_unlock =
      if created then set_value sema (pos 1) else pure (pos 0, some sema)
  init_value sema created init_amount = pure (pos 0, some sema)

  unfoldable pub after_semget : Sema → (created : Bool) → InitState → Cmd W (ℤ × Option Sema)
  unfolding init_value
  after_semget sema created init = elim sema.id [
    | negsuc m ↦ pure (negsuc 3, some sema)
    | pos m ↦ init_value sema created init
  ]

  -- `ftok`, `semget` and the initial value.
  unfoldable pub open_set : Sema → (created : Bool) → InitState → Cmd W (ℤ × Option Sema)
  unfolding after_semget
  open_set sema created init = do
    key ← call (k.ftok sema.key_path)
    if eq_ℤ key minus_one then pure (negsuc 2, some (record sema { key = key })) else do
      id ← call (k.semget key created)
      after_semget (record sema { key = key; id = id }) created init

  unfoldable pub sema_init : Option Sema → Option String → InitState → Cmd W (ℤ × Option Sema)
  unfolding open_set
  sema_init none path init = pure (minus_one, none)
  sema_init (some sema) none init = pure (minus_one, some sema)
  sema_init (some sema) (some path) init = do
    let sema' = record sema { key_path = k.path_of path }
    there ← call (k.exists sema'.key_path)
    if there then open_set sema' false init else do
      failed_call ← call (k.create sema'.key_path)
      if failed_call then pure (negsuc 1, some sema') else open_set sema' true init

  unfoldable pub sema_destroy : Option Sema → Cmd W (ℤ × Option Sema)
  sema_destroy none st = ok (minus_one, none) st
  sema_destroy (some sema) st = ok (pos 0, none) (record st { log = (ofree sema.self st.log).1 })

  -- sizeof(sema_class)
  abbrev pub sema_size : ℕ
  sema_size = 184

  unfoldable pub sema_new : Cmd W (Option Sema)
  sema_new st =
      let (p, log') = omalloc (k.malloc st sema_size) k.stamp (some "sema obj") sema_size st.log in
      ok
        (if p == 0
          then none
          else some record { self = p; id = pos 0; key = pos 0; key_path = ""; val = pos 0 })
        (record st { log = log' })
