-- ===== src/Linklist/Mutex.antt =====
-- linux/src/mutex.c: mutex objects, as commands over the memory of the lists and the world outside. A mutex
-- object is an argument, `none` for a NULL pointer.
use libjoe.Base.{
  ℕ, Bool, false, Option, none, some, ℤ, pos, minus_one, ◌==◌, if◌then◌else◌, Run, ok, fault,
  out_of_fuel, pure, ◌>>=◌, ◌>>◌,
}
use libjoe.Mem.{omalloc, ofree}
use libjoe.Timer.Functions.{Timer, tm_set_ms}
use libjoe.Linklist.Store.{Ptr, Store, Libc, Cmd}
use Prim.Native.String.{String}

pub record State (M : Type 0) : Type 0 where
  pub memory : Store
  pub world : M

abbrev pub Command : Type 0 → Type 0 → Type 0
Command M A = State M → Run (State M) A

-- The calls of the thread library on the mutex at an address; true is an error, for `timedlock` ETIMEDOUT. A
-- lock and an unlock are calls in a state: the memory is what other threads may see of the list.
-- `stack` is what a variable holds that is not initialised.
pub record Pthread (M : Type 0) : Type 0 where
  pub libc : Libc
  pub mutex_init : Ptr → M → Bool × M
  pub lock : Ptr → State M → Bool × M
  pub timedlock : Ptr → Timer → M → Bool × M
  pub unlock : Ptr → State M → Bool × M
  pub clock : M → Option Timer × M
  pub stack : Timer

-- `mutex_class`: its address, and whether its pointer `destroy` is set.
pub record MutexClass : Type 0 where
  pub self : Ptr
  pub has_destroy : Bool

abbrev or_else : Timer → Option Timer → Timer
or_else t none = t
or_else t (some t') = t'

-- sizeof(mutex_class)
abbrev pub mutex_size : ℕ
mutex_size = 80

module _ {M : Type 0} where
  abbrev pub call : {A : Type 0} → (M → A × M) → Command M A
  call f st = let (a, w) = f st.world in ok a (record st { world = w })

  abbrev pub call_in : {A : Type 0} → (State M → A × M) → Command M A
  call_in f st = let (a, w) = f st in ok a (record st { world = w })

  abbrev pub answer : (State M → Bool × M) → Command M ℤ
  answer f = do error ← call_in f; pure (if error then minus_one else pos 0)

  abbrev pub resume : {A : Type 0} → State M → Run Store A → Run (State M) A
  resume st (ok a s) = ok a (record st { memory = s })
  resume st fault = fault
  resume st out_of_fuel = out_of_fuel

  -- A command on the memory alone.
  abbrev pub on_memory : {A : Type 0} → Cmd A → Command M A
  on_memory m st = resume st (m st.memory)

  -- `omalloc` and `ofree` of a block that holds no list node.
  unfoldable pub omalloc_object : Pthread M → (dec : String) → (size : ℕ) → Command M Ptr
  omalloc_object k dec size st =
      let (p, log') =
        omalloc (k.libc.malloc st.memory size) k.libc.stamp (some dec) size st.memory.log in
      ok p (record st { memory = record { cell = st.memory.cell; log = log' } })

  unfoldable pub ofree_object : Ptr → Command M ℤ
  ofree_object p st =
      let (r, log') = ofree p st.memory.log in
      ok r (record st { memory = record { cell = st.memory.cell; log = log' } })

  unfoldable pub mutex_destroy : Option MutexClass → Command M ℤ
  unfolding ofree_object
  mutex_destroy none = pure minus_one
  mutex_destroy (some mutex) = do ofree_object mutex.self; pure (pos 0)

module _ {M : Type 0} (k : Pthread M) where
  unfoldable pub mutex_lock : Option MutexClass → Command M ℤ
  mutex_lock none = pure minus_one
  mutex_lock (some mutex) = answer (k.lock mutex.self)

  unfoldable pub mutex_timelock : Option MutexClass → (ms : ℕ) → Command M ℤ
  mutex_timelock none ms = pure minus_one
  mutex_timelock (some mutex) ms = do
    now ← call k.clock
    late ← call (k.timedlock mutex.self (or_else k.stack (tm_set_ms now (some k.stack) ms).1))
    pure (if late then pos 1 else pos 0)

  unfoldable pub mutex_unlock : Option MutexClass → Command M ℤ
  mutex_unlock none = pure minus_one
  mutex_unlock (some mutex) = answer (k.unlock mutex.self)

  unfoldable pub mutex_init : Option MutexClass → Command M ℤ
  mutex_init none = pure minus_one
  mutex_init (some mutex) = answer (λ st. k.mutex_init mutex.self st.world)

  -- The pointer `destroy` stays NULL.
  unfoldable pub mutex_new : Command M (Option MutexClass)
  unfolding omalloc_object
  mutex_new = do
    p ← omalloc_object k "mutex obj" mutex_size
    pure (if p == 0 then none else some record { self = p; has_destroy = false })
