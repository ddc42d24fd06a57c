-- ===== src/Cond/Tests.antt =====
-- The functions of linux/src/cond.c on one object, and the theorems at it.
use libjoe.Base.{
  ℕ, ◌+◌, ◌≡◌, refl, ◌⊎◌, Bool, true, false, Option, none, some, pos, out_of_fuel, and_then,
  Ensures,
}
use libjoe.Mem.{mem_manager}
use libjoe.Mem.Live.{is_distinct, IsLog, AllCleared-replicate}
use libjoe.Timer.Functions.{zero_timer}
use libjoe.Linklist.Store.{Ptr}
use libjoe.Cond.Functions.{
  cond_timedwait, State, Threads, lock, cond_var_changed, cond_var_broadcast, cond_var_timewait,
}
use libjoe.Cond.Locking.{
  IsThreads, Changed, Stuck, cond_var_changed-Changed, cond_var_timewait-Stuck,
}

-- Whether this thread has the mutex, and how often it has called signal and broadcast.
record World : Type 0 where
  held : Bool
  signals : ℕ
  broadcasts : ℕ

abbrev taken : World → Bool → Option World
taken w true = none
taken w false = some (record w { held = true })

-- Each timed wait ends by its time.
abbrev threads : Threads World
threads = record {
  malloc = λ st n. 4096;
  stamp = λ s. s;
  free = λ p w. w;
  cond_init = λ p w. (false, w);
  mutex_init = λ p w. (false, w);
  cond_destroy = λ p w. (false, w);
  mutex_destroy = λ p w. (false, w);
  lock = λ p w. taken w w.held;
  unlock = λ p w. record w { held = false };
  signal = λ p w. record w { signals = w.signals + 1 };
  broadcast = λ p w. record w { broadcasts = w.broadcasts + 1 };
  wait = λ p s w. some (s, w);
  timedwait = λ p t s w. some (true, s, w);
  clock = λ w. (some zero_timer, w);
  stack = zero_timer;
}

abbrev held : Ptr → World → Bool
held p w = w.held

taken-held : (w : World) (b : Bool) → b ≡ true → taken w b ≡ none
taken-held w true e = refl
taken-held w false e = cc

taken-free :
    (w : World) (b : Bool) → b ≡ false → (w' : World) × (taken w b ≡ some w') × (w'.held ≡ true)
taken-free w true e = cc
taken-free w false e = (record w { held = true }, refl, refl)

threads-IsThreads : IsThreads held threads
threads-IsThreads = record {
  locks = λ p w e. taken-free w w.held e;
  blocks = λ p w e. taken-held w w.held e;
  unlocks = λ p w e. refl;
  signals = λ p w. refl;
  broadcasts = λ p w. refl;
  clocks = λ p w. refl;
  waits = λ p s s' w w' h e. cc;
  timed_waits = λ p t s w h. (true, s, w, refl, h);
}

abbrev start : State World
start = record {
  status = λ p. 0;
  log = mem_manager;
  world = record { held = false; signals = 0; broadcasts = 0 };
}

-- The second wait with a time never returns.
timewait_twice :
    and_then
      (cond_var_timewait threads (some 4096) (pos 20) start)
      (λ r. cond_var_timewait threads (some 4096) (pos 20))
    ≡ out_of_fuel
unfolding cond_var_timewait lock cond_timedwait
timewait_twice = refl

cond_var_changed-Changed_example :
    Ensures
      (λ r st'.
        Changed threads-IsThreads 4096 start r st'
        × ((w : World) × (st'.world ≡ threads.signal 4096 w)))
      (cond_var_changed threads (some 4096) start)
    × Ensures
        (λ r st'.
          Changed threads-IsThreads 4096 start r st'
          × ((w : World) × (st'.world ≡ threads.broadcast 4096 w)))
        (cond_var_broadcast threads (some 4096) start)
cond_var_changed-Changed_example = cond_var_changed-Changed threads-IsThreads 4096 start refl

cond_var_timewait-Stuck_example :
    Ensures
      (λ r st'. ((r ≡ pos 0) ⊎ (r ≡ pos 1)) × Stuck threads-IsThreads 4096 st')
      (cond_var_timewait threads (some 4096) (pos 20) start)
cond_var_timewait-Stuck_example = cond_var_timewait-Stuck threads-IsThreads 4096 (pos 20) start refl

start-IsLog : IsLog start.log
unfolding is_distinct mem_manager
start-IsLog = record { slots = refl; distinct = refl; unused = AllCleared-replicate 200 }
