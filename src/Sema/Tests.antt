-- ===== src/Sema/Tests.antt =====
-- The functions of linux/src/sema.c on a concrete system with one semaphore, and the theorems there.
use libjoe.Base.{
  ℕ, zero, suc, ◌≡◌, ◌⊎◌, refl, false, none, List, [], ◌∷◌, ℤ, pos, negsuc, minus_one, Errno,
  unknown, eagain, Answer, got, failed, length,
}
use libjoe.Mem.{mem_manager}
use libjoe.Sema.Functions.{
  Sema, State, System, sema_lock, sema_unlock, semop_loop, sema_init, open_set, init_value,
  after_semget, set_value,
}
use libjoe.Sema.Counting.{IsSemaphore}
use libjoe.Sema.Exclusion.{Steps, lock_step, unlock_step, no_step, and_step, sema_init-exclusion}

abbrev semop : ℤ → ℕ → Answer (Unit {0}) × ℕ
semop (negsuc zero) zero = (failed eagain, 0)
semop (negsuc zero) (suc v) = (got tt, v)
semop (pos (suc zero)) v = (got tt, suc v)
semop _ v = (failed unknown, v)

abbrev value : ℤ → ℕ → ℕ
value id w = w

abbrev nat_part : ℤ → ℕ
nat_part (pos v) = v
nat_part (negsuc v) = 0

abbrev system : System ℕ
system = record {
  semop = λ id op nowait w. semop op w;
  clock = λ w. (none, w);
  usleep = λ w. w;
  exists = λ path w. (false, w);
  create = λ path w. (false, w);
  ftok = λ path w. (pos 9, w);
  semget = λ key create w. (pos 4, w);
  setval = λ id v w. (false, nat_part v);
  path_of = λ s. s;
  malloc = λ st n. 4096;
  stamp = λ s. s;
}

took : (w : ℕ) → (semop minus_one w).0 ≡ got tt → w ≡ suc (semop minus_one w).1
took zero e = cc e
took (suc w) e = refl

refused : (op : ℤ) (w : ℕ) (e : Errno) → (semop op w).0 ≡ failed e → (semop op w).1 ≡ w
refused (negsuc zero) zero e h = refl
refused (negsuc zero) (suc w) e h = cc h
refused (negsuc (suc m)) w e h = refl
refused (pos zero) w e h = refl
refused (pos (suc zero)) w e h = cc h
refused (pos (suc (suc m))) w e h = refl

system-IsSemaphore : IsSemaphore value system
system-IsSemaphore = record {
  took = λ id nowait w e. took w e;
  gave = λ id nowait w e. refl;
  refused = λ id op nowait w e h. refused op w e h;
  clock = λ id w. refl;
  usleep = λ id w. refl;
  set = λ id v w e. refl;
}

abbrev unset : Sema
unset = record { self = 4096; id = pos 0; key = pos 0; key_path = ""; val = pos 0 }

abbrev sema : Sema
sema = record { self = 4096; id = pos 4; key = pos 9; key_path = "key"; val = pos 1 }

abbrev state : ℕ → State ℕ
state v = record { log = mem_manager; world = v }

abbrev locked : Sema
locked = record { self = 4096; id = pos 4; key = pos 9; key_path = "key"; val = pos 0 }

-- 7 locks and unlocks, then 8 locks.
in_turn : Steps system (pos 4) [] 1 (8 ∷ []) 0
unfolding sema_lock sema_unlock semop_loop
in_turn =
    and_step [] 1 (7 ∷ []) 0 (8 ∷ []) 0 (lock_step [] 7 1 sema (state 1) (state 0) refl refl) (
      and_step (7 ∷ []) 0 [] 1 (8 ∷ []) 0 (unlock_step [] 7 [] 1 sema (state 0) (state 1) refl refl)
        (and_step [] 1 (8 ∷ []) 0 (8 ∷ []) 0 (lock_step [] 8 1 sema (state 1) (state 0) refl refl)
          (no_step (8 ∷ []) 0)))

abbrev holders : List ℕ
holders = 8 ∷ []

sema_init-exclusion_example :
    ((length holders ≡ 1) × (value (pos 4) 0 ≡ 0)) ⊎ ((length holders ≡ 0) × (value (pos 4) 0 ≡ 1))
unfolding sema_init open_set init_value after_semget set_value
sema_init-exclusion_example =
    sema_init-exclusion system-IsSemaphore unset sema "key" (state 5) (state 1) holders 0 refl
      in_turn
