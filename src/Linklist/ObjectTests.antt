-- ===== src/Linklist/ObjectTests.antt =====
-- List objects of linux/src/linklist.c with a mutex that is a flag, and the theorems about them.
use libjoe.Base.{
  ok, out_of_fuel, ◌≡◌, refl, Bool, true, false, none, some, [], ◌∷◌, ◌++◌, pos, arith, ◌==◌,
  if◌then◌else◌, fault, Ensures,
}
use libjoe.Timer.Functions.{zero_timer}
use libjoe.Linklist.Store.{Ptr, node_size, write}
use libjoe.Linklist.Functions.{Header, header}
use libjoe.Linklist.Rep.{IsList}
use libjoe.Linklist.Mutex.{State, Pthread, MutexClass, omalloc_object, mutex_new, mutex_init}
use libjoe.Linklist.Objects.{
  Linklist, empty_header, linklist_add_end, linklist_destroy, linklist_init, init_mutex,
}
use libjoe.Linklist.Headers.{list_header_delete, list_header_delete-cases}
use libjoe.Linklist.Locking.{IsMutex, object, linklist_add_end-append, linklist_destroy-fault}
use libjoe.Linklist.Tests.{one_block, one_block-IsLibc, three, st3, three-IsList, three-HasRoom}
use libjoe.Mem.{ofree, omalloc, omalloc_loop}
use libjoe.Mem.Live.{is_live}

abbrev Flags : Type 0
Flags = Ptr → Bool

abbrev set_flag : Bool → Ptr → Flags → Flags
set_flag b p w q = if q == p then b else w q

abbrev held : Ptr → Flags → Bool
held p w = w p

abbrev pthread : Pthread Flags
pthread = record {
  libc = one_block;
  mutex_init = λ p w. (false, set_flag false p w);
  lock = λ p st. (st.world p, set_flag true p st.world);
  timedlock = λ p t w. (w p, set_flag true p w);
  unlock = λ p st. (false, set_flag false p st.world);
  clock = λ w. (none, w);
  stack = zero_timer;
}

flag_of : (b : Bool) (p : Ptr) (w : Flags) → set_flag b p w p ≡ b
flag_of b p w = let same : (p == p) ≡ true = ground arith in rw same refl

pthread-IsMutex : IsMutex held pthread
pthread-IsMutex = record {
  locks = λ p st e. flag_of true p st.world;
  unlocks = λ p st e. flag_of false p st.world;
}

abbrev mutex : MutexClass
mutex = record { self = 700; has_destroy = false }

abbrev start : State Flags
start = record { memory = st3; world = λ p. false }

linklist_add_end-append_example :
    Ensures
      (λ (r, ll) st'.
        (r ≡ pos 3)
        × ((hd' : Header) × (ll ≡ some (object 600 hd' mutex))
            × IsList st'.memory hd' (three ++ (one_block.malloc st3 node_size, 9) ∷ []))
        × (st'.world 700 ≡ false)
        × (st'.world ≡ set_flag false 700 (set_flag true 700 start.world)))
      (linklist_add_end pthread (some (object 600 (header 100 300 3) mutex)) 9 start)
linklist_add_end-append_example =
    linklist_add_end-append pthread-IsMutex 600 (header 100 300 3) mutex one_block-IsLibc three 9
      start three-IsList (omega arith) three-HasRoom refl

-- The object at 600 with a mutex at 4096, once `Linklist_Init` is done.
abbrev ready : Linklist
ready = object 600 empty_header (record { self = 4096; has_destroy = false })

abbrev initialised : State Flags
initialised = record {
  memory = record {
    cell = st3.cell;
    log = (omalloc 4096 (λ s. s) (some "mutex obj") 80 st3.log).1;
  };
  world = set_flag false 4096 (λ p. false);
}

linklist_destroy-fault_example : linklist_destroy pthread (some ready) initialised ≡ fault
unfolding linklist_init init_mutex mutex_new mutex_init omalloc_object write is_live omalloc
    omalloc_loop
linklist_destroy-fault_example =
    linklist_destroy-fault pthread 600 ready start initialised initialised refl

list_header_delete-cases_example :
    (list_header_delete 9 (some (some (600, header 0 0 0))) st3 ≡ out_of_fuel)
    × (list_header_delete 10 (some (some (600, header 100 300 3))) st3
        ≡ ok
            (pos 0, some (some (600, header 100 300 3)))
            (record { cell = st3.cell; log = (ofree 600 st3.log).1 }))
list_header_delete-cases_example = list_header_delete-cases 9 600 100 300 0 3 st3 (omega arith)
