-- ===== src/Linklist/Locking.antt =====
-- The mutex of a list object of linux/src/linklist.c: what a method does under it, and what becomes of it.
use libjoe.Base.{
  ℕ, ◌≡◌, ◌≢◌, refl, sym, Bool-cases, inl, inr, Bool, true, false, some, [], ◌∷◌, ◌++◌, pos, ◌==◌,
  length, Run, ok, fault, out_of_fuel, pure, and_then, ◌>>◌, Ensures, Ensures-and_then,
}
use libjoe.Mem.{omalloc}
use libjoe.Linklist.Store.{Ptr, Store, IsLibc, Cmd, node_size}
use libjoe.Linklist.Functions.{Header, list_insert_tail, list_header_length}
use libjoe.Linklist.Rep.{IsList, Leaves}
use libjoe.Linklist.Chain.{Cells}
use libjoe.Linklist.Commands.{HasRoom}
use libjoe.Linklist.Insert.{list_insert_tail-append}
use libjoe.Linklist.Mutex.{
  State, Pthread, MutexClass, resume, omalloc_object, mutex_size, mutex_lock, mutex_unlock,
  mutex_init, mutex_new,
}
use libjoe.Linklist.Objects.{
  Linklist, empty_header, linklist_lock, linklist_unlock, locked, linklist_add_end, linklist_length,
  destroy_mutex, linklist_destroy, init_mutex, linklist_init,
}

-- A mutex that is free can be taken, one that is taken can be freed.
pub record IsMutex {M : Type 0} (held : Ptr → M → Bool) (k : Pthread M) : Type 0 where
  pub locks : (p : Ptr) (st : State M) → held p st.world ≡ false → held p (k.lock p st).1 ≡ true
  pub unlocks : (p : Ptr) (st : State M) → held p st.world ≡ true → held p (k.unlock p st).1 ≡ false

-- What the lock leaves, on the memory before a method.
abbrev locked_world : {M : Type 0} → Pthread M → Ptr → State M → M
locked_world k p st = (k.lock p st).1

-- What the unlock leaves, on the memory after it.
abbrev unlocked_world : {M : Type 0} → Pthread M → Ptr → State M → Store → M
unlocked_world k p st s = (k.unlock p (record { memory = s; world = locked_world k p st })).1

abbrev pub object : Ptr → Header → MutexClass → Linklist
object self hd m = record { self = self; head = hd; mutex = some m }

module _ {M : Type 0} {held : Ptr → M → Bool} {k : Pthread M} (mutex : IsMutex held k) (self : Ptr)
    (hd : Header) (m : MutexClass) where
  unlocked :
      {A : Type 0} (P : A → Store → Type 0) (st : State M) (r : Run Store A)
      → held m.self st.world ≡ true
      → Ensures P r
      → Ensures
          (λ a st'.
            P a st'.memory
            × (held m.self st'.world ≡ false)
            × (st'.world ≡ (k.unlock m.self (record st { memory = st'.memory })).1))
          (and_then (resume st r) (λ a. do linklist_unlock k (some (object self hd m)); pure a))
  unfolding linklist_unlock mutex_unlock
  unlocked P st (ok a s) taken h = (h, mutex.unlocks m.self (record st { memory = s }) taken, refl)
  unlocked P st fault taken h = h
  unlocked P st out_of_fuel taken h = h

  -- A method does what the function on the memory does between a lock and an unlock of its mutex, and the mutex
  -- is free again.
  locked-Ensures :
      {A : Type 0} (P : A → Store → Type 0) (f : Cmd A) (st : State M)
      → held m.self st.world ≡ false
      → Ensures P (f st.memory)
      → Ensures
          (λ a st'.
            P a st'.memory
            × (held m.self st'.world ≡ false)
            × (st'.world ≡ unlocked_world k m.self st st'.memory))
          (locked k (object self hd m) f st)
  unfolding locked linklist_lock mutex_lock
  locked-Ensures P f st free h =
      unlocked P (record st { world = locked_world k m.self st }) (f st.memory)
        (mutex.locks m.self st free) h

  -- On an object whose mutex is free and whose header stands for a list, with a value that is not NULL, a
  -- free slot in the log and memory from `malloc`, `Linklist_AddEnd` puts one node with that value behind
  -- the list, returns the index of that node, and leaves the mutex free. The mutex is locked once, on the
  -- memory before the change, and then unlocked once, on the memory after it.
  pub linklist_add_end-append :
      IsLibc k.libc
      → (xs : Cells) (v : ℕ) (st : State M) → IsList st.memory hd xs
      → v ≢ 0
      → HasRoom k.libc st.memory
      → held m.self st.world ≡ false
      → Ensures
          (λ (r, ll) st'.
            (r ≡ pos (length xs))
            × ((hd' : Header) × (ll ≡ some (object self hd' m))
                × IsList st'.memory hd' (xs ++ (k.libc.malloc st.memory node_size, v) ∷ []))
            × (held m.self st'.world ≡ false)
            × (st'.world ≡ unlocked_world k m.self st st'.memory))
          (linklist_add_end k (some (object self hd m)) v st)
  unfolding linklist_add_end
  linklist_add_end-append libc xs v st is nz room free =
      let ys = xs ++ (k.libc.malloc st.memory node_size, v) ∷ [] in
      let P = Leaves st.memory ys (pos (length xs)) ys in
      Ensures-and_then
        (λ a st'.
          P a st'.memory
          × (held m.self st'.world ≡ false)
          × (st'.world ≡ unlocked_world k m.self st st'.memory))
        _ (locked k (object self hd m) (list_insert_tail k.libc (some hd) v) st) _
        (locked-Ensures P (list_insert_tail k.libc (some hd) v) st free
          (list_insert_tail-append libc xs v is nz room))
        (λ (r, o) st' ((got, (hd', same, list), _), free', calls).
          rw same (got, (hd', refl, list), free', calls))

module _ {M : Type 0} (k : Pthread M) where
  -- An object that `Linklist_Init` has set up cannot be destroyed: with no node in it, `Linklist_Destroy`
  -- calls the pointer `destroy` of its mutex, which is NULL.
  pub linklist_destroy-fault :
      (self : Ptr) (ll : Linklist) (st st' st'' : State M)
      → linklist_init k (some self) st ≡ ok (pos 0, some ll) st'
      → linklist_destroy k (some ll) st'' ≡ fault
  unfolding linklist_init linklist_destroy mutex_new init_mutex mutex_init linklist_length locked
      linklist_lock linklist_unlock mutex_lock mutex_unlock destroy_mutex omalloc_object
      list_header_length
  linklist_destroy-fault self ll st st' st'' run =
      let (p, log') =
        omalloc (k.libc.malloc st.memory mutex_size) k.libc.stamp (some "mutex obj") mutex_size
          st.memory.log in
      elim (Bool-cases (p == 0)) [
        | inl z ↦ cc (rw z at run)
        | inr nz ↦ elim (Bool-cases (k.mutex_init p st.world).0) [
          | inl bad ↦ cc (rw (nz, bad) at run)
          | inr good ↦
              let same : object self empty_header (record { self = p; has_destroy = false }) ≡ ll =
                cc (rw (nz, good) at run) in
              rw (sym same) refl
        ]
      ]
