-- ===== src/Linklist/Objects.antt =====
-- The Linklist_* functions of linux/src/linklist.c: a list with a mutex around it. An object is an argument,
-- `none` for a NULL pointer, and its new value is part of the result.
use libjoe.Base.{
  ℕ, Option, none, some, ℤ, pos, minus_one, to_unsigned, eq_ℤ, ◌==◌, if◌then◌else◌, fault, pure,
  ◌>>=◌, ◌>>◌,
}
use libjoe.Linklist.Store.{Ptr, null, Cmd}
use libjoe.Linklist.Functions.{
  Header, header, list_insert_tail, list_insert_first, list_insert_index, list_get_tail,
  list_get_first, list_get_index, list_remove_tail, list_remove_first, list_remove_index,
  list_header_length,
}
use libjoe.Linklist.Mutex.{
  Command, Pthread, MutexClass, on_memory, omalloc_object, ofree_object, mutex_lock, mutex_unlock,
  mutex_init, mutex_new, mutex_destroy,
}

-- `linklist`: its address and its data.
pub record Linklist : Type 0 where
  pub self : Ptr
  pub head : Header
  pub mutex : Option MutexClass

abbrev pub with_head : Linklist → ℤ × Option Header → ℤ × Option Linklist
with_head ll (r, none) = (r, some ll)
with_head ll (r, some hd) = (r, some (record ll { head = hd }))

abbrev pub empty_header : Header
empty_header = header null null 0

-- sizeof(linklist)
abbrev pub linklist_size : ℕ
linklist_size = 144

module _ {M : Type 0} (k : Pthread M) where
  unfoldable pub linklist_lock : Option Linklist → Command M ℤ
  linklist_lock none = pure minus_one
  linklist_lock (some ll) = elim ll.mutex [ none ↦ (λ st. fault) | some m ↦ mutex_lock k (some m) ]

  unfoldable pub linklist_unlock : Option Linklist → Command M ℤ
  linklist_unlock none = pure minus_one
  linklist_unlock (some ll) = elim ll.mutex [
    | none ↦ (λ st. fault)
    | some m ↦ mutex_unlock k (some m)
  ]

  -- `ll->lock(ll); ret = ...; ll->unlock(ll);`
  unfoldable pub locked : {A : Type 0} → Linklist → Cmd A → Command M A
  unfolding linklist_lock linklist_unlock
  locked ll m = do linklist_lock (some ll); a ← on_memory m; linklist_unlock (some ll); pure a

  unfoldable pub linklist_add_first : Option Linklist → (node : ℕ) → Command M (ℤ × Option Linklist)
  linklist_add_first none node = pure (minus_one, none)
  linklist_add_first (some ll) node = do
    r ← locked ll (list_insert_first k.libc (some ll.head) node)
    pure (with_head ll r)

  unfoldable pub linklist_add_end : Option Linklist → (node : ℕ) → Command M (ℤ × Option Linklist)
  linklist_add_end none node = pure (minus_one, none)
  linklist_add_end (some ll) node = do
    r ← locked ll (list_insert_tail k.libc (some ll.head) node)
    pure (with_head ll r)

  unfoldable pub linklist_add_middle :
      Option Linklist → (idx : ℤ) → (node : ℕ) → Command M (ℤ × Option Linklist)
  linklist_add_middle none idx node = pure (minus_one, none)
  linklist_add_middle (some ll) idx node = do
    r ← locked ll (list_insert_index k.libc (some ll.head) node (to_unsigned idx))
    pure (with_head ll r)

  unfoldable pub linklist_get_first : Option Linklist → Command M ℕ
  linklist_get_first none = pure 0
  linklist_get_first (some ll) = locked ll (list_get_first (some ll.head))

  unfoldable pub linklist_get_end : Option Linklist → Command M ℕ
  linklist_get_end none = pure 0
  linklist_get_end (some ll) = locked ll (list_get_tail (some ll.head))

  unfoldable pub linklist_get_middle : Option Linklist → (idx : ℤ) → Command M ℕ
  linklist_get_middle none idx = pure 0
  linklist_get_middle (some ll) idx = locked ll (list_get_index (some ll.head) (to_unsigned idx))

  unfoldable pub linklist_length : Option Linklist → Command M ℤ
  linklist_length none = pure minus_one
  linklist_length (some ll) = locked ll (pure (list_header_length (some ll.head)))

  unfoldable pub destroy_mutex : Option MutexClass → Command M ℤ
  destroy_mutex none = pure (pos 0)
  destroy_mutex (some m) = if m.has_destroy then mutex_destroy (some m) else λ st. fault

  unfoldable pub linklist_destroy : Option Linklist → Command M (ℤ × Option Linklist)
  unfolding linklist_length destroy_mutex
  linklist_destroy none = pure (minus_one, none)
  linklist_destroy (some ll) = do
    len ← linklist_length (some ll)
    if eq_ℤ len (pos 0)
        then (do destroy_mutex ll.mutex; ofree_object ll.self; pure (pos 0, none))
        else pure (minus_one, some ll)

  unfoldable pub init_mutex : (self : Ptr) → Option MutexClass → Command M (ℤ × Option Linklist)
  init_mutex self none =
      pure (minus_one, some record { self = self; head = empty_header; mutex = none })
  init_mutex self (some m) = do
    r ← mutex_init k (some m)
    pure (r, some record { self = self; head = empty_header; mutex = some m })

  -- The object at an address gets its data, whatever it held before.
  unfoldable pub linklist_init : (self : Option Ptr) → Command M (ℤ × Option Linklist)
  unfolding init_mutex
  linklist_init none = pure (minus_one, none)
  linklist_init (some self) = do m ← mutex_new k; init_mutex self m

  -- The data of the new object is not set.
  unfoldable pub linklist_new : Command M (Option Ptr)
  linklist_new = do
    p ← omalloc_object k "link list obj" linklist_size
    pure (if p == 0 then none else some p)

module _ {M : Type 0} where
  -- These take no lock.
  unfoldable pub linklist_remove_first : Option Linklist → Command M (ℤ × Option Linklist)
  linklist_remove_first none = pure (minus_one, none)
  linklist_remove_first (some ll) = do
    r ← on_memory (list_remove_first (some ll.head))
    pure (with_head ll r)

  unfoldable pub linklist_remove_end : Option Linklist → Command M (ℤ × Option Linklist)
  linklist_remove_end none = pure (minus_one, none)
  linklist_remove_end (some ll) = do
    r ← on_memory (list_remove_tail (some ll.head))
    pure (with_head ll r)

  unfoldable pub linklist_remove_middle :
      Option Linklist → (idx : ℤ) → Command M (ℤ × Option Linklist)
  linklist_remove_middle none idx = pure (minus_one, none)
  linklist_remove_middle (some ll) idx = do
    r ← on_memory (list_remove_index (some ll.head) (to_unsigned idx))
    pure (with_head ll r)
