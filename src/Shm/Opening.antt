-- ===== src/Shm/Opening.antt =====
-- How `shm_init` of linux/src/shm.c opens a memory, and what becomes of what it holds.
use Prim.Native.String.{String}
use libjoe.Base.{
  ◌⊎◌, ℕ, ◌≡◌, refl, ◌≢◌, inl, inr, Bool-cases, Bool, true, false, not, Option, none, some, ℤ, pos,
  negsuc, minus_one, eq_ℤ, ==-false, if◌then◌else◌, Ensures,
}
use libjoe.Linklist.Store.{Ptr}
use libjoe.Shm.Functions.{
  Shm, zeroed, State, System, after_shmat, reset, after_shmget, open_memory, open_key, shm_init,
}

-- What a call leaves behind, for the size that is asked for; `created` is whether there was no key file. Either
-- it returns 0, the object has that size, and the memory of the object is 0 if there was no key file, with no
-- other byte touched; or it fails and no byte is touched. The log of mem.c is left alone.
abbrev pub Opened :
    {W : Type 0} → ℕ → (created : Bool) → State W → ℤ × Option Shm → State W → Type 0
Opened size created st (r, o) st' =
    (((r ≡ pos 0)
        × ((s : Shm) × (o ≡ some s)
            × (s.mem_size ≡ size)
            × (st'.bytes ≡ (if created then zeroed st.bytes s.mem size else st.bytes))))
      ⊎ ((r ≢ pos 0) × (st'.bytes ≡ st.bytes)))
    × (st'.log ≡ st.log)

module _ {W : Type 0} (k : System W) where
  after_shmat-Opened :
      (s : Shm) (created : Bool) (o : Option Ptr) (st : State W)
      → Ensures (Opened s.mem_size created st) (after_shmat s created o st)
  unfolding after_shmat
  after_shmat-Opened s created none st = (inr (λ z. cc z, refl), refl)
  after_shmat-Opened s true (some p) st =
      (inl (refl, (record s { mem = p }, refl, refl, refl)), refl)
  after_shmat-Opened s false (some p) st =
      (inl (refl, (record s { mem = p }, refl, refl, refl)), refl)

  after_shmget-Opened :
      (s : Shm) (created : Bool) (id : ℤ) (st : State W)
      → Ensures (Opened s.mem_size created st) (after_shmget k s created id st)
  unfolding after_shmget
  after_shmget-Opened s created (negsuc m) st = (inr (λ z. cc z, refl), refl)
  after_shmget-Opened s created (pos m) st =
      let (o, w) = k.shmat (pos m) st.world in
      after_shmat-Opened (record s { id = pos m }) created o (record st { world = w })

  open_memory-Opened :
      (s : Shm) (created : Bool) (st : State W)
      → Ensures (Opened s.mem_size created st) (open_memory k s created st)
  unfolding open_memory
  open_memory-Opened s created st =
      let (key, w) = k.ftok s.key_path st.world in
      let (id, w1) = k.shmget key s.mem_size created w in
      elim (Bool-cases (eq_ℤ key minus_one)) [
        | inl none_such ↦ rw none_such (inr (λ z. cc z, refl), refl)
        | inr found ↦
            rw found
              (after_shmget-Opened (record s { key = key }) created id (record st { world = w1 }))
      ]

  open_key-Opened :
      (s : Shm) (st : State W)
      → Ensures (Opened s.mem_size (not (k.exists s.key_path st.world).0) st) (open_key k s st)
  unfolding open_key
  open_key-Opened s st =
      let (there, w) = k.exists s.key_path st.world in
      let (error, w1) = k.create s.key_path w in
      elim (Bool-cases there) [
        | inl old ↦ rw old (open_memory-Opened s false (record st { world = w }))
        | inr new ↦ elim (Bool-cases error) [
          | inl bad ↦ rw (new, bad) (inr (λ z. cc z, refl), refl)
          | inr good ↦ rw (new, good) (open_memory-Opened s true (record st { world = w1 }))
        ]
      ]

  -- With an object, a path and a size that is not 0, `shm_init` either returns 0, the object has that size, and
  -- each byte of its memory is 0 if there was no key file, with no other byte touched, or it returns another
  -- number and no byte is touched. The log of mem.c is left alone.
  pub shm_init-Opened :
      (s : Shm) (path : String) (size : ℕ) (st : State W)
      → size ≢ 0
      → Ensures
          (Opened size (not (k.exists (k.path_of path) st.world).0) st)
          (shm_init k (some s) (some path) size st)
  unfolding shm_init
  shm_init-Opened s path size st ne =
      rw (==-false size 0 ne)
        (open_key-Opened (record (reset s) { key_path = k.path_of path; mem_size = size }) st)
