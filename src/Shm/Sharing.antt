-- ===== src/Shm/Sharing.antt =====
-- Two calls of `shm_init` of linux/src/shm.c with one path: the second finds the memory that the first has
-- made, and leaves what is written there.
use Prim.Native.String.{String}
use libjoe.Base.{
  ok, ℕ, ◌≡◌, refl, ap, sym, ◌∙◌, ◌≢◌, inl, inr, Bool-cases, Bool, true, false, not, Option, none,
  some, ℤ, pos, negsuc, minus_one, eq_ℤ, ==-false, if◌then◌else◌, Ensures, Ensures-weaken,
}
use libjoe.Linklist.Store.{Ptr}
use libjoe.Shm.Functions.{
  Shm, Bytes, zeroed, State, System, after_shmat, reset, after_shmget, open_memory, open_key,
  shm_init,
}
use libjoe.Shm.Opening.{Opened, shm_init-Opened}

-- What is relied on of files: `access` tells whether a file is there, `open` with `O_CREAT` makes one if it
-- does not fail, and the other calls take none away.
pub record IsFiles {W : Type 0} (present : String → W → Bool) (k : System W) : Type 0 where
  pub tells : (p : String) (w : W) → (k.exists p w).0 ≡ present p w
  pub makes : (p : String) (w : W) → (k.create p w).0 ≡ false → present p (k.create p w).1 ≡ true
  pub exists_keeps : (p : String) (w : W) → present p (k.exists p w).1 ≡ present p w
  pub ftok_keeps : (p q : String) (w : W) → present p (k.ftok q w).1 ≡ present p w
  pub shmget_keeps :
      (p : String) (key : ℤ) (n : ℕ) (b : Bool) (w : W)
      → present p (k.shmget key n b w).1 ≡ present p w
  pub shmat_keeps : (p : String) (id : ℤ) (w : W) → present p (k.shmat id w).1 ≡ present p w

module _ {W : Type 0} {present : String → W → Bool} {k : System W} (files : IsFiles present k)
    (p : String) where
  after_shmat-present :
      (s : Shm) (created : Bool) (o : Option Ptr) (st : State W)
      → present p st.world ≡ true
      → Ensures (λ r st'. present p st'.world ≡ true) (after_shmat s created o st)
  unfolding after_shmat
  after_shmat-present s created none st h = h
  after_shmat-present s true (some q) st h = h
  after_shmat-present s false (some q) st h = h

  after_shmget-present :
      (s : Shm) (created : Bool) (id : ℤ) (st : State W)
      → present p st.world ≡ true
      → Ensures (λ r st'. present p st'.world ≡ true) (after_shmget k s created id st)
  unfolding after_shmget
  after_shmget-present s created (negsuc m) st h = h
  after_shmget-present s created (pos m) st h =
      let (o, w) = k.shmat (pos m) st.world in
      after_shmat-present (record s { id = pos m }) created o (record st { world = w })
        (files.shmat_keeps p (pos m) st.world ∙ h)

  open_memory-present :
      (s : Shm) (created : Bool) (st : State W)
      → present p st.world ≡ true
      → Ensures (λ r st'. present p st'.world ≡ true) (open_memory k s created st)
  unfolding open_memory
  open_memory-present s created st h =
      let (key, w) = k.ftok s.key_path st.world in
      let (id, w1) = k.shmget key s.mem_size created w in
      let h1 = files.ftok_keeps p s.key_path st.world ∙ h in
      elim (Bool-cases (eq_ℤ key minus_one)) [
        | inl none_such ↦ rw none_such h1
        | inr found ↦ rw found (
            after_shmget-present (record s { key = key }) created id (record st { world = w1 })
              (files.shmget_keeps p key s.mem_size created w ∙ h1))
      ]

-- Where there was a key file, no byte is touched.
Opened-old :
    {W : Type 0} (size : ℕ) (created : Bool) (st : State W) (r : ℤ) (o : Option Shm) (st' : State W)
    → created ≡ false
    → Opened size created st (r, o) st'
    → st'.bytes ≡ st.bytes
Opened-old size created st r o st' e (inl (z, (s1, same, len, q)), l) =
    q ∙ ap (λ (c : Bool). if c then zeroed st.bytes s1.mem size else st.bytes) e
Opened-old size created st r o st' e (inr (n, q), l) = q

-- A call that returns 0 leaves a key file.
module _ {W : Type 0} {present : String → W → Bool} {k : System W} (files : IsFiles present k) where
  open_key-present :
      (s : Shm) (st : State W)
      → Ensures (λ (r, o) st'. r ≡ pos 0 → present s.key_path st'.world ≡ true) (open_key k s st)
  unfolding open_key
  open_key-present s st =
      let (there, w) = k.exists s.key_path st.world in
      let (error, w1) = k.create s.key_path w in
      elim (Bool-cases there) [
        | inl old ↦ rw old (
            Ensures-weaken (λ r st'. present s.key_path st'.world ≡ true) _
              (open_memory k s false (record st { world = w }))
              (open_memory-present files s.key_path s false (record st { world = w })
                (files.exists_keeps s.key_path st.world
                  ∙ sym (files.tells s.key_path st.world)
                  ∙ old))
              (λ r st' h z. h))
        | inr new ↦ elim (Bool-cases error) [
          | inl bad ↦ rw (new, bad) (λ z. cc z)
          | inr good ↦
              rw (new, good)
                (Ensures-weaken (λ r st'. present s.key_path st'.world ≡ true) _
                  (open_memory k s true (record st { world = w1 }))
                  (open_memory-present files s.key_path s true (record st { world = w1 })
                    (files.makes s.key_path w good))
                  (λ r st' h z. h))
        ]
      ]

  shm_init-present :
      (s : Shm) (path : String) (size : ℕ) (st : State W)
      → size ≢ 0
      → Ensures
          (λ (r, o) st'. r ≡ pos 0 → present (k.path_of path) st'.world ≡ true)
          (shm_init k (some s) (some path) size st)
  unfolding shm_init
  shm_init-present s path size st ne =
      rw (==-false size 0 ne)
        (open_key-present (record (reset s) { key_path = k.path_of path; mem_size = size }) st)

  -- After a call of `shm_init` that has returned 0, a second call with the same path, on any object and for any
  -- size but 0, leaves every byte as it is then, whatever has been written in between.
  pub shm_init-shm_init :
      (s s' t : Shm) (path : String) (size size' : ℕ) (st st' : State W) (b : Bytes)
      → size ≢ 0
      → size' ≢ 0
      → shm_init k (some s) (some path) size st ≡ ok (pos 0, some s') st'
      → Ensures
          (λ r st''. st''.bytes ≡ b)
          (shm_init k (some t) (some path) size' (record st' { bytes = b }))
  shm_init-shm_init s s' t path size size' st st' b ne ne' run =
      let there : present (k.path_of path) st'.world ≡ true =
        (rw run at (shm_init-present s path size st ne)) refl in
      let old : not (k.exists (k.path_of path) st'.world).0 ≡ false =
        ap not (files.tells (k.path_of path) st'.world ∙ there) in
      Ensures-weaken _ _ (shm_init k (some t) (some path) size' (record st' { bytes = b }))
        (shm_init-Opened k t path size' (record st' { bytes = b }) ne')
        (λ (r, o) st'' h. Opened-old size' _ (record st' { bytes = b }) r o st'' old h)
