-- ===== src/Sema/Initial.antt =====
-- How `sema_init` of linux/src/sema.c sets a semaphore up.
use Prim.Native.String.{String}
use libjoe.Base.{
  ok, ℕ, ◌≡◌, refl, ap, ◌∙◌, inl, inr, Bool-cases, Bool, true, false, not, Option, none, some, ℤ,
  pos, negsuc, minus_one, eq_ℤ, if◌then◌else◌, Safe,
}
use libjoe.Sema.Functions.{
  InitState, force_lock, force_unlock, excep_lock, excep_unlock, init_amount, Sema, State, System,
  set_value, init_value, after_semget, open_set, sema_init,
}
use libjoe.Sema.Counting.{IsSemaphore}

-- The value that `sema_init` sets, if it sets one; `created` is whether there was no key file before.
abbrev pub initial : InitState → (created : Bool) → Option ℕ
initial force_lock created = some 0
initial force_unlock created = some 1
initial excep_lock created = if created then some 0 else none
initial excep_unlock created = if created then some 1 else none
initial init_amount created = none

-- A call that returns 0 leaves a semaphore of the value `o`, where that is one.
abbrev pub HasValue : {W : Type 0} → (ℤ → W → ℕ) → Option ℕ → ℤ × Option Sema → State W → Type 0
HasValue value o (r, s) st' =
    r ≡ pos 0
    → (v : ℕ) → o ≡ some v
    → (s' : Sema) × (s ≡ some s') × (value s'.id st'.world ≡ v) × (s'.val ≡ pos v)

module _ {W : Type 0} {value : ℤ → W → ℕ} {k : System W} (sem : IsSemaphore value k) where
  set_value-HasValue :
      (s : Sema) (v : ℕ) (st : State W) → Safe (HasValue value (some v)) (set_value k s (pos v) st)
  unfolding set_value
  set_value-HasValue s v st = elim (Bool-cases (k.setval s.id (pos v) st.world).0) [
    | inl error ↦ rw error (λ z. cc z)
    | inr done ↦ rw done (λ z u e.
        let same : v ≡ u = cc e in
        (record s { val = pos v }, refl, sem.set s.id v st.world done ∙ same, ap pos same))
  ]

  init_value-HasValue :
      (s : Sema) (created : Bool) (i : InitState) (st : State W)
      → Safe (HasValue value (initial i created)) (init_value k s created i st)
  unfolding init_value
  init_value-HasValue s created force_lock st = set_value-HasValue s 0 st
  init_value-HasValue s created force_unlock st = set_value-HasValue s 1 st
  init_value-HasValue s true excep_lock st = set_value-HasValue s 0 st
  init_value-HasValue s false excep_lock st = λ z u e. cc e
  init_value-HasValue s true excep_unlock st = set_value-HasValue s 1 st
  init_value-HasValue s false excep_unlock st = λ z u e. cc e
  init_value-HasValue s created init_amount st = λ z u e. cc e

  after_semget-HasValue :
      (s : Sema) (created : Bool) (i : InitState) (key id : ℤ) (st : State W)
      → Safe
          (HasValue value (initial i created))
          (after_semget k (record s { key = key; id = id }) created i st)
  unfolding after_semget
  after_semget-HasValue s created i key (pos m) st =
      init_value-HasValue (record s { key = key; id = pos m }) created i st
  after_semget-HasValue s created i key (negsuc m) st = λ z. cc z

  open_set-HasValue :
      (s : Sema) (created : Bool) (i : InitState) (st : State W)
      → Safe (HasValue value (initial i created)) (open_set k s created i st)
  unfolding open_set
  open_set-HasValue s created i st =
      let (key, w) = k.ftok s.key_path st.world in
      let (id, w1) = k.semget key created w in
      elim (Bool-cases (eq_ℤ key minus_one)) [
        | inl none_such ↦ rw none_such (λ z. cc z)
        | inr found ↦ rw found (after_semget-HasValue s created i key id (record st { world = w1 }))
      ]

  pub sema_init-HasValue :
      (s : Sema) (path : String) (i : InitState) (st : State W)
      → Safe
          (HasValue value (initial i (not (k.exists (k.path_of path) st.world).0)))
          (sema_init k (some s) (some path) i st)
  unfolding sema_init
  sema_init-HasValue s path i st =
      let s' = record s { key_path = k.path_of path } in
      let (there, w) = k.exists (k.path_of path) st.world in
      let (error, w1) = k.create (k.path_of path) w in
      elim (Bool-cases there) [
        | inl old ↦ rw old (open_set-HasValue s' false i (record st { world = w }))
        | inr new ↦ elim (Bool-cases error) [
          | inl bad ↦ rw (new, bad) (λ z. cc z)
          | inr good ↦ rw (new, good) (open_set-HasValue s' true i (record st { world = w1 }))
        ]
      ]

  -- If `sema_init` returns 0, the semaphore has the value that the state asks for: 0 or 1 for the two FORCE
  -- states, and also for the two EXCEP states where there was no key file before; `arg` keeps that value.
  pub sema_init-initial :
      (s s' : Sema) (path : String) (i : InitState) (st st' : State W) (v : ℕ)
      → sema_init k (some s) (some path) i st ≡ ok (pos 0, some s') st'
      → initial i (not (k.exists (k.path_of path) st.world).0) ≡ some v
      → (value s'.id st'.world ≡ v) × (s'.val ≡ pos v)
  sema_init-initial s s' path i st st' v run e =
      let all = rw run at (sema_init-HasValue s path i st) in
      let (s1, same, held, val) = all refl v e in
      let here : s' ≡ s1 = cc same in rw here (held, val)
