-- ===== src/Cond/Leaking.antt =====
-- The memory of a condition variable of linux/src/cond.c.
use libjoe.Base.{◌+◌, ◌<◌, ◌≡◌, refl, ◌≢◌, pos, ==-false, arith, Ensures, and_then}
use libjoe.Mem.{memory_allocate_max_times}
use libjoe.Mem.Live.{used, IsLog}
use libjoe.Mem.Log.{omalloc-live, used-omalloc}
use libjoe.Linklist.Store.{null}
use libjoe.Cond.Functions.{
  State, Threads, cond_var_size, cond_var_new, cond_var_init, cond_var_destroy,
}

module _ {W : Type 0} (k : Threads W) (st : State W) where
  -- With a free slot in the log and a block from `malloc`, an object that is made, set up and destroyed takes
  -- a slot of the log of mem.c, which it does not give back.
  pub cond_var_destroy-used :
      IsLog st.log
      → k.malloc st cond_var_size ≢ 0
      → used st.log < memory_allocate_max_times
      → Ensures
          (λ r st'. (r ≡ pos 0) × (used st'.log ≡ used st.log + 1))
          (and_then
            (cond_var_new k st)
            (λ cond s. and_then (cond_var_init k cond s) (λ r. cond_var_destroy k cond)))
  unfolding cond_var_new cond_var_init cond_var_destroy
  cond_var_destroy-used log ne room =
      let p = k.malloc st cond_var_size in
      rw
        (
          (omalloc-live p k.stamp "condition variable" cond_var_size log ne (omega arith) room).0,
          ==-false p null ne,
        )
        (refl, used-omalloc p k.stamp "condition variable" cond_var_size log ne (omega arith) room)
