-- ===== src/Shm/Functions.antt =====
-- The functions of linux/src/shm.c, statement by statement, as commands over the bytes in memory, the log of
-- mem.c and the world outside. An object is an argument, `none` for a NULL pointer, and its new value is part
-- of the result.
use Prim.Native.String.{String}
use libjoe.Base.{
  ℕ, ◌+◌, Bool, true, false, ◌&&◌, Option, none, some, ℤ, pos, negsuc, minus_one, eq_ℤ, leb, ltb,
  ◌==◌, if◌then◌else◌, Run, ok, pure, ◌>>=◌, ◌>>◌,
}
use libjoe.Mem.{Table, omalloc, ofree}
use libjoe.Linklist.Store.{Ptr, null}

-- The data of `shm_class`, its address, and whether the pointers `init` and `destroy` hold the functions.
pub record Shm : Type 0 where
  pub self : Ptr
  pub has_init : Bool
  pub has_destroy : Bool
  pub id : ℤ
  pub key : ℤ
  pub mem : Ptr
  pub mem_size : ℕ
  pub key_path : String

abbrev pub Bytes : Type 0
Bytes = Ptr → ℕ

-- `memset(p, 0, n)`
unfoldable pub zeroed : Bytes → Ptr → (n : ℕ) → Bytes
zeroed b p n a = if leb p a && ltb a (p + n) then 0 else b a

pub record State (W : Type 0) : Type 0 where
  pub bytes : Bytes
  pub log : Table
  pub world : W

abbrev pub Cmd : Type 0 → Type 0 → Type 0
Cmd W A = State W → Run (State W) A

-- The calls of the operating system and of the C library. `exists`, `create` and `ftok` take the path;
-- `path_of` is what `snprintf` makes of a path; `shmat` is `none` where it returns (void *) -1; true is an
-- error of `create` and of `remove`, which is `shmctl` with `IPC_RMID`.
pub record System (W : Type 0) : Type 0 where
  pub exists : String → W → Bool × W
  pub create : String → W → Bool × W
  pub ftok : String → W → ℤ × W
  pub shmget : (key : ℤ) → (size : ℕ) → (create : Bool) → W → ℤ × W
  pub shmat : (id : ℤ) → W → Option Ptr × W
  pub remove : (id : ℤ) → W → Bool × W
  pub path_of : String → String
  pub malloc : State W → ℕ → Ptr
  pub stamp : String → String

-- sizeof(shm_class), SHM_KEY_PATH_LEN
abbrev pub shm_size : ℕ
shm_size = 168

-- An object that `memset` has cleared.
abbrev pub cleared : Ptr → Shm
cleared p = record {
  self = p;
  has_init = false;
  has_destroy = false;
  id = pos 0;
  key = pos 0;
  mem = null;
  mem_size = 0;
  key_path = "";
}

-- (void *) -1
abbrev pub no_memory : Ptr
no_memory = 18446744073709551615

-- An object of which the pointer `init` is another one is cleared, `destroy` too.
unfoldable pub reset : Shm → Shm
reset shm = if shm.has_init then shm else record (cleared shm.self) { has_init = true }

module _ {W : Type 0} where
  abbrev pub call : {A : Type 0} → (W → A × W) → Cmd W A
  call f st = let (a, w) = f st.world in ok a (record st { world = w })

  abbrev pub set_zero : Ptr → ℕ → Cmd W (Unit {0})
  set_zero p n st = ok tt (record st { bytes = zeroed st.bytes p n })

  -- The memory is cleared if `flag` has `IPC_CREAT`, which is `created`.
  unfoldable pub after_shmat : Shm → (created : Bool) → Option Ptr → Cmd W (ℤ × Option Shm)
  after_shmat shm created none = pure (negsuc 4, some (record shm { mem = no_memory }))
  after_shmat shm true (some p) = do
    set_zero p shm.mem_size
    pure (pos 0, some (record shm { mem = p }))
  after_shmat shm false (some p) = pure (pos 0, some (record shm { mem = p }))

module _ {W : Type 0} (k : System W) where
  unfoldable pub after_shmget : Shm → (created : Bool) → ℤ → Cmd W (ℤ × Option Shm)
  unfolding after_shmat
  after_shmget shm created (negsuc m) = pure (negsuc 3, some (record shm { id = negsuc m }))
  after_shmget shm created (pos m) = do
    mem ← call (k.shmat (pos m))
    after_shmat (record shm { id = pos m }) created mem

  -- `ftok`, `shmget`, `shmat` and the first value of the memory.
  unfoldable pub open_memory : Shm → (created : Bool) → Cmd W (ℤ × Option Shm)
  unfolding after_shmget
  open_memory shm created = do
    key ← call (k.ftok shm.key_path)
    if eq_ℤ key minus_one then pure (negsuc 2, some (record shm { key = key })) else do
      id ← call (k.shmget key shm.mem_size created)
      after_shmget (record shm { key = key }) created id

  -- `access` and `open` of the key file.
  unfoldable pub open_key : Shm → Cmd W (ℤ × Option Shm)
  unfolding open_memory
  open_key shm = do
    there ← call (k.exists shm.key_path)
    if there then open_memory shm false else do
      error ← call (k.create shm.key_path)
      if error then pure (negsuc 1, some shm) else open_memory shm true

  unfoldable pub shm_init : Option Shm → Option String → (size : ℕ) → Cmd W (ℤ × Option Shm)
  unfolding open_key reset
  shm_init none path size = pure (minus_one, none)
  shm_init (some shm) none size = pure (minus_one, some shm)
  shm_init (some shm) (some path) size =
      if size == 0
      then pure (minus_one, some shm)
      else open_key (record (reset shm) { key_path = k.path_of path; mem_size = size })

  abbrev pub free_object : Shm → Cmd W (Unit {0})
  free_object shm st = ok tt (record st { log = (ofree shm.self st.log).1 })

  -- The memory stays attached.
  unfoldable pub shm_destory : Option Shm → Cmd W (ℤ × Option Shm)
  shm_destory none = pure (minus_one, none)
  shm_destory (some shm) = do
    error ← call (k.remove shm.id)
    if error then pure (minus_one, some shm) else (do free_object shm; pure (pos 0, none))

  unfoldable pub shm_new : Cmd W (Option Shm)
  shm_new st =
      let (p, log') = omalloc (k.malloc st shm_size) k.stamp (some "ShareMemory") shm_size st.log in
      ok
        (if p == null
          then none
          else some (record (cleared p) { has_init = true; has_destroy = true }))
        (record st { log = log' })
