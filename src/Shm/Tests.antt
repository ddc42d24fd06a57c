-- ===== src/Shm/Tests.antt =====
-- The functions of linux/src/shm.c where one key file can be made, and the theorems there.
use libjoe.Base.{◌≡◌, refl, Bool, true, false, some, pos, arith, ok, Ensures}
use libjoe.Mem.{mem_manager}
use libjoe.Shm.Functions.{Shm, Bytes, cleared, zeroed, State, System, shm_init}
use libjoe.Shm.Opening.{Opened, shm_init-Opened}
use libjoe.Shm.Sharing.{IsFiles, shm_init-shm_init}

-- The world is whether the key file is there. The memory is attached at 8192.
abbrev system : System Bool
system = record {
  exists = λ p w. (w, w);
  create = λ p w. (false, true);
  ftok = λ p w. (pos 77, w);
  shmget = λ key n b w. (pos 5, w);
  shmat = λ id w. (some 8192, w);
  remove = λ id w. (false, w);
  path_of = λ s. s;
  malloc = λ st n. 4096;
  stamp = λ s. s;
}

system-IsFiles : IsFiles (λ p w. w) system
system-IsFiles = record {
  tells = λ p w. refl;
  makes = λ p w e. refl;
  exists_keeps = λ p w. refl;
  ftok_keeps = λ p q w. refl;
  shmget_keeps = λ p key n b w. refl;
  shmat_keeps = λ p id w. refl;
}

abbrev object : Shm
object = record (cleared 4096) { has_init = true; has_destroy = true }

abbrev opened : Shm
opened = record object {
  id = pos 5;
  key = pos 77;
  mem = 8192;
  mem_size = 16;
  key_path = "/tmp/key";
}

abbrev start : State Bool
start = record { bytes = λ p. 255; log = mem_manager; world = false }

abbrev after : State Bool
after = record start { bytes = zeroed (λ p. 255) 8192 16; world = true }

abbrev written : Bytes
written p = 9

first_run : shm_init system (some object) (some "/tmp/key") 16 start ≡ ok (pos 0, some opened) after
unfolding shm_init
first_run = refl

shm_init-Opened_example :
    Ensures (Opened 16 true start) (shm_init system (some object) (some "/tmp/key") 16 start)
shm_init-Opened_example = shm_init-Opened system object "/tmp/key" 16 start (omega arith)

shm_init-shm_init_example :
    Ensures
      (λ r st. st.bytes ≡ written)
      (shm_init system (some object) (some "/tmp/key") 8 (record after { bytes = written }))
shm_init-shm_init_example =
    shm_init-shm_init system-IsFiles object opened object "/tmp/key" 16 8 start after written
      (omega arith) (omega arith) first_run
