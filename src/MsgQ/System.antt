-- ===== src/MsgQ/System.antt =====
-- What linux/src/msgQ.c runs on: the packages, the memory with the nodes of the event clients, and the
-- calls of the operating system and of the C library, which are a parameter.
use Prim.Native.String.{String}
pub use libjoe.Base.{
  Errno, eintr, eagain, enoent, enomsg, eidrm, e2big, unknown, Answer, got, failed,
}
use libjoe.Base.{ℕ, ◌-◌, ◌≡◌, ◌≢◌, false, Bool, Option, none, List, ℤ, ◌==◌, if◌then◌else◌, Run}
use libjoe.Mem.{Table}
use libjoe.Mem.Live.{is_live}
use libjoe.Timer.Functions.{Timer}

abbrev pub Ptr : Type 0
Ptr = ℕ

abbrev pub null : Ptr
null = 0

-- The macros of msgQ.h
abbrev pub message_queue_max_size : ℕ
message_queue_max_size = 2048 - 8

abbrev pub message_queue_max_client : ℕ
message_queue_max_client = 10

-- `msgQ_pkg`, with the bytes of `data` that are sent. In a queue they stand behind the 8 bytes of
-- `xid`.
pub record Package : Type 0 where
  pub msgid : ℤ
  pub xid : ℤ
  pub bytes : List ℕ

abbrev pub pkg : ℤ → ℤ → List ℕ → Package
pkg m x b = record { msgid = m; xid = x; bytes = b }

-- sizeof(pkg.xid)
abbrev pub xid_size : ℕ
xid_size = 8

-- `msgQ_eve_clt`
pub record EveClt : Type 0 where
  pub qid : ℤ
  pub timer : Timer
  pub prev : Ptr
  pub next : Ptr

abbrev pub Cell : Type 0
Cell = Ptr → Option EveClt

unfoldable pub write : Cell → Ptr → Option EveClt → Cell
write c p o a = if a == p then o else c a

-- The memory of the process, the log of mem.c, the static `tout_cnt` of `msgQ_clt_monitorevent`, and
-- all the rest: queues, files, the clock.
pub record State (W : Type 0) : Type 0 where
  pub cell : Cell
  pub log : Table
  pub tout_cnt : ℤ
  pub world : W

-- A process of process number `pid`. A message type and `IPC_NOWAIT` are arguments of the calls;
-- `msg_qnum` is the field that `msgctl` with `IPC_STAT` reports, `remove` is `msgctl` with `IPC_RMID`.
-- The path is part of `exists`, `create` and `ftok`, which take the name of the file; `event_name` is what
-- `snprintf` makes of a key. A handler gets the bytes that were sent, behind which `data` is 0.
pub record System (W : Type 0) : Type 0 where
  pub pid : ℤ
  pub msgsnd : (qid : ℤ) → Package → (nowait : Bool) → W → Answer (Unit {0}) × W
  pub msgrcv : (qid : ℤ) → (size : ℕ) → (msgtyp : ℤ) → (nowait : Bool) → W → Answer Package × W
  pub msg_qnum : (qid : ℤ) → W → Answer ℤ × W
  pub remove : (qid : ℤ) → W → Answer (Unit {0}) × W
  pub clock : W → Option Timer × W
  pub usleep : W → W
  pub hand : Ptr → List ℕ → W → ℤ × W
  pub stat : W → Bool × W
  pub mkdir : W → Bool × W
  pub exists : String → W → Bool × W
  pub create : String → W → Bool × W
  pub ftok : String → W → ℤ × W
  pub msgget : (key : ℤ) → (create : Bool) → W → Answer ℤ × W
  pub malloc : State W → ℕ → Ptr
  pub stamp : String → String
  pub event_name : String → String

-- `malloc` returns NULL or a block that is not in use.
pub record IsLibc {W : Type 0} (k : System W) : Type 0 where
  pub fresh_cell : (st : State W) (n : ℕ) → k.malloc st n ≢ 0 → st.cell (k.malloc st n) ≡ none
  pub fresh_log :
      (st : State W) (n : ℕ) → k.malloc st n ≢ 0 → is_live (k.malloc st n) st.log ≡ false

abbrev pub Cmd : Type 0 → Type 0 → Type 0
Cmd W A = State W → Run (State W) A
