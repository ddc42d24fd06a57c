-- ===== src/Lib.antt =====
-- libjoe: a C library of small objects for Linux (linux/) and for an RTOS (rtos/).
--
-- The parts and the files that model them:
--
--   linux/src/mem.c       `Mem`: `omalloc` and `ofree` (functions of the same names) over the table
--                         `mem_manager` of 200 slots. `Mem.Live` and `Mem.Log` hold the proofs.
--   linux/src/linklist.c  `Linklist.Functions`: the list_* functions, by the same names, as commands
--                         over the memory of `Linklist.Store`. Their nodes come from `omalloc` and go
--                         back by `ofree` of `Mem`. `Linklist.Rep.IsList` says when a header stands
--                         for a sequence of nodes; `Insert`, `Remove`, `Index` and `InsertIndex` hold
--                         the proofs, `Link` and `Unlink` those of the statements between.
--                         `Linklist.Headers`: `list_header_init` and `list_header_delete`.
--                         `Linklist.Objects`: the Linklist_* functions, `linklist_add_end` for
--                         `Linklist_AddEnd` and so on; `Locking` holds their proofs.
--   linux/src/mutex.c     `Linklist.Mutex`: the mutex_* functions by the same names.
--
--   rtos/src/memory_manager.c
--                         `MemoryManager.Functions`: `allocate`, `free`, `heap_init`, `static_init`,
--                         `insert_block_into_free_list` and the other functions, without the prefixes
--                         `memory_manager_` and `prv_`, as commands on the headers in memory of
--                         `MemoryManager.Store`. `FreeList` is the list of free blocks without
--                         pointers; `Rep.IsFreeList` and `Free.IsManager` say when a manager and the
--                         memory stand for one. `InsertBlock`, `Insert`, `FirstFit` and `Split` hold
--                         the lemmas on loops and statements, `Rep`, `Free`, `Allocate`, `Init` and
--                         `RoundTrip` the theorems on calls.
--   linux/src/timer.c     `Timer.Functions`: the tm_* functions by the same names, with what the clock
--                         gives as an argument. `Timer.Interval` holds the theorems on intervals.
--                         `Timer.Text`: `tm_to_str` and `tm_from_str`, with `Timer.RoundTrip`.
--                         `Timer.Setting`: `tm_to_utc` and `tm_to_sys`.
--
--   linux/src/msgQ.c      `MsgQ`: `Server`, `Events`, `Client` and `Files` hold the msgQ_* functions, spelled
--                         msg_q_*, `Commands` their reads, writes and waiting loops, as commands over
--                         the memory and the `System` of `MsgQ.System`. `View` is the memory as links,
--                         `Ring` a closed path of links, `Registry.IsRing` a ring that stands for event
--                         clients, `Registered.IsServer` a server with its clients. `Adding`,
--                         `Removing`, `Finding`, `Responding`, `Registering` and `Monitoring` follow a
--                         registration, `Clearing` and `Starting` an initialisation, `Broadcast` an event, `Queue` and
--                         `Exchange` a request and its response. The event clients come from `omalloc`
--                         and go back by `ofree` of `Mem`; time-outs are the functions of `Timer`.
--   linux/src/sema.c      `Sema.Functions`: the sema_* functions by the same names. `Counting` says what a
--                         call does to the value of the semaphore, `Initial` what `sema_init` sets,
--                         `Exclusion` has the steps of processes that share one.
--   linux/src/opt.c       `Opt.Functions`: the opt_* functions by the same names, as commands over the list
--                         that `head` leads to and the log of `Mem`, in `Opt.Store`.
--                         `Opt.Rep.IsRegistry` says when the list stands for a sequence of options. `Appending`, `Registering` and
--                         `Freeing` follow `opt_reg` and `opt_free`; `Serving`, `Running` and `Exact`
--                         hold what `opt_run` calls against `serve`, the calls of a loop without memory;
--                         `Whole` has a registration and a run.
--   linux/src/cond.c      `Cond.Functions`: the cond_var_* functions by the same names. `Locking` says which of
--                         them give the mutex back, `Leaking` what they leave in the log of `Mem`.
--   linux/src/shm.c       `Shm.Functions`: the shm_* functions by the same names. `Opening` says what
--                         `shm_init` does to the memory, `Sharing` what a second call finds.
--   linux/src/serial.c    `Serial.Functions`: the serial_* functions by the same names; `Receiving` says what
--                         `serial_recv` takes from the line.
--   linux/src/misc.c      `Misc.Functions`: `run_cmd`, `exe_cmd` and `epoch2utc`; `Reading` says which lines
--                         `run_cmd` passes on.
--
-- State is passed explicitly: an address is a number, 0 is NULL, a read or write through NULL or
-- through an address that holds no node is the outcome `fault`. A struct that a caller owns (the
-- header of a list) is an argument and part of the result, `none` for a NULL pointer to it.
-- `unsigned int` arithmetic keeps its wrap-around. What the C library does (`malloc`, what its
-- memory holds, `snprintf`) is a parameter, `Linklist.Store.Libc`, with what is relied on in
-- `IsLibc`. So are the calls of the operating system that msgQ.c makes, in `MsgQ.System.System`;
-- what is relied on of msgsnd and msgrcv is `MsgQ.Queue.IsQueue`, of the calls around them
-- `MsgQ.Clearing.IsCounted`. The calls of sema.c are
-- `Sema.Functions.System`, what is relied on of semop and semctl is `Sema.Counting.IsSemaphore`;
-- those of mutex.c are `Linklist.Mutex.Pthread` and `Linklist.Locking.IsMutex`. The calls
-- of opt.c, `getopt_long` and the functions that the options name among them, are
-- `Opt.Store.System`, what is relied on is `Opt.Rep.IsSystem`; the array that `opt_run` gives to
-- `getopt_long` has no entry that marks its end, and a call that reads past it, which is undefined, answers
-- `none`, which is a fault; those of
-- cond.c `Cond.Functions.Threads` and `Cond.Locking.IsThreads`, those of shm.c `Shm.Functions.System` and
-- `Shm.Sharing.IsFiles`; the calendar of timer.c is `Timer.Text.Calendar` and
-- `Timer.RoundTrip.IsCalendar`, its clock `Timer.Setting.IsClock`; those of serial.c are
-- `Serial.Functions.System` and `Serial.Receiving.IsPort`, with `Serial.Receiving.IsAlive` for a port that
-- works, the shell is `Misc.Functions.System`. A message is its
-- type, its xid and its bytes.
--
-- Fuel: each loop over the nodes of a list gets one round more than `node_cnt`, but that of
-- `list_header_delete` gets any number, since it need not end; each loop over the
-- free blocks one more than `buff_size`; the theorems on these functions show that none runs out of
-- it. In `MsgQ` and `Sema` the loops over event clients get one round more than `clt_amt`; the loops
-- that wait for a message or try again get `n`, a parameter: how long they take is up to the system,
-- and the theorems say for which `n` they end, or what holds if they do.
--
-- In `Opt` the loops over the list get `n`, for which any number above that of the options is enough, and
-- the loop over `getopt_long` gets `rounds`, one more than the answers before -1.
--
-- In `Cond` there are no loops: the outcome `out_of_fuel` is a lock or a wait that never returns.
--
-- In `Serial` the loop of `serial_recv` gets `n`, for which any number above the length of the buffer is
-- enough where each event brings a byte; in `Misc` the loop of `run_cmd` gets any number above the bytes of
-- the output.
--
-- In `MemoryManager` a header of 16 bytes is one cell at its address, `size_t` has 64 bits, and the
-- theorems are about 16-byte headers aligned to 8, which is what `memory_manager_static_init` sets.
-- Where the headers of the first block and of the end marker overlap, in a buffer that is too small, `overlap`
-- writes what the one overwrites of the other; the theorems want a buffer of 39 bytes or more.
-- Bytes other than headers are not in the model. The macros configASSERT, traceMALLOC, traceFREE and
-- mtCOVERAGE_TEST_MARKER are empty in the header.
--
-- In `MsgQ` a length is not negative, and every message in a queue has the 8 bytes of its xid.
--
-- Not modelled: rtos/src/list.c and rtos/include/list.h are the list of the FreeRTOS kernel; the
-- test programs; mem_show and the PRINT macros, which print; serial_new, which returns one static object;
-- linux/src/sock.c and linux/include/oson.h, which declare interfaces with no code of their own.
pub mod Base
pub mod Misc
pub mod Serial
pub mod Cond
pub mod Shm
pub mod Sema
pub mod Mem
pub mod Linklist
pub mod MemoryManager
pub mod Timer
pub mod Opt
pub mod MsgQ
