-- ===== src/Serial/Tests.antt =====
-- The functions of linux/src/serial.c on a port that gives one byte at a time, and the theorem at it.
use libjoe.Base.{
  ℕ, ◌<◌, ◌≤◌, ◌≡◌, refl, true, false, Option, some, List, [], ◌∷◌, ◌++◌, arith, pos, length, suc,
  sym, out_of_fuel, ok, Ensures,
}
use libjoe.Serial.Functions.{Termios, Serial, System, serial_recv, recv_loop}
use libjoe.Serial.Receiving.{IsPort, IsAlive, Received, serial_recv-Received}

abbrev no_flags : Termios
no_flags = record { c_cflag = 0; c_lflag = 0; c_iflag = 0; c_oflag = 0; vmin = 0; vtime = 0 }

abbrev port : Serial
port = record { fd = pos 3; epfd = pos 4; tios = no_flags }

abbrev events : List ℕ → ℕ
events [] = 0
events (b ∷ w) = 1

abbrev one_byte : List ℕ → Option (List ℕ) × List ℕ
one_byte [] = (some [], [])
one_byte (b ∷ w) = (some (b ∷ []), w)

-- The world is what has yet to be read.
abbrev system : System (List ℕ)
system = record {
  write = λ fd bytes w. (pos (length bytes), w);
  read = λ fd n w. one_byte w;
  epoll_wait = λ epfd ms fd w. (pos (events w), pos 3, w);
  open_device = λ dev w. (pos 3, w);
  get_attributes = λ fd t w. (t, w);
  flush = λ fd w. w;
  set_attributes = λ fd t w. w;
  epoll_create = λ w. (pos 4, w);
  epoll_add = λ epfd fd w. (false, w);
  raw = 7346;
  all_but = λ flags. flags;
}

reads :
    (w : List ℕ) (e n : ℕ) (new : List ℕ)
    → pos (events w) ≡ pos (suc e)
    → 0 < n
    → (one_byte w).0 ≡ some new
    → (length new ≤ n) × (w ≡ new ++ (one_byte w).1)
reads [] e n new ready h r = absurd (ground arith)
reads (b ∷ w) e n new ready h r =
    let same : b ∷ [] ≡ new = cc r in rw (sym same) (omega arith, refl)

port-IsPort : IsPort port (λ w. w) system
port-IsPort = record {
  waits = λ ms fd w. refl;
  reads = λ ms fd w e n new ready h r. reads w e n new ready h r;
}

brings :
    (w : List ℕ) (e : ℕ)
    → pos (events w) ≡ pos (suc e)
    → (new : List ℕ) × ((one_byte w).0 ≡ some new) × (0 < length new)
brings [] e ready = absurd (ground arith)
brings (b ∷ w) e ready = (b ∷ [], refl, omega arith)

port-IsAlive : IsAlive port system
port-IsAlive = record {
  answers = λ ms fd w. (events w, refl);
  brings = λ ms fd w e n ready h. brings w e ready;
}

abbrev message : List ℕ
message = 1 ∷ 2 ∷ 3 ∷ []

serial_recv_two : serial_recv system 3 (some port) true 2 message ≡ ok (pos 2, 1 ∷ 2 ∷ []) (3 ∷ [])
unfolding serial_recv recv_loop
serial_recv_two = refl

-- A port that is hung up has events and no bytes.
serial_recv_hung_up :
    serial_recv
      (record system { epoll_wait = λ epfd ms fd w. (pos 1, pos 3, w) })
      9
      (some port)
      true
      2
      []
    ≡ out_of_fuel
unfolding serial_recv recv_loop
serial_recv_hung_up = refl

serial_recv-Received_example :
    Ensures
      (Received port (λ w. w) system 8 message)
      (serial_recv system 9 (some port) true 8 message)
serial_recv-Received_example =
    serial_recv-Received port-IsPort port-IsAlive 8 9 message (omega arith) (omega arith)
      (λ e. absurd (ground (arith, e)))
