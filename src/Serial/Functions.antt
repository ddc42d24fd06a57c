-- ===== src/Serial/Functions.antt =====
-- The functions of linux/src/serial.c, statement by statement, as commands over the world outside. An object
-- is an argument, `none` for a NULL pointer. `n` bounds the rounds of the loop of `serial_recv`.
use Prim.Native.String.{String}
use libjoe.Base.{
  ℕ, zero, suc, ◌-◌, Bool, true, false, Option, none, some, List, [], ◌++◌, ℤ, pos, negsuc,
  minus_one, ltb, leb, eq_ℤ, if◌then◌else◌, length, Run, ok, fault, out_of_fuel, pure, ◌>>=◌, ◌>>◌,
}

-- The flags of `struct termios` that are set.
pub record Termios : Type 0 where
  pub c_cflag : ℕ
  pub c_lflag : ℕ
  pub c_iflag : ℕ
  pub c_oflag : ℕ
  pub vmin : ℕ
  pub vtime : ℕ

-- The data of `serial_class`
pub record Serial : Type 0 where
  pub fd : ℤ
  pub epfd : ℤ
  pub tios : Termios

abbrev pub Cmd : Type 0 → Type 0 → Type 0
Cmd W A = W → Run W A

-- The calls of the operating system. `epoll_wait` is given the descriptor that `ev` holds, and answers its
-- result and the descriptor that `ev` holds then. `write` returns a number, `read` the bytes that
-- it has stored, `none` for an error. `raw` is B115200 | CS8 | CLOCAL | CREAD, `all_but` what the flags are with
-- each bit set but ICANON and ECHO, which stay as they are.
pub record System (W : Type 0) : Type 0 where
  pub write : (fd : ℤ) → List ℕ → W → ℤ × W
  pub read : (fd : ℤ) → (count : ℕ) → W → Option (List ℕ) × W
  pub epoll_wait : (epfd : ℤ) → (ms : ℕ) → (fd : ℤ) → W → ℤ × ℤ × W
  pub open_device : String → W → ℤ × W
  pub get_attributes : (fd : ℤ) → Termios → W → Termios × W
  pub flush : (fd : ℤ) → W → W
  pub set_attributes : (fd : ℤ) → Termios → W → W
  pub epoll_create : W → ℤ × W
  pub epoll_add : (epfd : ℤ) → (fd : ℤ) → W → Bool × W
  pub raw : ℕ
  pub all_but : ℕ → ℕ

unfoldable pub send_result : ℤ → ℤ
send_result (pos n) = pos n
send_result (negsuc n) = minus_one

module _ {W : Type 0} where
  abbrev pub call : {A : Type 0} → (W → A × W) → Cmd W A
  call f w = let (a, w') = f w in ok a w'

  abbrev pub effect : (W → W) → Cmd W (Unit {0})
  effect f w = ok tt (f w)

module _ {W : Type 0} (k : System W) where
  abbrev pub wait : Serial → (ms : ℕ) → (fd : ℤ) → Cmd W (ℤ × ℤ)
  wait srl ms fd w = let (events, fd', w') = k.epoll_wait srl.epfd ms fd w in ok (events, fd') w'

  unfoldable pub serial_send : Option Serial → Option (List ℕ) → Cmd W ℤ
  unfolding send_result
  serial_send none bytes = pure minus_one
  serial_send (some srl) none = pure minus_one
  serial_send (some srl) (some bytes) = do res ← call (k.write srl.fd bytes); pure (send_result res)

  -- `bytes` is what has been received, at the start of a buffer of `len` bytes; a byte past its end is a fault.
  abbrev pub after_read :
      (len : ℕ) → (List ℕ → Cmd W (ℤ × List ℕ)) → List ℕ → Option (List ℕ) → Cmd W (ℤ × List ℕ)
  after_read len again bytes none = pure (minus_one, bytes)
  after_read len again bytes (some new) =
      let all = bytes ++ new in
      if ltb len (length all)
      then (λ w. fault)
      else if leb len (length all)
      then pure (pos (length all), all)
      else again all

  unfoldable pub recv_loop : ℕ → Serial → (len : ℕ) → (fd : ℤ) → List ℕ → Cmd W (ℤ × List ℕ)
  recv_loop zero srl len fd bytes = λ w. out_of_fuel
  recv_loop (suc n) srl len fd bytes = do
    (events, fd') ← wait srl 2 fd
    if eq_ℤ events (pos 0) then pure (pos (length bytes), bytes) else (do
      new ← call (k.read fd' (len - length bytes))
      after_read len (recv_loop n srl len fd') bytes new)

  -- `has_data` is whether `data` is not NULL. The bytes that were stored are part of the result.
  unfoldable pub serial_recv :
      ℕ → Option Serial → (has_data : Bool) → (len : ℕ) → Cmd W (ℤ × List ℕ)
  serial_recv n none has_data len = pure (minus_one, [])
  serial_recv n (some srl) false len = pure (minus_one, [])
  serial_recv n (some srl) true len = do
    (events, fd) ← wait srl 1000 (pos 0)
    if eq_ℤ events (pos 0) then pure (minus_one, []) else recv_loop n srl len fd []

  -- The object that is set up.
  unfoldable pub after_create : Serial → ℤ → Cmd W (ℤ × Serial)
  after_create srl (negsuc m) = pure (minus_one, record srl { epfd = negsuc m })
  after_create srl (pos m) = do
    error ← call (k.epoll_add (pos m) srl.fd)
    pure (if error then minus_one else pos 0, record srl { epfd = pos m })

  -- The bits of `c_lflag` are set, not cleared.
  unfoldable pub configured : Termios → Termios
  configured t = record {
    c_cflag = k.raw;
    c_lflag = k.all_but t.c_lflag;
    c_iflag = 0;
    c_oflag = 0;
    vmin = 0;
    vtime = 10;
  }

  unfoldable pub after_open : Serial → ℤ → Cmd W (ℤ × Serial)
  unfolding configured after_create
  after_open srl (negsuc m) = pure (minus_one, record srl { fd = negsuc m })
  after_open srl (pos m) = do
    old ← call (k.get_attributes (pos m) srl.tios)
    let tios = configured old
    effect (k.flush (pos m))
    effect (k.set_attributes (pos m) tios)
    epfd ← call k.epoll_create
    after_create (record srl { fd = pos m; tios = tios }) epfd

  unfoldable pub serial_init : Option Serial → Option String → Cmd W (ℤ × Option Serial)
  unfolding after_open
  serial_init none dev = pure (minus_one, none)
  serial_init (some srl) none = pure (minus_one, some srl)
  serial_init (some srl) (some dev) = do
    fd ← call (k.open_device dev)
    (r, srl') ← after_open srl fd
    pure (r, some srl')
