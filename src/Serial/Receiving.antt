-- ===== src/Serial/Receiving.antt =====
-- What `serial_recv` of linux/src/serial.c takes from the line.
use libjoe.Base.{
  ℕ, zero, suc, ◌+◌, ◌-◌, ◌≤◌, ◌<◌, ◌≡◌, ◌≢◌, eq_ℤ, eq_ℤ_iff, refl, sym, ap, ◌∙◌, ◌⊎◌, inl, inr,
  true, false, some, List, [], ◌++◌, append_assoc, arith, ℤ, pos, ltb, leb, le→ltb_false,
  Bool-cases, length, length-append, Ensures,
}
use libjoe.Serial.Functions.{Serial, System, recv_loop, serial_recv}

-- What is relied on of the port: `line` are the bytes that have yet to be read. A wait takes none of them, and when
-- it has an event, what `read` stores are the next ones of them, and no more than it is asked for.
pub record IsPort {W : Type 0} (srl : Serial) (line : W → List ℕ) (k : System W) : Type 0 where
  pub waits : (ms : ℕ) (fd : ℤ) (w : W) → line (k.epoll_wait srl.epfd ms fd w).2 ≡ line w
  pub reads :
      (ms : ℕ) (fd : ℤ) (w : W) (events n : ℕ) (new : List ℕ)
      → let (r, fd', w1) = k.epoll_wait srl.epfd ms fd w in
        r ≡ pos (suc events)
        → 0 < n
        → (k.read fd' n w1).0 ≡ some new
        → (length new ≤ n) × (line w1 ≡ new ++ line (k.read fd' n w1).1)

-- The port works as long as the function runs: no wait fails, and after each event `read` has no error and brings
-- at least one byte, as it does where the line is not hung up.
pub record IsAlive {W : Type 0} (srl : Serial) (k : System W) : Type 0 where
  pub answers :
      (ms : ℕ) (fd : ℤ) (w : W) → (events : ℕ) × ((k.epoll_wait srl.epfd ms fd w).0 ≡ pos events)
  pub brings :
      (ms : ℕ) (fd : ℤ) (w : W) (events n : ℕ)
      → let (r, fd', w1) = k.epoll_wait srl.epfd ms fd w in
        r ≡ pos (suc events)
        → 0 < n
        → (new : List ℕ) × ((k.read fd' n w1).0 ≡ some new) × (0 < length new)

-- What is received: the number of the bytes is returned, they are the next ones of the line, at most `len`,
-- and fewer only if the last wait of 2 ms had no event.
abbrev pub Received :
    {W : Type 0} → Serial → (W → List ℕ) → System W → (len : ℕ) → List ℕ → ℤ × List ℕ → W → Type 0
Received {W} srl line k len whole (r, bytes) w' =
    (r ≡ pos (length bytes))
    × (whole ≡ bytes ++ line w')
    × (length bytes ≤ len)
    × ((length bytes ≡ len)
        ⊎ ((fd : ℤ) × (w : W) × ((k.epoll_wait srl.epfd 2 fd w).0 ≡ pos 0)
            × ((k.epoll_wait srl.epfd 2 fd w).2 ≡ w')))

module _ {W : Type 0} {srl : Serial} {line : W → List ℕ} {k : System W} (port : IsPort srl line k)
    (alive : IsAlive srl k) where
  -- A wait has no event, or a read after it brings some bytes.
  wait-cases :
      (ms : ℕ) (fd : ℤ) (w : W) (n : ℕ)
      → 0 < n
      → let (r, fd', w1) = k.epoll_wait srl.epfd ms fd w in
        (r ≡ pos 0)
        ⊎ ((eq_ℤ r (pos 0) ≡ false)
            × ((new : List ℕ) × (w2 : W) × (k.read fd' n w1 ≡ (some new, w2))
                × (0 < length new)
                × (length new ≤ n)
                × (line w1 ≡ new ++ line w2)))
  wait-cases ms fd w n pos_n = from (alive.answers ms fd w)
    where
      from :
          (events : ℕ) × ((k.epoll_wait srl.epfd ms fd w).0 ≡ pos events)
          → let (r, fd', w1) = k.epoll_wait srl.epfd ms fd w in
            (r ≡ pos 0)
            ⊎ ((eq_ℤ r (pos 0) ≡ false)
                × ((new : List ℕ) × (w2 : W) × (k.read fd' n w1 ≡ (some new, w2))
                    × (0 < length new)
                    × (length new ≤ n)
                    × (line w1 ≡ new ++ line w2)))
      from (zero, e) = inl e
      from (suc events, e) =
          let (r, fd', w1) = k.epoll_wait srl.epfd ms fd w in
          let (new, brought, some_byte) = alive.brings ms fd w events n e pos_n in
          let (few, next) = port.reads ms fd w events n new e pos_n brought in
          inr (
            rw e (ground arith),
            (
              new,
              (k.read fd' n w1).1,
              ap (λ a. (a, (k.read fd' n w1).1)) brought,
              some_byte,
              few,
              next,
            ),
          )

  module _ (len : ℕ) where
    recv_loop-Received :
        (n : ℕ) (fd : ℤ) (bytes whole : List ℕ) (w : W)
        → length bytes < len
        → len - length bytes < n
        → whole ≡ bytes ++ line w
        → Ensures (Received srl line k len whole) (recv_loop k n srl len fd bytes w)
    unfolding recv_loop
    recv_loop-Received zero fd bytes whole w lt fuel e = absurd (omega arith)
    recv_loop-Received (suc n) fd bytes whole w lt fuel e =
        let (events, fd', w1) = k.epoll_wait srl.epfd 2 fd w in
        elim (wait-cases 2 fd w (len - length bytes) (omega arith)) [
          | inl quiet ↦
              let none_left : eq_ℤ events (pos 0) ≡ true = (eq_ℤ_iff events (pos 0)).1 quiet in
              rw none_left (
                refl,
                e ∙ ap (λ l. bytes ++ l) (sym (port.waits 2 fd w)),
                omega arith,
                inr (fd, w, quiet, refl),
              )
          | inr (ready, (new, w2, run, ge, le, next)) ↦
              let all = bytes ++ new in
              let size : length all ≡ length bytes + length new = length-append bytes new in
              let same : whole ≡ all ++ line w2 =
                e
                ∙ ap (λ l. bytes ++ l) (sym (port.waits 2 fd w) ∙ next)
                ∙ sym (append_assoc bytes new (line w2)) in
              let fits : ltb len (length all) ≡ false =
                le→ltb_false len (length all) (omega arith) in
              elim (Bool-cases (leb len (length all))) [
                | inl full ↦
                    rw (ready, run, fits, full) (refl, same, omega arith, inl (ground arith))
                | inr more ↦
                    rw (ready, run, fits, more)
                      (recv_loop-Received n fd' all whole w2 (ground arith) (omega arith) same)
              ]
        ]

    -- If the first wait has an event, the port works as long as the function runs (no wait fails, no read has
    -- an error, and each event brings at least one byte), and with a buffer of at least one byte and more
    -- rounds than bytes, `serial_recv` returns the number of the bytes it has stored: the next ones of the
    -- line, at most as many as the buffer has, fewer only if the last wait of 2 ms had no event.
    pub serial_recv-Received :
        (n : ℕ) (w : W)
        → 0 < len
        → len < n
        → (k.epoll_wait srl.epfd 1000 (pos 0) w).0 ≢ pos 0
        → Ensures (Received srl line k len (line w)) (serial_recv k n (some srl) true len w)
    unfolding serial_recv
    serial_recv-Received n w pos_len fuel ready =
        let (events, fd, w1) = k.epoll_wait srl.epfd 1000 (pos 0) w in
        elim (Bool-cases (eq_ℤ events (pos 0))) [
          | inl quiet ↦ absurd (ready ((eq_ℤ_iff events (pos 0)).0 quiet))
          | inr some_event ↦ rw some_event (
              recv_loop-Received n fd [] (line w) w1 (omega arith) (omega arith)
                (sym (port.waits 1000 (pos 0) w)))
        ]
