-- ===== src/Timer/Tests.antt =====
-- The theorems on linux/src/timer.c at concrete times.
use libjoe.Base.{
  Bool, false, true, none, Ensures, ap, sym, ℕ, refl, ok, fault, replicate, [], ◌∷◌, ◌++◌, add_pos,
  ◌-◌, ◌*◌, ◌/◌, ◌≡◌, some, ◌&&◌, leb, ltb, if◌then◌else◌, arith, pos, negsuc, inr,
}
use libjoe.Timer.Functions.{
  tm_from_sys, tm_add_ns, Timer, timer_max_interval, tm_set_ms, tm_is_timeout, zero_timer,
}
use libjoe.Timer.Text.{
  Text, Calendar, tm_to_str, tm_from_str, after_strptime, before_dot, behind_dot, number, is_digit,
  add_fraction, value,
}
use libjoe.Misc.Functions.{System}
use libjoe.Timer.Setting.{tm_to_sys, IsClock, utc_of, tm_from_sys-tm_to_sys}
use libjoe.Timer.RoundTrip.{IsCalendar, tm_from_str-tm_to_str}
use libjoe.Timer.Interval.{at, tm_is_timeout-tm_set_ms}

tm_is_timeout-tm_set_ms_example :
    (t : Timer) × (tm_set_ms (some (at 7 900000000)) (some zero_timer) 1500 ≡ (pos 0, some t))
    × (let left = (1500 * 1000000 - 200000000) / 1000000 in
        tm_is_timeout (some (at 8 100000000)) t
        ≡ (if leb 1 left && ltb left timer_max_interval then pos 0 else pos 1))
tm_is_timeout-tm_set_ms_example =
    tm_is_timeout-tm_set_ms 7 900000000 1500 8 100000000 200000000 zero_timer (omega arith)
      (omega arith) (omega arith) (omega arith) (omega arith)

abbrev midnight : Text
midnight =
    b'2' ∷ b'0' ∷ b'2' ∷ b'6' ∷ b'-' ∷ b'0' ∷ b'1' ∷ b'-' ∷ b'0' ∷ b'1' ∷ b'T' ∷ b'0' ∷ b'0' ∷ b':'
    ∷ b'0' ∷ b'0' ∷ b':' ∷ b'0' ∷ b'0' ∷ []

-- A calendar that knows the first second of 2026.
abbrev calendar : Calendar
calendar = record { strftime = λ s. midnight ++ b'.' ∷ []; strptime = λ str. some (pos 1767225600) }

calendar-IsCalendar : IsCalendar (λ s. s ≡ pos 1767225600) calendar
calendar-IsCalendar = record {
  date = λ s. midnight;
  short = λ s range. refl;
  plain = λ s range. (
    refl,
    (
      refl,
      (
        refl,
        (
          refl,
          (
            refl,
            (
              refl,
              (
                refl,
                (
                  refl,
                  (
                    refl,
                    (
                      refl,
                      (refl, (refl, (refl, (refl, (refl, (refl, (refl, (refl, (refl, tt))))))))),
                    ),
                  ),
                ),
              ),
            ),
          ),
        ),
      ),
    ),
  );
  prints = λ s range. refl;
  reads = λ s rest range. ap some (sym range);
}

abbrev half : ℕ → Timer
half n = record { tv_sec = pos 1767225600; tv_nsec = pos n }

-- The nanoseconds that the timestamp had are added.
stale_nanoseconds :
    tm_from_str calendar (some (midnight ++ b'.' ∷ b'5' ∷ [])) (some (half 70))
    ≡ ok (pos 0) (some (half 75))
unfolding tm_from_str after_strptime before_dot behind_dot number is_digit add_fraction value
    tm_add_ns
stale_nanoseconds = rw (add_pos 70 5) refl

-- A date of 32 bytes or more runs over its buffer.
long_date : tm_from_str calendar (some (replicate 32 b'0')) (some (half 0)) ≡ fault
unfolding tm_from_str after_strptime before_dot behind_dot number add_fraction
long_date = refl

tm_from_str-tm_to_str_example :
    (text : Text) × (tm_to_str calendar (some (half 500000000)) (pos 32) (some [])
      ≡ ok (pos 0) (some text))
    × (tm_from_str calendar (some text) (some record { tv_sec = pos 3; tv_nsec = pos 0 })
        ≡ ok (pos 0) (some (half 500000000)))
tm_from_str-tm_to_str_example =
    tm_from_str-tm_to_str calendar-IsCalendar (pos 1767225600) (pos 3) 500000000 32 [] refl
      (omega arith) (omega arith)

-- A shell that does nothing; the world is the clock.
abbrev shell : System Timer
shell = record {
  popen = λ cmd w. (none, w);
  pclose = λ w. (pos 0, w);
  system = λ cmd w. (pos 0, w);
}

abbrev set_clock : Timer → Timer → Bool × Timer
set_clock t w = (false, t)

shell-IsClock : IsClock some shell set_clock
shell-IsClock = record { sets = λ t w e. refl; keeps = λ w. refl }

-- One hour east of Greenwich, in summer.
tm_from_sys-tm_to_sys_example :
    Ensures
      (λ (r, o) w.
        (r ≡ pos 0)
        × (some w ≡ some (utc_of (negsuc 3599) true (half 7)))
        × (tm_from_sys (negsuc 3599) true (some w) (some zero_timer) ≡ (pos 0, some (half 7))))
      (tm_to_sys shell set_clock (negsuc 3599) true (some (half 7)) zero_timer)
tm_from_sys-tm_to_sys_example =
    tm_from_sys-tm_to_sys shell-IsClock (negsuc 3599) true (59, omega arith, inr refl) (half 7)
      zero_timer zero_timer refl
