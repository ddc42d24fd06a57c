-- ===== src/Timer/Functions.antt =====
-- The functions of linux/src/timer.c on timestamps. What `clock_gettime` gives is an argument, `none`
-- where it fails; `time_t` and `long` have 64 bits, and their overflow, which C leaves undefined, is not
-- modelled.
use libjoe.Base.{
  ℕ, suc, ◌*◌, ◌/◌, ◌%◌, ◌^◌, Bool, true, false, Option, none, some, ℤ, pos, negsuc, minus_one,
  to_int, ◌+ℤ◌, ◌-ℤ◌, ◌*ℤ◌, leb_ℤ, if◌then◌else◌,
}

-- `struct timespec`
pub record Timer : Type 0 where
  pub tv_sec : ℤ
  pub tv_nsec : ℤ

abbrev pub zero_timer : Timer
zero_timer = record { tv_sec = pos 0; tv_nsec = pos 0 }

-- C's `/` and `%` by a positive number, which round towards 0.
abbrev pub quot : ℤ → ℕ → ℤ
quot (pos n) k = pos (n / k)
quot (negsuc n) k = pos 0 -ℤ pos (suc n / k)

abbrev pub rem : ℤ → ℕ → ℤ
rem (pos n) k = pos (n % k)
rem (negsuc n) k = pos 0 -ℤ pos (suc n % k)

abbrev pub is_negative : ℤ → Bool
is_negative (pos n) = false
is_negative (negsuc n) = true

abbrev pub ns_per_sec : ℕ
ns_per_sec = 1000000000

-- `TIMER_MAX_INTERVAL`
abbrev pub timer_max_interval : ℕ
timer_max_interval = 86400000

unfoldable pub tm_add_ns : Option Timer → ℤ → ℤ × Option Timer
tm_add_ns none ns = (minus_one, none)
tm_add_ns (some t) ns =
    let n = t.tv_nsec +ℤ ns in
    if leb_ℤ n (pos ns_per_sec)
    then (pos 0, some (record t { tv_nsec = n }))
    else (pos 0, some record { tv_sec = t.tv_sec +ℤ pos 1; tv_nsec = rem n ns_per_sec })

unfoldable pub tm_intv_ms : (start stop : Timer) → ℤ
tm_intv_ms start stop =
    let d = stop.tv_nsec -ℤ start.tv_nsec in
    if is_negative d
    then to_int (
        to_int ((stop.tv_sec -ℤ start.tv_sec -ℤ pos 1) *ℤ 1000)
        +ℤ quot (d +ℤ pos ns_per_sec) 1000000)
    else to_int (to_int ((stop.tv_sec -ℤ start.tv_sec) *ℤ 1000) +ℤ quot d 1000000)

-- The value of `curr` after `clock_gettime`: still 0 where the call fails.
abbrev pub curr : Option Timer → Timer
curr none = zero_timer
curr (some now) = now

abbrev pub out_of_range : ℤ → ℤ
out_of_range intv =
    if leb_ℤ intv (pos 0)
    then pos 1
    else if leb_ℤ (pos timer_max_interval) intv
    then pos 1
    else pos 0

unfoldable pub tm_is_timeout : (clock : Option Timer) → Timer → ℤ
unfolding tm_intv_ms
tm_is_timeout clock tmr = out_of_range (tm_intv_ms (curr clock) tmr)

unfoldable pub tm_interval : (tm1 tm2 : Timer) → ℤ
unfolding tm_intv_ms
tm_interval tm1 tm2 = tm_intv_ms tm1 tm2

unfoldable pub tm_remaining : (clock : Option Timer) → Timer → ℤ
tm_remaining clock tmr = tm_intv_ms (curr clock) tmr

unfoldable pub tm_stopwatch : (clock : Option Timer) → Timer → ℤ
tm_stopwatch clock tmr = tm_intv_ms tmr (curr clock)

-- `ms` has 32 bits and no sign.
unfoldable pub tm_set_ms : (clock : Option Timer) → Option Timer → (ms : ℕ) → ℤ × Option Timer
tm_set_ms clock none ms = (minus_one, none)
tm_set_ms none (some tmr) ms = (minus_one, some tmr)
tm_set_ms (some now) (some tmr) ms =
    let n = now.tv_nsec +ℤ pos (ms % 1000 * 1000000 % 2 ^ 32) in
    (
      pos 0,
      some record {
        tv_sec = now.tv_sec +ℤ pos (ms / 1000) +ℤ quot n ns_per_sec;
        tv_nsec = rem n ns_per_sec;
      },
    )

-- The clock is CLOCK_REALTIME here. A call that fails leaves the timestamp as it is.
unfoldable pub tm_from_utc : (clock : Option Timer) → Option Timer → ℤ × Option Timer
tm_from_utc clock none = (minus_one, none)
tm_from_utc none (some tmr) = (minus_one, some tmr)
tm_from_utc (some now) (some tmr) = (pos 0, some now)

-- `offset` of `tm_from_sys`, in minutes, for the `timezone` and `daylight` of the C library.
abbrev pub offset : (timezone : ℤ) → (daylight : Bool) → ℤ
offset timezone daylight =
    to_int (quot (pos 0 -ℤ timezone) 60 +ℤ (if daylight then pos 60 else pos 0))

unfoldable pub tm_from_sys :
    (timezone : ℤ) → (daylight : Bool) → (clock : Option Timer) → Option Timer → ℤ × Option Timer
tm_from_sys timezone daylight clock none = (minus_one, none)
tm_from_sys timezone daylight none (some tmr) = (minus_one, some tmr)
tm_from_sys timezone daylight (some now) (some tmr) =
    (pos 0, some (record now { tv_sec = now.tv_sec +ℤ to_int (offset timezone daylight *ℤ 60) }))

-- `curr` is 0 before the call.
unfoldable pub tm_is_exprid :
    (timezone : ℤ) → (daylight : Bool) → (clock : Option Timer) → Timer → ℤ
tm_is_exprid timezone daylight clock tmr =
    out_of_range (tm_intv_ms (curr (tm_from_sys timezone daylight clock (some zero_timer)).1) tmr)
