-- ===== src/Timer/Setting.antt =====
-- `tm_to_utc` and `tm_to_sys` of linux/src/timer.c, and `tm_from_sys` after them. `set` is `clock_settime` with
-- CLOCK_REALTIME, true for an error.
use libjoe.Base.{
  ◌≡◌, refl, ap, ◌∙◌, sym, Bool, true, false, Option, none, some, ℤ, pos, negsuc, minus_one, to_int,
  ◌-ℤ◌, ◌+ℤ◌, ◌*ℤ◌, sub_add_cancel, eq_ℤ, if◌then◌else◌, pure, ◌>>=◌, Ensures, ℕ, zero, suc, ◌+◌,
  ◌-◌, ◌*◌, ◌/◌, ◌≤◌, ◌⊎◌, inl, inr, arith, sub_sub, neg_negsuc, sub_lt,
}
use libjoe.Misc.Functions.{System, Cmd, bytes, call, exe_cmd}
use libjoe.Timer.Functions.{Timer, quot, tm_from_sys}

module _ {W : Type 0} (k : System W) (set : Timer → W → Bool × W) where
  unfoldable pub tm_to_utc : Option Timer → Cmd W ℤ
  tm_to_utc none = pure minus_one
  tm_to_utc (some tmr) = do
    error ← call (set tmr)
    if error
        then pure minus_one
        else do res ← exe_cmd k (bytes "hwclock -w -f /dev/rtc1"); pure (pos 0)

  module _ (timezone : ℤ) (daylight : Bool) where
    -- `offset` of `tm_to_sys`, in minutes.
    abbrev pub offset_to : ℤ
    offset_to = to_int (quot (pos 0 -ℤ timezone) 60 +ℤ (if daylight then pos 60 else pos 0))

    -- The timestamp is changed for its owner too.
    unfoldable pub tm_to_sys : Option Timer → Cmd W (ℤ × Option Timer)
    unfolding tm_to_utc
    tm_to_sys none = pure (minus_one, none)
    tm_to_sys (some tmr) = do
      let utc = record tmr { tv_sec = tmr.tv_sec -ℤ to_int (offset_to *ℤ 60) }
      r ← tm_to_utc (some utc)
      pure (if eq_ℤ r (pos 0) then pos 0 else minus_one, some utc)

-- What is relied on of the clock, which `now` tells: it is what it was set to, and the command that writes it to
-- the hardware leaves it alone.
pub record IsClock {W : Type 0} (now : W → Option Timer) (k : System W) (set : Timer → W → Bool × W)
    : Type 0 where
  pub sets : (t : Timer) (w : W) → (set t w).0 ≡ false → now (set t w).1 ≡ some t
  pub keeps : (w : W) → now (k.system (bytes "hwclock -w -f /dev/rtc1") w).1 ≡ now w

-- The time zone is a whole number of minutes, at most a day, west or east of Greenwich.
abbrev pub IsZone : ℤ → Type 0
IsZone timezone =
    (z : ℕ) × (z ≤ 1440) × ((timezone ≡ pos (60 * z)) ⊎ (timezone ≡ negsuc (60 * z + 59)))

-- The seconds of daylight saving.
abbrev pub saving : Bool → ℤ
saving daylight = if daylight then pos 3600 else pos 0

-- `offset` in both functions, as they compute it.
abbrev computed : ℤ → Bool → ℤ
computed timezone daylight =
    to_int (to_int (quot (pos 0 -ℤ timezone) 60 +ℤ (if daylight then pos 60 else pos 0)) *ℤ 60)

west-minutes : (z : ℕ) → quot (pos 0 -ℤ pos (60 * z)) 60 ≡ pos 0 -ℤ pos z
unfolding ◌-ℤ◌
west-minutes zero = ground arith
west-minutes (suc z) =
    let q : suc (60 * suc z - 1) / 60 ≡ suc z = omega arith in
    rw (sub_lt 0 (60 * suc z) (omega arith)) (ground (arith, q))

east-minutes : (z : ℕ) → quot (pos 0 -ℤ negsuc (60 * z + 59)) 60 ≡ pos (z + 1)
east-minutes z = rw (neg_negsuc (60 * z + 59)) (ground arith)

west-saving :
    (z : ℕ) (daylight : Bool)
    → z ≤ 1440
    → computed (pos (60 * z)) daylight ≡ saving daylight -ℤ pos (60 * z)
unfolding ◌-ℤ◌ ◌+ℤ◌ ◌*ℤ◌
west-saving z true h = rw (west-minutes z) (ground arith)
west-saving z false h = rw (west-minutes z) (ground arith)

east-saving :
    (z : ℕ) (daylight : Bool)
    → z ≤ 1440
    → computed (negsuc (60 * z + 59)) daylight ≡ saving daylight -ℤ negsuc (60 * z + 59)
unfolding ◌-ℤ◌ ◌+ℤ◌ ◌*ℤ◌
east-saving z true h = rw (east-minutes z) (ground arith)
east-saving z false h = rw (east-minutes z) (ground arith)

computed-saving :
    (timezone : ℤ) (daylight : Bool)
    → IsZone timezone
    → computed timezone daylight ≡ saving daylight -ℤ timezone
computed-saving timezone daylight (z, h, inl e) = rw e (west-saving z daylight h)
computed-saving timezone daylight (z, h, inr e) = rw e (east-saving z daylight h)

-- The time of a clock that shows UTC at `t`.
abbrev pub utc_of : ℤ → Bool → Timer → Timer
utc_of timezone daylight t = record t { tv_sec = t.tv_sec +ℤ timezone -ℤ saving daylight }

module _ {W : Type 0} {now : W → Option Timer} {k : System W} {set : Timer → W → Bool × W}
    (clock : IsClock now k set) (timezone : ℤ) (daylight : Bool) (zone : IsZone timezone) where
  from_sys :
      (o : Option Timer) (t old : Timer)
      → o ≡ some (utc_of timezone daylight t)
      → tm_from_sys timezone daylight o (some old) ≡ (pos 0, some t)
  unfolding tm_from_sys
  from_sys o t old e =
      let d = saving daylight -ℤ timezone in
      rw (e, computed-saving timezone daylight zone)
        (ap (λ s. (pos 0, some (record t { tv_sec = s })))
          (ap (λ s. s +ℤ d) (sym (sub_sub t.tv_sec (saving daylight) timezone))
            ∙ sub_add_cancel t.tv_sec d))

  to_sys :
      (t : Timer)
      → record t { tv_sec = t.tv_sec -ℤ computed timezone daylight } ≡ utc_of timezone daylight t
  to_sys t =
      rw (computed-saving timezone daylight zone)
        (ap (λ s. record t { tv_sec = s }) (sub_sub t.tv_sec (saving daylight) timezone))

  -- In a time zone of whole minutes, at most a day west or east, if the clock can be set, `tm_to_sys` returns 0
  -- and sets it to the timestamp plus the seconds of `timezone`, less an hour in daylight saving, and
  -- `tm_from_sys` then reads the timestamp that was given, as long as the clock stands still.
  pub tm_from_sys-tm_to_sys :
      (t old : Timer) (w : W)
      → (set (utc_of timezone daylight t) w).0 ≡ false
      → Ensures
          (λ (r, o) w'.
            (r ≡ pos 0)
            × (now w' ≡ some (utc_of timezone daylight t))
            × (tm_from_sys timezone daylight (now w') (some old) ≡ (pos 0, some t)))
          (tm_to_sys k set timezone daylight (some t) w)
  unfolding tm_to_sys exe_cmd
  tm_from_sys-tm_to_sys t old w good =
      let utc = utc_of timezone daylight t in
      let set_to = clock.keeps (set utc w).1 ∙ clock.sets utc w good in
      rw (to_sys t, good) (refl, set_to, from_sys (now _) t old set_to)
