-- ===== src/Timer/Text.antt =====
-- `tm_to_str` and `tm_from_str` of linux/src/timer.c. A text is the list of its bytes without the one that
-- ends it. A write past the end of a buffer is a fault.
use libjoe.Base.{
  ℕ, zero, suc, ◌+◌, ◌-◌, ◌*◌, ◌/◌, ◌%◌, ◌^◌, Bool, ◌&&◌, Option, none, some, List, [], ◌∷◌, ◌++◌,
  ℤ, pos, negsuc, minus_one, to_int, eq_ℤ, leb_ℤ, pos_part, ltb, leb, ◌==◌, if◌then◌else◌, take,
  length, Run, ok, fault,
}
use libjoe.Timer.Functions.{Timer, tm_add_ns}

abbrev pub Text : Type 0
Text = List ℕ

-- `gmtime_r` with `strftime` for "%Y-%m-%dT%H:%M:%S.", in a year of four digits, and `strptime` for the same without the point with
-- `timegm`, which is `none` where `strptime` fails.
pub record Calendar : Type 0 where
  pub strftime : (tv_sec : ℤ) → Text
  pub strptime : Text → Option ℤ

-- The last `k` decimal digits.
unfoldable pub digits : (k : ℕ) → ℕ → Text
digits zero n = []
digits (suc k) n = digits k (n / 10) ++ (48 + n % 10) ∷ []

-- The number of digits from `k` on, in `fuel` steps.
unfoldable pub width : (fuel k : ℕ) → ℕ → ℕ
width zero k n = k
width (suc fuel) k n = let more = width fuel (k + 1) n in if ltb n (10 ^ k) then k else more

-- "%09luZ": a number of 64 bits has at most 20 digits.
unfoldable pub nanoseconds : ℕ → Text
unfolding digits width
nanoseconds n = digits (width 11 9 n) n ++ b'Z' ∷ []

-- Conversion of a `long` to `unsigned long`.
abbrev pub to_ulong : ℤ → ℕ
to_ulong (pos n) = n % 2 ^ 64
to_ulong (negsuc n) = 2 ^ 64 - 1 - n % 2 ^ 64

-- `str` is the buffer, of `len` bytes, and what it holds afterwards. `strftime` writes 21 bytes, `snprintf` at
-- most `len - 21` from the last of these on.
unfoldable pub tm_to_str : Calendar → Option Timer → (len : ℤ) → Option Text → Run (Option Text) ℤ
unfolding nanoseconds
tm_to_str cal none len str = ok minus_one str
tm_to_str cal (some tmr) len none = ok minus_one none
tm_to_str cal (some tmr) len (some old) =
    if eq_ℤ len (pos 0)
    then ok minus_one (some old)
    else if leb_ℤ (pos 21) len
    then ok (pos 0) (
        some (
          cal.strftime tmr.tv_sec ++ take (pos_part len - 22) (nanoseconds (to_ulong tmr.tv_nsec))))
    else fault

-- The bytes before the first point, and those behind it, if there is one.
unfoldable pub before_dot : Text → Text
before_dot [] = []
before_dot (c ∷ s) = if c == b'.' then [] else c ∷ before_dot s

unfoldable pub behind_dot : Text → Text
behind_dot [] = []
behind_dot (c ∷ s) = if c == b'.' then s else behind_dot s

unfoldable pub is_digit : ℕ → Bool
is_digit c = leb b'0' c && leb c b'9'

-- The digits at the start.
unfoldable pub number : Text → Text
unfolding is_digit
number [] = []
number (c ∷ s) = if is_digit c then c ∷ number s else []

-- `atoi` of digits.
unfoldable pub value : (acc : ℕ) → Text → ℕ
value acc [] = acc
value acc (c ∷ s) = value (acc * 10 + (c - 48)) s

-- `sscanf(str, "%[^.].%[0-9]", date, nano)` and what is done with its result; `date` and `nano` have 32 bytes.
unfoldable pub add_fraction : Text → Text → Timer → Run (Option Timer) ℤ
unfolding value
add_fraction date nano tmr =
    if ltb 31 (length date)
    then fault
    else if length date == 0
    then ok (pos 0) (some (record tmr { tv_nsec = pos 0 }))
    else if ltb 31 (length nano)
    then fault
    else if length nano == 0
    then ok (pos 0) (some (record tmr { tv_nsec = pos 0 }))
    else ok (pos 0) (tm_add_ns (some tmr) (to_int (pos (value 0 nano)))).1

-- What is done with the result of `strptime`.
unfoldable pub after_strptime : Text → Timer → Option ℤ → Run (Option Timer) ℤ
after_strptime str tmr none = ok minus_one (some tmr)
after_strptime str tmr (some sec) =
    add_fraction (before_dot str) (number (behind_dot str)) (record tmr { tv_sec = sec })

-- The state is the timestamp.
unfoldable pub tm_from_str : Calendar → Option Text → Option Timer → Run (Option Timer) ℤ
tm_from_str cal str none = ok minus_one none
tm_from_str cal none (some tmr) = ok minus_one (some tmr)
tm_from_str cal (some str) (some tmr) = after_strptime str tmr (cal.strptime str)
