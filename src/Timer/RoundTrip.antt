-- ===== src/Timer/RoundTrip.antt =====
-- Text and back: `tm_from_str` of linux/src/timer.c on what `tm_to_str` prints.
use libjoe.Base.{
  ℕ, zero, suc, ◌+◌, ◌-◌, ◌*◌, ◌/◌, ◌%◌, ◌≤◌, ◌<◌, ◌≡◌, refl, sym, ap, ◌∙◌, true, false, some, [],
  ◌∷◌, ◌++◌, append_assoc, append-nil, arith, ℤ, pos, to_int-pos, ◌==◌, take, length, length-append,
  ok, lt→ltb, add_pos, ◌+ℤ◌, leb_ℤ, eq_ℤ, ◌^◌,
}
use libjoe.Timer.Functions.{ns_per_sec, tm_add_ns}
use libjoe.Timer.Text.{
  Text, Calendar, digits, nanoseconds, tm_to_str, before_dot, behind_dot, is_digit, number, value,
  add_fraction, after_strptime, tm_from_str,
}

abbrev pub HasNoDot : Text → Type 0
HasNoDot [] = Unit {0}
HasNoDot (c ∷ s) = ((c == b'.') ≡ false) × HasNoDot s

abbrev AllDigits : Text → Type 0
AllDigits [] = Unit {0}
AllDigits (c ∷ s) = (is_digit c ≡ true) × AllDigits s

-- What is relied on of dates, for the seconds in a range: a date is printed as 19 bytes without a point and a
-- point, and is read back whatever stands behind it.
pub record IsCalendar (InRange : ℤ → Type 0) (cal : Calendar) : Type 0 where
  pub date : ℤ → Text
  pub short : (s : ℤ) → InRange s → length (date s) ≡ 19
  pub plain : (s : ℤ) → InRange s → HasNoDot (date s)
  pub prints : (s : ℤ) → InRange s → cal.strftime s ≡ date s ++ b'.' ∷ []
  pub reads : (s : ℤ) (rest : Text) → InRange s → cal.strptime (date s ++ b'.' ∷ rest) ≡ some s

length-digits : (k n : ℕ) → length (digits k n) ≡ k
unfolding digits
length-digits zero n = refl
length-digits (suc k) n =
    omega (arith, length-append (digits k (n / 10)) ((48 + n % 10) ∷ []), length-digits k (n / 10))

AllDigits-append : (s t : Text) → AllDigits s → AllDigits t → AllDigits (s ++ t)
AllDigits-append [] t h g = g
AllDigits-append (c ∷ s) t (d, h) g = (d, AllDigits-append s t h g)

digit : (n : ℕ) → is_digit (48 + n % 10) ≡ true
unfolding is_digit
digit n = ground arith

digits-AllDigits : (k n : ℕ) → AllDigits (digits k n)
unfolding digits
digits-AllDigits zero n = tt
digits-AllDigits (suc k) n =
    AllDigits-append (digits k (n / 10)) ((48 + n % 10) ∷ []) (digits-AllDigits k (n / 10))
      (digit n, tt)

-- `n` has at most `k` digits.
abbrev Fits : ℕ → ℕ → Type 0
Fits zero n = n ≡ 0
Fits (suc k) n = Fits k (n / 10)

value-append : (acc : ℕ) (s t : Text) → value acc (s ++ t) ≡ value (value acc s) t
unfolding value
value-append acc [] t = refl
value-append acc (c ∷ s) t = value-append (acc * 10 + (c - 48)) s t

value-digits : (k n : ℕ) → Fits k n → value 0 (digits k n) ≡ n
unfolding digits value
value-digits zero n f = sym f
value-digits (suc k) n f =
    value-append 0 (digits k (n / 10)) ((48 + n % 10) ∷ [])
    ∙ ap (λ v. v * 10 + (48 + n % 10 - 48)) (value-digits k (n / 10) f)
    ∙ omega arith

number-append : (s t : Text) → AllDigits s → number (s ++ t) ≡ s ++ number t
unfolding number
number-append [] t h = refl
number-append (c ∷ s) t (d, h) = rw d (ap (λ r. c ∷ r) (number-append s t h))

take-append : (m : ℕ) (s t : Text) → length s ≤ m → take m (s ++ t) ≡ s ++ take (m - length s) t
take-append m [] t h = ap (λ j. take j t) (omega arith)
take-append zero (c ∷ s) t h = absurd (omega arith)
take-append (suc m) (c ∷ s) t h =
    ap (λ r. c ∷ r) (take-append m s t (omega arith) ∙ ap (λ j. s ++ take j t) (omega arith))

before_dot-append : (s t : Text) → HasNoDot s → before_dot (s ++ b'.' ∷ t) ≡ s
unfolding before_dot
before_dot-append [] t h = refl
before_dot-append (c ∷ s) t (e, h) = rw e (ap (λ r. c ∷ r) (before_dot-append s t h))

behind_dot-append : (s t : Text) → HasNoDot s → behind_dot (s ++ b'.' ∷ t) ≡ t
unfolding behind_dot
behind_dot-append [] t h = refl
behind_dot-append (c ∷ s) t (e, h) = rw e (behind_dot-append s t h)

number-rest : (j : ℕ) → number (take j (b'Z' ∷ [])) ≡ []
unfolding number
number-rest zero = refl
number-rest (suc j) = refl

-- What `snprintf` puts behind the date.
fraction : (n room : ℕ) → Text
fraction n room = digits 9 n ++ take (room - 9) (b'Z' ∷ [])

fraction_lem :
    (n room : ℕ) → n < ns_per_sec → 9 ≤ room → take room (nanoseconds n) ≡ fraction n room
unfolding nanoseconds fraction
fraction_lem n room h r = rw (lt→ltb n 1000000000 h) (
    take-append room (digits 9 n) (b'Z' ∷ []) (omega (arith, length-digits 9 n))
    ∙ ap (λ l. digits 9 n ++ take (room - l) (b'Z' ∷ [])) (length-digits 9 n))

number-fraction : (n room : ℕ) → number (fraction n room) ≡ digits 9 n
unfolding fraction
number-fraction n room =
    number-append (digits 9 n) (take (room - 9) (b'Z' ∷ [])) (digits-AllDigits 9 n)
    ∙ ap (λ r. digits 9 n ++ r) (number-rest (room - 9))
    ∙ append-nil (digits 9 n)

Fits-nine : (n : ℕ) → n < ns_per_sec → Fits 9 n
Fits-nine n h = omega arith

small : (n : ℕ) → n < ns_per_sec → leb_ℤ (pos n) (pos ns_per_sec) ≡ true
small n h = ground arith

tm_add_ns-zero :
    (sec : ℤ) (n : ℕ)
    → n < ns_per_sec
    → tm_add_ns (some record { tv_sec = sec; tv_nsec = pos 0 }) (pos n)
      ≡ (pos 0, some record { tv_sec = sec; tv_nsec = pos n })
unfolding tm_add_ns
tm_add_ns-zero sec n h =
    let e : pos 0 +ℤ pos n ≡ pos n = add_pos 0 n ∙ ap (λ m. pos m) (omega arith) in
    rw (e, small n h) refl

long : (len : ℕ) → 31 ≤ len → (eq_ℤ (pos len) (pos 0) ≡ false) × (leb_ℤ (pos 21) (pos len) ≡ true)
long len h = (ground arith, ground arith)

add_fraction-digits :
    (date : Text) (sec : ℤ) (n : ℕ)
    → length date ≡ 19
    → n < ns_per_sec
    → add_fraction date (digits 9 n) (record { tv_sec = sec; tv_nsec = pos 0 })
      ≡ ok (pos 0) (some record { tv_sec = sec; tv_nsec = pos n })
unfolding add_fraction
add_fraction-digits date sec n d h =
    rw
      (
        d,
        length-digits 9 n,
        value-digits 9 n (Fits-nine n h),
        to_int-pos n (omega arith),
        tm_add_ns-zero sec n h,
      )
      refl

module _ {InRange : ℤ → Type 0} {cal : Calendar} (calendar : IsCalendar InRange cal) where
  printed :
      (sec : ℤ) (n len : ℕ) (old : Text)
      → n < ns_per_sec
      → 31 ≤ len
      → tm_to_str cal (some record { tv_sec = sec; tv_nsec = pos n }) (pos len) (some old)
        ≡ ok (pos 0) (some (cal.strftime sec ++ fraction n (len - 22)))
  unfolding tm_to_str
  printed sec n len old h room =
      let whole : n % 2 ^ 64 ≡ n = omega arith in
      rw ((long len room).0, (long len room).1, whole, fraction_lem n (len - 22) h (omega arith))
        refl

  read :
      (sec before : ℤ) (n room : ℕ) (str : Text) (range : InRange sec)
      → n < ns_per_sec
      → str ≡ calendar.date sec ++ b'.' ∷ fraction n room
      → tm_from_str cal (some str) (some record { tv_sec = before; tv_nsec = pos 0 })
        ≡ ok (pos 0) (some record { tv_sec = sec; tv_nsec = pos n })
  unfolding tm_from_str after_strptime
  read sec before n room str range h e =
      rw
        (
          e,
          calendar.reads sec (fraction n room) range,
          before_dot-append (calendar.date sec) (fraction n room) (calendar.plain sec range),
          behind_dot-append (calendar.date sec) (fraction n room) (calendar.plain sec range),
          number-fraction n room,
        )
        (add_fraction-digits (calendar.date sec) sec n (calendar.short sec range) h)

  -- For seconds in a range whose dates the calendar prints in 19 bytes without a dot and reads back (years of four
  -- digits), the text of a timestamp with less than a second of nanoseconds, in a buffer of 31 bytes or more, is
  -- read back as that timestamp, whatever seconds the timestamp had that is read into, if it had no nanoseconds.
  pub tm_from_str-tm_to_str :
      (sec before : ℤ) (n len : ℕ) (old : Text)
      → InRange sec
      → n < ns_per_sec
      → 31 ≤ len
      → (text : Text) × (tm_to_str cal
            (some record { tv_sec = sec; tv_nsec = pos n })
            (pos len)
            (some old)
          ≡ ok (pos 0) (some text))
        × (tm_from_str cal (some text) (some record { tv_sec = before; tv_nsec = pos 0 })
            ≡ ok (pos 0) (some record { tv_sec = sec; tv_nsec = pos n }))
  tm_from_str-tm_to_str sec before n len old range h room =
      let rest = fraction n (len - 22) in
      let e : cal.strftime sec ++ rest ≡ calendar.date sec ++ b'.' ∷ rest =
        ap (λ d. d ++ rest) (calendar.prints sec range)
        ∙ append_assoc (calendar.date sec) (b'.' ∷ []) rest in
      (
        cal.strftime sec ++ rest,
        printed sec n len old h room,
        read sec before n (len - 22) (cal.strftime sec ++ rest) range h e,
      )
