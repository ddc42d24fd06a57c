-- ===== src/Timer/Interval.antt =====
-- Intervals and time-outs of linux/src/timer.c in nanoseconds since the start of the clock.
use libjoe.Base.{
  ℕ, suc, ◌+◌, ◌-◌, ◌*◌, ◌/◌, ◌%◌, ◌^◌, ◌≤◌, ◌<◌, ◌≡◌, refl, true, false, some, pos, negsuc, to_int,
  ◌+ℤ◌, ◌-ℤ◌, ◌*ℤ◌, to_int-pos, sub_le, sub_lt, add_pos, mul_pos, add_negsuc, sub_negsuc,
  mul_negsuc_thousand, add_negsuc_le, to_int-negsuc, arith, leb, ◌&&◌, ◌∙◌, ltb, ltb→lt,
  ltb_false→le, ap, if◌then◌else◌, inl, inr, Bool-cases,
}
use libjoe.Timer.Functions.{
  Timer, ns_per_sec, timer_max_interval, out_of_range, tm_add_ns, tm_intv_ms, tm_set_ms,
  tm_interval, tm_is_timeout,
}

-- A time of day with nanoseconds below a second.
abbrev pub at : ℕ → ℕ → Timer
at s n = record { tv_sec = pos s; tv_nsec = pos n }

-- The nanoseconds since the start of the clock.
abbrev pub ns : ℕ → ℕ → ℕ
ns s n = s * ns_per_sec + n

-- For two times with nanoseconds below a second, of which the first is not the later one, less than
-- 2 ^ 31 ms apart: the interval is the time between them, in whole milliseconds.
pub tm_interval-ns :
    (s n s' n' : ℕ)
    → n < ns_per_sec
    → n' < ns_per_sec
    → ns s n ≤ ns s' n'
    → ns s' n' < ns s n + 2 ^ 31 * 1000000
    → tm_interval (at s n) (at s' n') ≡ pos ((ns s' n' - ns s n) / 1000000)
unfolding tm_interval tm_intv_ms
tm_interval-ns s n s' n' small small' order near = elim (Bool-cases (ltb n' n)) [
  | inl less ↦
      let before : n' < n = ltb→lt n' n less in
      rw
        (
          sub_lt n' n before,
          add_negsuc (n - n' - 1) ns_per_sec (omega arith),
          sub_le s' s (omega arith),
          sub_le (s' - s) 1 (omega arith),
          mul_pos (s' - s - 1) 1000,
          to_int-pos ((s' - s - 1) * 1000) (omega arith),
          add_pos ((s' - s - 1) * 1000) ((ns_per_sec - (n - n' - 1) - 1) / 1000000),
          to_int-pos ((s' - s - 1) * 1000 + (ns_per_sec - (n - n' - 1) - 1) / 1000000)
              (omega arith),
        )
        (ap pos (omega arith))
  | inr more ↦
      let after : n ≤ n' = ltb_false→le n' n more in
      rw
        (
          sub_le n' n after,
          sub_le s' s (omega arith),
          mul_pos (s' - s) 1000,
          to_int-pos ((s' - s) * 1000) (omega arith),
          add_pos ((s' - s) * 1000) ((n' - n) / 1000000),
          to_int-pos ((s' - s) * 1000 + (n' - n) / 1000000) (omega arith),
        )
        (ap pos (omega arith))
]

-- `tm_set_ms` stores the time `ms` milliseconds after that of the clock, with nanoseconds below a second.
pub tm_set_ms-ns :
    (s n ms : ℕ) (old : Timer)
    → n < ns_per_sec
    → (s' : ℕ) × (n' : ℕ) × (tm_set_ms (some (at s n)) (some old) ms ≡ (pos 0, some (at s' n')))
      × (n' < ns_per_sec)
      × (ns s' n' ≡ ns s n + ms * 1000000)
unfolding tm_set_ms
tm_set_ms-ns s n ms old small =
    let k = n + ms % 1000 * 1000000 in
    let word : ms % 1000 * 1000000 % 2 ^ 32 ≡ ms % 1000 * 1000000 = omega arith in
    (
      s + ms / 1000 + k / ns_per_sec,
      k % ns_per_sec,
      rw
          (
            word,
            add_pos n (ms % 1000 * 1000000),
            add_pos s (ms / 1000),
            add_pos (s + ms / 1000) (k / ns_per_sec),
          )
          refl,
      omega arith,
      omega arith,
    )

-- With a clock at `s`, `n`: the interval from it to the time that `tm_set_ms` stores is `ms`, for `ms`
-- below 2 ^ 31.
pub tm_interval-tm_set_ms :
    (s n ms : ℕ) (old : Timer)
    → n < ns_per_sec
    → ms < 2 ^ 31
    → (t : Timer) × (tm_set_ms (some (at s n)) (some old) ms ≡ (pos 0, some t))
      × (tm_interval (at s n) t ≡ pos ms)
tm_interval-tm_set_ms s n ms old small word =
    let (s', n', run, small', later) = tm_set_ms-ns s n ms old small in
    let whole : (ns s' n' - ns s n) / 1000000 ≡ ms = omega arith in
    (
      at s' n',
      run,
      tm_interval-ns s n s' n' small small' (omega arith) (omega arith) ∙ ap pos whole,
    )

out_of_range-pos :
    (k : ℕ) → out_of_range (pos k) ≡ (if leb 1 k && ltb k timer_max_interval then pos 0 else pos 1)
out_of_range-pos k = ground arith

-- A time that was set `ms` milliseconds ahead, below 2 ^ 31, read `d` nanoseconds later and not behind
-- it: `tm_is_timeout` answers 0 when at least a whole millisecond and less than a day is left, otherwise 1.
pub tm_is_timeout-tm_set_ms :
    (s n ms s' n' d : ℕ) (old : Timer)
    → n < ns_per_sec
    → n' < ns_per_sec
    → ms < 2 ^ 31
    → ns s' n' ≡ ns s n + d
    → d ≤ ms * 1000000
    → (t : Timer) × (tm_set_ms (some (at s n)) (some old) ms ≡ (pos 0, some t))
      × (let left = (ms * 1000000 - d) / 1000000 in
          tm_is_timeout (some (at s' n')) t
          ≡ (if leb 1 left && ltb left timer_max_interval then pos 0 else pos 1))
unfolding tm_is_timeout tm_interval
tm_is_timeout-tm_set_ms s n ms s' n' d old small small' word later soon =
    let (s1, n1, run, small1, set) = tm_set_ms-ns s n ms old small in
    let left = (ms * 1000000 - d) / 1000000 in
    let left' : (ns s1 n1 - ns s' n') / 1000000 ≡ left = omega arith in
    let intv : tm_interval (at s' n') (at s1 n1) ≡ pos left =
      tm_interval-ns s' n' s1 n1 small' small1 (omega arith) (omega arith) ∙ ap pos left' in
    (at s1 n1, run, rw intv (out_of_range-pos left))

out_of_range-negsuc : (k : ℕ) → out_of_range (negsuc k) ≡ pos 1
out_of_range-negsuc k = ground arith

below_zero :
    (a q : ℕ)
    → suc a * 1000 ≤ 2 ^ 31
    → q < 1000
    → to_int (to_int (negsuc a *ℤ 1000) +ℤ pos q) ≡ negsuc (suc a * 1000 - 1 - q)
below_zero a q most less =
    rw
      (
        mul_negsuc_thousand a,
        to_int-negsuc (suc a * 1000 - 1) (omega arith),
        add_negsuc_le (suc a * 1000 - 1) q (omega arith),
        to_int-negsuc (suc a * 1000 - 1 - q) (omega arith),
      )
      refl

-- `tm_interval` from a later time.
module _ (s n s' n' : ℕ) (small : n < ns_per_sec) (small' : n' < ns_per_sec)
    (near : s < s' + 2 ^ 20) where
  interval_borrow : n' < n → s' ≤ s → (k : ℕ) × (tm_interval (at s n) (at s' n') ≡ negsuc k)
  unfolding tm_interval tm_intv_ms
  interval_borrow before order =
      let a = s - s' in
      let q = (ns_per_sec - (n - n' - 1) - 1) / 1000000 in
      let secs : pos s' -ℤ pos s -ℤ pos 1 ≡ negsuc a = elim (Bool-cases (ltb s' s)) [
        | inl early ↦
            let less : s' < s = ltb→lt s' s early in
            rw (sub_lt s' s less, sub_negsuc (s - s' - 1) 1) (ap negsuc (omega arith))
        | inr late ↦
            let same : s ≤ s' = ltb_false→le s' s late in
            rw (sub_le s' s same, sub_lt (s' - s) 1 (omega arith)) (ap negsuc (omega arith))
      ] in
      (
        suc a * 1000 - 1 - q,
        rw (sub_lt n' n before, add_negsuc (n - n' - 1) ns_per_sec (omega arith), secs)
            (below_zero a q (omega arith) (omega arith)),
      )

  interval_seconds : n ≤ n' → s' < s → (k : ℕ) × (tm_interval (at s n) (at s' n') ≡ negsuc k)
  unfolding tm_interval tm_intv_ms
  interval_seconds after less =
      let a = s - s' - 1 in
      let q = (n' - n) / 1000000 in
      (
        suc a * 1000 - 1 - q,
        rw (sub_le n' n after, sub_lt s' s less) (below_zero a q (omega arith) (omega arith)),
      )

  -- A time that the clock has reached, by less than 2 ^ 20 seconds, is timed out; nanoseconds of both are
  -- below a second.
  pub tm_is_timeout-past : ns s' n' ≤ ns s n → tm_is_timeout (some (at s n)) (at s' n') ≡ pos 1
  unfolding tm_is_timeout tm_interval
  tm_is_timeout-past order = elim (Bool-cases (ltb n' n)) [
    | inl less ↦
        let (k, intv) = interval_borrow (ltb→lt n' n less) (omega (arith, ltb→lt n' n less)) in
        rw intv (out_of_range-negsuc k)
    | inr more ↦
        let after : n ≤ n' = ltb_false→le n' n more in
        elim (Bool-cases (ltb s' s)) [
          | inl early ↦
              let (k, intv) = interval_seconds after (ltb→lt s' s early) in
              rw intv (out_of_range-negsuc k)
          | inr late ↦
              let same : s ≤ s' = ltb_false→le s' s late in
              let none_left : (ns s' n' - ns s n) / 1000000 ≡ 0 = omega arith in
              let intv : tm_interval (at s n) (at s' n') ≡ pos 0 =
                tm_interval-ns s n s' n' small small' (omega arith) (omega arith)
                ∙ ap pos none_left in
              rw intv refl
        ]
  ]

-- `tm_add_ns` of less than a second, to nanoseconds below a second, keeps the sum; the nanoseconds
-- are at most a second, and are a second where the sum is exactly that.
pub tm_add_ns-ns :
    (s n d : ℕ)
    → n < ns_per_sec
    → d < ns_per_sec
    → (s' : ℕ) × (n' : ℕ) × (tm_add_ns (some (at s n)) (pos d) ≡ (pos 0, some (at s' n')))
      × (ns s' n' ≡ ns s n + d)
      × (n' ≤ ns_per_sec)
      × (n + d ≡ ns_per_sec → n' ≡ ns_per_sec)
unfolding tm_add_ns
tm_add_ns-ns s n d small less = rw (add_pos n d) (elim (Bool-cases (leb (n + d) ns_per_sec)) [
  | inl fits ↦
      let low : n + d ≤ ns_per_sec = ground (arith, fits) in
      let fits' : leb (n + d + 0) ns_per_sec ≡ true = ground arith in
      (s, n + d, rw fits' refl, omega arith, low, λ e. e)
  | inr over ↦
      let high : ns_per_sec < n + d = ground (arith, over) in
      let over' : leb (n + d + 0) ns_per_sec ≡ false = ground arith in
      (
        s + 1,
        (n + d) % ns_per_sec,
        rw (over', add_pos s 1) refl,
        omega arith,
        omega arith,
        λ e. absurd (omega arith),
      )
])
