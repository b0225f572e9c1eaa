-- ===== src/DspQueue/Time.antt =====
-- `timespec_add_us` and `timespec_diff_us`: expiry times of waits. Seconds are not negative here.
use fastrpc.Common.{
  ℕ, ◌+◌, ◌-◌, ◌*◌, ◌/◌, ◌%◌, ◌^◌, ◌<◌, ◌≡◌, ◌≢◌, ◌↔◌, ◌&&◌, ◌||◌, arith, leb, ltb, ◌==◌,
  if◌then◌else◌,
}

-- `struct timespec`
pub record Timespec : Type 0 where
  pub tv_sec : ℕ
  pub tv_nsec : ℕ

abbrev pub billion : ℕ
billion = 1000000000

-- The nanoseconds of a valid time are below a billion (POSIX).
abbrev pub IsValid : Timespec → Type 0
IsValid t = t.tv_nsec < billion

unfoldable pub timespec_add_us : Timespec → ℕ → Timespec
timespec_add_us ts us =
    let ns = ts.tv_nsec + 1000 * (us % 1000000) in
    if ltb billion ns
    then record { tv_sec = ts.tv_sec + (us / 1000000 + 1); tv_nsec = ns - billion }
    else record { tv_sec = ts.tv_sec + us / 1000000; tv_nsec = ns }

abbrev pub uint32_max : ℕ
uint32_max = 2 ^ 32 - 1

-- The quotient by 1000 rounds towards zero, also where the difference of the nanoseconds is negative.
unfoldable pub timespec_diff_us : Timespec → Timespec → ℕ
timespec_diff_us a b =
    if ltb a.tv_sec b.tv_sec || (a.tv_sec == b.tv_sec && ltb a.tv_nsec b.tv_nsec)
    then 0
    else if ltb uint32_max (a.tv_sec - b.tv_sec)
    then uint32_max
    else let diffusec =
        if leb b.tv_nsec a.tv_nsec
        then (a.tv_sec - b.tv_sec) * 1000000 + (a.tv_nsec - b.tv_nsec) / 1000
        else (a.tv_sec - b.tv_sec) * 1000000 - (b.tv_nsec - a.tv_nsec) / 1000 in
      if ltb uint32_max diffusec then uint32_max else diffusec

-- At the start of a wait from a valid time, the time that is left is the timeout asked for, whatever
-- 32-bit number of microseconds it is.
pub diff-add_us :
    (ts : Timespec) (us : ℕ)
    → IsValid ts
    → us < 2 ^ 32
    → timespec_diff_us (timespec_add_us ts us) ts ≡ us
unfolding timespec_add_us timespec_diff_us
diff-add_us ts us v h = ground arith

-- The expiry time of a valid time is valid except in one case: where the nanoseconds come to exactly
-- a billion, they are not carried over, and the time is not valid.
pub add_us-IsValid :
    (ts : Timespec) (us : ℕ)
    → IsValid ts
    → IsValid (timespec_add_us ts us) ↔ (ts.tv_nsec + 1000 * (us % 1000000) ≢ billion)
unfolding timespec_add_us
add_us-IsValid ts us v = ground arith
