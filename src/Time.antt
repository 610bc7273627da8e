-- ===== src/Time.antt =====
-- What the code uses of Go's package time. An instant counts nanoseconds from the zero `time.Time`;
-- a duration is a signed count of nanoseconds, an int64.
use zincsearch.Prelude.{ℕ, ◌+◌, ◌-◌, ◌*◌, ◌^◌, Bool, ltb, ◌==◌, if◌then◌else◌}
use zincsearch.Prelude.Int.{ℤ, pos, negsuc, pos_part, neg_part, sub_ℕ, ltb_ℤ}

abbrev pub Instant : Type 0
Instant = ℕ

abbrev pub Duration : Type 0
Duration = ℤ

abbrev pub zero_time : Instant
zero_time = 0

-- `t.IsZero()`
abbrev pub is_zero : Instant → Bool
is_zero t = t == 0

-- `t.Before(u)` and `t.After(u)`
abbrev pub before : Instant → Instant → Bool
before t u = ltb t u

abbrev pub after : Instant → Instant → Bool
after t u = ltb u t

-- `t.Add(d)`; instants before the zero time are cut off there
abbrev pub add : Instant → Duration → Instant
add t d = t + pos_part d - neg_part d

abbrev pub max_duration : ℕ
max_duration = 2 ^ 63 - 1

-- `t.Sub(u)`, which saturates at the ends of an int64
abbrev pub sub : Instant → Instant → Duration
sub t u =
    let d = sub_ℕ t u in
    if ltb_ℤ (pos max_duration) d
    then pos max_duration
    else if ltb_ℤ d (negsuc max_duration)
    then negsuc max_duration
    else d

abbrev pub second : ℕ
second = 1_000_000_000

abbrev pub seconds : ℕ → Duration
seconds n = pos (n * second)

abbrev pub minutes : ℕ → Duration
minutes n = pos (n * (60 * second))

abbrev pub hours : ℕ → Duration
hours n = pos (n * (3600 * second))
