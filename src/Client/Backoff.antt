-- ===== src/Client/Backoff.antt =====
-- floorToSecond and getBackOff of common/client_conn.go. A time.Duration and the count of failures
-- are int64, modelled by their 64-bit patterns; a product of durations wraps around.
use mini_ray.Base.{
  nat_eq, bytes_eq, ◌+◌, ◌%◌, ◌≤◌, ℕ, ltb, ◌==◌, ◌<◌, arith, ◌≡◌, ◌/◌, if◌then◌else◌, ◌*◌, ◌-◌, ◌^◌,
}

abbrev pub second : ℕ
second = 1000000000

abbrev millisecond : ℕ
millisecond = 1000000

-- `d.Seconds()` is cut to whole seconds, towards 0; within one second of 0 the duration stays. The
-- float64 of Seconds is precise enough for a multiple of 10 ms; its rounding in the last
-- microseconds of a second, which only a product that wrapped around can meet, is not modelled.
unfoldable floor_to_second : ℕ → ℕ
floor_to_second d =
    let sec = (if ltb d (2 ^ 63) then d else 2 ^ 64 - d) / second in
    if sec == 0 then d else if ltb d (2 ^ 63) then sec * second else 2 ^ 64 - sec * second

-- A negative count is below 10.
unfoldable pub get_back_off : ℕ → ℕ
unfolding floor_to_second
get_back_off failure =
    if ltb failure 10
    then 0
    else if ltb failure 20
    then floor_to_second (millisecond * 10 * failure % 2 ^ 64)
    else if ltb failure (2 ^ 63)
    then floor_to_second (millisecond * 50 * failure % 2 ^ 64)
    else 0

-- `now.Add(d)`, earlier for a negative duration; 0 stands for every time before the first.
unfoldable pub later : ℕ → ℕ → ℕ
later now d = if ltb d (2 ^ 63) then now + d else now - (2 ^ 64 - d)

-- From the twentieth failure on, below the 184467440738th, the back-off is a duration that is not
-- negative: whole seconds, at most 50 ms a failure and less than one second below that.
pub get_back_off_bounds :
    (n : ℕ)
    → 20 ≤ n
    → n < 184467440738
    → (get_back_off n < 2 ^ 63)
      × (get_back_off n % second ≡ 0)
      × (get_back_off n ≤ 50 * millisecond * n)
      × (50 * millisecond * n < get_back_off n + second)
unfolding get_back_off floor_to_second
get_back_off_bounds n h b = ground arith
