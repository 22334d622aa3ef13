-- ===== src/Arch/Clock.antt =====
-- kernel/arch/i386: pit.c, the interval timer, and rtc.c, the clock with the date.
pub mod Timer
pub mod Calendar
mod Tests
use medusa_os.Prelude.{
  ℕ, zero, suc, ◌+◌, ◌-◌, ◌*◌, ◌/◌, ◌%◌, ◌^◌, ◌==◌, ltb, leb, if◌then◌else◌, Bool, true, false, not,
  ◌&&◌, Option, none, some, List, [], ◌∷◌, bit_and, bit_or,
}
use medusa_os.Misc.{u32}

-- `INTERNAL_FREQ` and `INTERNAL_FREQ_3X`
abbrev pub internal_freq : ℕ
internal_freq = 1193182

abbrev pub internal_freq_3x : ℕ
internal_freq_3x = 3579546

-- The variables of pit.c after `pit_init`, and the bytes written to ports.
pub record PitState : Type 0 where
  pub divisor : ℕ
  pub timer_delta_time : ℕ
  pub writes : List (ℕ × ℕ)

-- `count` at the end of the branches of `pit_init`.
pub pit_count : (frequency : ℕ) → ℕ
pit_count frequency =
    if leb frequency 18
    then 65535
    else if leb internal_freq frequency
    then 1
    else let quotient = u32 (internal_freq_3x / frequency) in
      let remainder = u32 (internal_freq_3x % frequency) in
      let rounded = if leb (internal_freq_3x / 2) remainder then u32 (quotient + 1) else quotient in
      let third = rounded / 3 in if leb 1 (third % 3) then u32 (third + 1) else third

pub pit_init : (frequency : ℕ) → PitState
unfolding pit_count
pit_init frequency =
    let count = pit_count frequency in
    let divisor = bit_and count 65535 in
    record {
      divisor = divisor;
      timer_delta_time = 3685982306 * count % 2 ^ 64 / 2 ^ 10;
      writes = (67, 52) ∷ (64, bit_and divisor 255) ∷ (64, divisor / 2 ^ 8) ∷ [];
    }

-- `get_port`
abbrev pub get_port : (channel : ℕ) → ℕ
get_port channel =
    if channel == 0 then 64 else if channel == 1 then 65 else if channel == 2 then 66 else 255

pub pit_set_counter : (channel count : ℕ) → List (ℕ × ℕ)
pit_set_counter channel count =
    if not (ltb channel 3)
    then []
    else (get_port channel, bit_and count 255)
      ∷ (get_port channel, bit_and (count / 2 ^ 8) 255)
      ∷ []

-- The variables of rtc.c, and `century`.
pub record Date : Type 0 where
  pub second : ℕ
  pub minute : ℕ
  pub hour : ℕ
  pub day : ℕ
  pub month : ℕ
  pub year : ℕ
  pub century : ℕ

-- The tests of the loop's condition.
abbrev pub same_date : Date → Date → Bool
same_date a b =
    (a.second == b.second)
    && (a.minute == b.minute)
    && (a.hour == b.hour)
    && (a.day == b.day)
    && (a.month == b.month)
    && (a.year == b.year)
    && (a.century == b.century)

-- The loop of `read_rtc_date`: `read i` is what the registers hold when they are read for the `i`-th
-- time, after the wait for an update; `none` is a loop of more than `turns` turns.
pub read_until_same : (turns i : ℕ) → (read : ℕ → Date) → Option Date
read_until_same zero i read = none
read_until_same (suc turns) i read =
    if same_date (read i) (read (i + 1))
    then some (read (i + 1))
    else read_until_same turns (i + 1) read

-- `(v & 0x0F) + ((v / 16) * 10)`, in a byte.
abbrev pub from_bcd : ℕ → ℕ
from_bcd v = (bit_and v 15 + v / 16 * 10) % 2 ^ 8

-- The branch on bit 2 of register B; `century_register` is 0 where there is none.
pub bcd_to_binary : (century_register register_b : ℕ) → Date → Date
bcd_to_binary century_register register_b date =
    if bit_and register_b 4 == 0
    then record {
      second = from_bcd date.second;
      minute = from_bcd date.minute;
      hour =
          bit_or (bit_and date.hour 15 + bit_and date.hour 112 / 16 * 10) (bit_and date.hour 128)
          % 2 ^ 8;
      day = from_bcd date.day;
      month = from_bcd date.month;
      year = u32 (bit_and date.year 15 + date.year / 16 * 10);
      century = if not (century_register == 0) then from_bcd date.century else date.century;
    }
    else date

-- The hour of a clock of twelve hours.
pub to_24_hours : (register_b : ℕ) → Date → Date
to_24_hours register_b date =
    if (bit_and register_b 2 == 0) && not (bit_and date.hour 128 == 0)
    then record date { hour = (bit_and date.hour 127 + 12) % 24 }
    else date

-- The year with its century; CURRENT_YEAR is 2023.
pub full_year : (century_register : ℕ) → Date → Date
full_year century_register date =
    if not (century_register == 0)
    then record date { year = u32 (date.year + date.century * 100) }
    else let year = u32 (date.year + 2000) in
      record date { year = if ltb year 2023 then u32 (year + 100) else year }

-- What `read_rtc_date` makes of what the loop ends with.
abbrev pub date_read : (century_register register_b : ℕ) → Option Date → Option Date
date_read century_register register_b none = none
date_read century_register register_b (some date) = some (
    full_year century_register
      (to_24_hours register_b (bcd_to_binary century_register register_b date)))

-- The date that `read_rtc_date` prints.
pub read_rtc_date :
    (turns : ℕ) → (read : ℕ → Date) → (century_register register_b : ℕ) → Option Date
read_rtc_date turns read century_register register_b =
    date_read century_register register_b (read_until_same turns 0 read)
