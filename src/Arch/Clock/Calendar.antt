-- ===== src/Arch/Clock/Calendar.antt =====
-- The date of the clock.
use medusa_os.Prelude.{
  ℕ, suc, ◌+◌, ◌-◌, ◌*◌, ◌/◌, ◌%◌, ◌^◌, ◌<◌, ◌≤◌, ◌≡◌, ◌≢◌, refl, ap, ◌∙◌, arith, ltb, ◌==◌,
  if◌then◌else◌, Bool, true, false, bit_and, bit_or, bit_and_mask, not, some, ==→eq, eq→==,
  ne→==_false,
}
use medusa_os.Misc.{u32}
use medusa_os.Libc.Ctype.Laws.{all_below_lem}
use medusa_os.Arch.Clock.{
  Date, same_date, read_until_same, from_bcd, bcd_to_binary, to_24_hours, full_year, date_read,
  read_rtc_date,
}

-- A number below 100 as the clock keeps it.
abbrev pub to_bcd : ℕ → ℕ
to_bcd n = n / 10 * 16 + n % 10

from_bcd-to_bcd : (n : ℕ) → n < 100 → from_bcd (to_bcd n) ≡ n
from_bcd-to_bcd n h = omega (arith, bit_and_mask 4 (to_bcd n), h)

-- The readings of a clock of 24 hours that counts in BCD; without a century register `century` is the
-- variable, which keeps its first value.
abbrev pub registers : Date → Date
registers d = record {
  second = to_bcd d.second;
  minute = to_bcd d.minute;
  hour = to_bcd d.hour;
  day = to_bcd d.day;
  month = to_bcd d.month;
  year = to_bcd (d.year % 100);
  century = d.century;
}

-- A date in the hundred years from CURRENT_YEAR on, with the value 20 that `century` has at first.
pub record IsDate (d : Date) : Type 0 where
  pub seconds : d.second < 60
  pub minutes : d.minute < 60
  pub hours : d.hour < 24
  pub days : d.day < 32
  pub months : d.month < 13
  pub years : (2023 ≤ d.year) × (d.year < 2123)
  pub centuries : d.century ≡ 20

hour_check : ℕ → Bool
hour_check h =
    bit_or (bit_and (to_bcd h) 15 + bit_and (to_bcd h) 112 / 16 * 10) (bit_and (to_bcd h) 128)
      % 2 ^ 8
    == h

hour_of-bcd :
    (h : ℕ)
    → h < 24
    → bit_or (bit_and (to_bcd h) 15 + bit_and (to_bcd h) 112 / 16 * 10) (bit_and (to_bcd h) 128)
        % 2 ^ 8
      ≡ h
unfolding hour_check
hour_of-bcd h small = ==→eq _ h (all_below_lem 24 h hour_check refl small)

year_of-bcd : (y : ℕ) → y < 100 → u32 (bit_and (to_bcd y) 15 + to_bcd y / 16 * 10) ≡ y
year_of-bcd y h = omega (arith, bit_and_mask 4 (to_bcd y), h)

short_year : Date → Date
short_year d = record d { year = d.year % 100 }

bcd_to_binary-registers :
    (d : Date) (register_b : ℕ)
    → IsDate d
    → bit_and register_b 4 ≡ 0
    → bcd_to_binary 0 register_b (registers d) ≡ short_year d
unfolding bcd_to_binary short_year
bcd_to_binary-registers d register_b valid bcd = rw (eq→== (bit_and register_b 4) 0 bcd) λ i.
    record {
      second = from_bcd-to_bcd d.second (omega (arith, valid.seconds)) i;
      minute = from_bcd-to_bcd d.minute (omega (arith, valid.minutes)) i;
      hour = hour_of-bcd d.hour valid.hours i;
      day = from_bcd-to_bcd d.day (omega (arith, valid.days)) i;
      month = from_bcd-to_bcd d.month (omega (arith, valid.months)) i;
      year = year_of-bcd (d.year % 100) (omega arith) i;
      century = d.century;
    }

to_24_hours-long :
    (d : Date) (register_b : ℕ) → bit_and register_b 2 ≢ 0 → to_24_hours register_b d ≡ d
unfolding to_24_hours
to_24_hours-long d register_b long = rw (ne→==_false (bit_and register_b 2) 0 long) refl

full_year-short : (d : Date) → IsDate d → full_year 0 (short_year d) ≡ d
unfolding full_year short_year
full_year-short d valid = ap (λ y. record d { year = y }) (whole d.year valid.years.0 valid.years.1)
  where
    whole :
        (y : ℕ)
        → 2023 ≤ y
        → y < 2123
        → (if ltb (u32 (y % 100 + 2000)) 2023
            then u32 (u32 (y % 100 + 2000) + 100)
            else u32 (y % 100 + 2000))
          ≡ y
    whole y low high = ground (arith, low, high)

-- Two equal readings in a row end the loop at once.
read_until_same-steady :
    (turns : ℕ) (read : ℕ → Date)
    → same_date (read 0) (read 1) ≡ true
    → read_until_same (suc turns) 0 read ≡ some (read 1)
unfolding read_until_same
read_until_same-steady turns read e = rw e refl

-- Without a century register, which is how `century_register` is initialised: on a clock of 24 hours
-- that counts in BCD, whose first two readings are those of a date `d` in the years 2023 to 2122,
-- `read_rtc_date` gives `d`.
pub read_rtc_date_lem :
    (turns : ℕ) (read : ℕ → Date) (d : Date) (register_b : ℕ)
    → IsDate d
    → read 0 ≡ registers d
    → read 1 ≡ registers d
    → bit_and register_b 4 ≡ 0
    → bit_and register_b 2 ≢ 0
    → read_rtc_date (suc turns) read 0 register_b ≡ some d
unfolding read_rtc_date
read_rtc_date_lem turns read d register_b valid r0 r1 bcd long =
    let same : same_date (read 0) (read 1) ≡ true =
      ap (λ r. same_date r (read 1)) r0
      ∙ ap (same_date (registers d)) r1
      ∙ same_self (registers d) in
    let converted : full_year 0 (to_24_hours register_b (bcd_to_binary 0 register_b (registers d)))
        ≡ d =
      ap (λ r. full_year 0 (to_24_hours register_b r))
        (bcd_to_binary-registers d register_b valid bcd)
      ∙ ap (full_year 0) (to_24_hours-long (short_year d) register_b long)
      ∙ full_year-short d valid in
    ap (date_read 0 register_b) (read_until_same-steady turns read same ∙ ap some r1)
    ∙ ap some converted
  where
    same_self : (d : Date) → same_date d d ≡ true
    same_self d = ground arith

-- A clock of twelve hours: the hour of its register, with the bit for the afternoon, 12 o'clock
-- included.
abbrev pub twelve_hours : ℕ → ℕ
twelve_hours h = (h + 11) % 12 + 1 + (if ltb h 12 then 0 else 128)

twelve_check : ℕ → Bool
twelve_check h =
    (if not (bit_and (twelve_hours h) 128 == 0)
      then (bit_and (twelve_hours h) 127 + 12) % 24
      else twelve_hours h)
    == (if h % 12 == 0 then 12 - h else h)

-- On a clock of twelve hours, `to_24_hours` gives back every hour but two: midnight becomes 12, and noon
-- becomes 0.
pub to_24_hours_lem :
    (h register_b : ℕ) (d : Date)
    → h < 24
    → bit_and register_b 2 ≡ 0
    → (to_24_hours register_b (record d { hour = twelve_hours h })).hour
      ≡ (if h % 12 == 0 then 12 - h else h)
unfolding to_24_hours twelve_check
to_24_hours_lem h register_b d small short = rw (eq→== (bit_and register_b 2) 0 short) (
    if_hour (not (bit_and (twelve_hours h) 128 == 0)) _ _
    ∙ ==→eq _ _ (all_below_lem 24 h twelve_check refl small))
  where
    if_hour : (b : Bool) (x y : Date) → (if b then x else y).hour ≡ (if b then x.hour else y.hour)
    if_hour true x y = refl
    if_hour false x y = refl
