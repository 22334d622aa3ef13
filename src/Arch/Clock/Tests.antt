-- ===== src/Arch/Clock/Tests.antt =====
-- A frequency of 1000 Hz, and a date.
use medusa_os.Prelude.{◌≤◌, ◌≡◌, ◌%◌, ◌/◌, ◌^◌, [], ◌∷◌, refl, arith, some}
use medusa_os.Arch.Clock.{pit_count, pit_init, pit_set_counter, Date, to_24_hours, read_rtc_date}
use medusa_os.Arch.Clock.Timer.{
  sixteen_bits, pit_init-bounds, pit_count-middle, pit_set_counter_lem,
}
use medusa_os.Arch.Clock.Calendar.{registers, twelve_hours, read_rtc_date_lem, to_24_hours_lem}

pit_init-bounds_example :
    (1 ≤ (pit_init 1000).divisor)
    × ((pit_init 1000).divisor ≤ 65535)
    × ((pit_init 1000).divisor ≡ pit_count 1000)
    × ((pit_init 1000).writes
        ≡ (0x43, 0x34)
          ∷ (0x40, (pit_init 1000).divisor % 2 ^ 8)
          ∷ (0x40, (pit_init 1000).divisor / 2 ^ 8)
          ∷ [])
pit_init-bounds_example = pit_init-bounds 1000

pit_count-middle_example : pit_count 1000 ≡ 1194
pit_count-middle_example = pit_count-middle 1000 (omega arith) (omega arith)

pit_set_counter_example : sixteen_bits (pit_set_counter 2 1193) ≡ 1193
pit_set_counter_example = pit_set_counter_lem 2 1193 (omega arith)

abbrev some_date : Date
some_date = record {
  second = 59;
  minute = 30;
  hour = 23;
  day = 31;
  month = 12;
  year = 2023;
  century = 20;
}

read_rtc_date_example : read_rtc_date 1 (λ i. registers some_date) 0 2 ≡ some some_date
read_rtc_date_example =
    read_rtc_date_lem 0 (λ i. registers some_date) some_date 2
      (record {
        seconds = omega arith;
        minutes = omega arith;
        hours = omega arith;
        days = omega arith;
        months = omega arith;
        years = (omega arith, omega arith);
        centuries = refl;
      })
      refl refl refl (λ e. omega (arith, e))

to_24_hours_example : (to_24_hours 0 (record some_date { hour = twelve_hours 13 })).hour ≡ 13
to_24_hours_example = to_24_hours_lem 13 0 some_date (omega arith) refl
