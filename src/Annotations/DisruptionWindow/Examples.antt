-- ===== src/Annotations/DisruptionWindow/Examples.antt =====
-- A window that opens every hundred nanoseconds, for ten of them.
use spotalis.Common.{◌+◌, ◌*◌, ◌/◌, ◌%◌, ◌≡◌, ◌↔◌, refl, true, some, pos, arith}
use spotalis.Annotations.DisruptionWindow.{CronLibrary, DisruptionWindow, is_within_window}
use spotalis.Annotations.DisruptionWindow.Within.{IsCron, Opened, is_within_iff}

abbrev hundreds : CronLibrary
hundreds = record {
  Schedule = Unit {0};
  parse = λ s. some tt;
  next = λ s t. (t / 100 + 1) * 100;
  parse_duration = λ s. some (pos 10);
}

hundreds-IsCron : IsCron hundreds
hundreds-IsCron = record {
  Fires = λ s a. a % 100 ≡ 0;
  horizon = 1000;
  next_first = λ s t a f later near. (omega arith, omega arith);
  next_fires = λ s t later. omega arith;
}

abbrev ten : DisruptionWindow hundreds
ten = record { schedule = tt; duration = pos 10 }

is_within_iff_example :
    (is_within_window hundreds (some ten) 305 ≡ true) ↔ Opened hundreds hundreds-IsCron ten 305
unfolding hundreds-IsCron
is_within_iff_example =
    is_within_iff hundreds hundreds-IsCron ten 305 refl (omega arith) (omega arith)
