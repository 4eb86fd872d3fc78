-- ===== src/Annotations/DisruptionWindow/Within.antt =====
-- The window of internal/annotations/disruption_window.go, and when a time lies in it.
use spotalis.Common.{ℕ, ◌+◌, ◌≤◌, ◌<◌, ◌≡◌, ◌↔◌, true, some, pos_part, neg_part, arith}
use spotalis.Common.Time.{Time}
use spotalis.Annotations.DisruptionWindow.{
  CronLibrary, DisruptionWindow, sub_duration, add_time, is_within_window,
}

-- The documented behaviour of the cron library: `next` is the first activation later than the given
-- time, if there is one within the horizon that the library searches.
pub record IsCron (cron : CronLibrary) : Type 1 where
  pub Fires : cron.Schedule → Time → Type 0
  pub horizon : ℕ
  pub next_first :
      (s : cron.Schedule) (t a : Time)
      → Fires s a
      → t < a
      → a ≤ t + horizon
      → (t < cron.next s t) × (cron.next s t ≤ a)
  pub next_fires : (s : cron.Schedule) (t : Time) → t < cron.next s t → Fires s (cron.next s t)

module _ (cron : CronLibrary) (laws : IsCron cron) (w : DisruptionWindow cron) (t : Time) where
  -- An activation that is not in the future, and that the window has not outlasted.
  pub Opened : Type 0
  Opened = (a : Time) × laws.Fires w.schedule a × (a ≤ t) × (t < a + pos_part w.duration)

  -- A time lies within the window exactly when some activation of the schedule is at or before it and
  -- less than the duration ago; for a duration that is not negative, not beyond the library's
  -- horizon, and not longer than the time itself.
  pub is_within_iff :
      neg_part w.duration ≡ 0
      → pos_part w.duration ≤ laws.horizon
      → pos_part w.duration ≤ t
      → (is_within_window cron (some w) t ≡ true) ↔ Opened
  unfolding is_within_window Opened sub_duration add_time
  is_within_iff h k l = (forth, back)
    where
      start : Time
      start = sub_duration t w.duration

      last : Time
      last = cron.next w.schedule start

      test_iff :
          (is_within_window cron (some w) t ≡ true)
          ↔ ((last ≤ t) × (t < last + pos_part w.duration))
      test_iff = (λ e. ground arith, λ p. ground arith)

      forth : is_within_window cron (some w) t ≡ true → Opened
      forth e =
          let p = test_iff.0 e in (last, laws.next_fires w.schedule start (omega arith), p.0, p.1)

      back : Opened → is_within_window cron (some w) t ≡ true
      back (a, fires, le, lt) =
          let n = laws.next_first w.schedule start a fires (omega arith) (omega arith) in
          test_iff.1 (omega arith, omega arith)
