-- ===== src/Annotations/DisruptionWindow.antt =====
-- internal/annotations/disruption_window.go: the window of time in which pods may be disrupted. The
-- cron library is a parameter, and so is the parser of durations.
pub mod Within
mod Examples
use spotalis.Common.{
  ℕ, ◌+◌, ◌-◌, ◌≤◌, ◌<◌, ◌≡◌, String, Bool, true, false, not, ◌&&◌, if◌then◌else◌, Option, none,
  some, List, [], ◌∷◌, Result, ok, err, ltb, leb, ℤ, pos_part, neg_part,
}
use spotalis.Common.Text.{Text}
use spotalis.Common.Time.{Time}
use spotalis.Kube.{StringMap}

-- github.com/robfig/cron/v3 and time.ParseDuration: a schedule and its next activation later than
-- the given time. An error is `none`.
pub record CronLibrary : Type 1 where
  pub Schedule : Type 0
  pub parse : Text → Option Schedule
  pub next : Schedule → Time → Time
  pub parse_duration : Text → Option ℤ

-- t.Add(d), for times that are not before the zero time.
unfoldable pub add_time : Time → ℤ → Time
add_time t d = t + pos_part d - neg_part d

unfoldable pub sub_duration : Time → ℤ → Time
sub_duration t d = t + neg_part d - pos_part d

pub data WindowError : Type 0 where
  must_be_specified_together invalid_schedule invalid_duration : WindowError

abbrev is_empty : Text → Bool
is_empty [] = true
is_empty (c ∷ s) = false

-- A missing key is the empty text.
abbrev text_at : StringMap → String → Text
text_at m key = elim (m key) [ none ↦ [] | some v ↦ v ]

abbrev same : Bool → Bool → Bool
same true b = b
same false b = not b

module _ (cron : CronLibrary) where
  pub record DisruptionWindow : Type 0 where
    pub schedule : cron.Schedule
    pub duration : ℤ  -- nanoseconds

  unfoldable pub parse_parts : Text → Text → Result WindowError (Option DisruptionWindow)
  parse_parts schedule_text duration_text = elim (cron.parse schedule_text) [
    | none ↦ err invalid_schedule
    | some s ↦ elim (cron.parse_duration duration_text) [
      | none ↦ err invalid_duration
      | some d ↦ ok (some (record { schedule = s; duration = d }))
    ]
  ]

  -- A nil window without an error is `ok none`.
  unfoldable pub parse_disruption_window : StringMap → Result WindowError (Option DisruptionWindow)
  unfolding parse_parts
  parse_disruption_window m =
      let schedule_text = text_at m "spotalis.io/disruption-schedule" in
      let duration_text = text_at m "spotalis.io/disruption-duration" in
      if not (same (is_empty schedule_text) (is_empty duration_text))
      then err must_be_specified_together
      else if is_empty schedule_text
      then ok none
      else parse_parts schedule_text duration_text

  -- The conversion to UTC does not change the instant.
  unfoldable pub is_within_window : Option DisruptionWindow → Time → Bool
  unfolding add_time sub_duration
  is_within_window none t = true
  is_within_window (some w) t =
      let last_schedule = cron.next w.schedule (sub_duration t w.duration) in
      let window_end = add_time last_schedule w.duration in
      not (ltb t last_schedule) && ltb t window_end
