-- ===== src/Model/Metadata/Times.antt =====
-- src/model/metadata_candidate.cpp: the times that ValidateTimeCandidate accepts.
use photobridge.Base.{
  Option, arith, false, is_empty, list_eq, nat_eq, none, option_eq, refl, some, string_eq, ◌!=◌,
  ◌<◌, ◌↔◌, ◌≡◌, ◌≤◌,
}
use photobridge.Base.Integers.{IsBetween, IsBetween-inside, is_outside-IsBetween, negsuc, pos, ℤ}
use photobridge.Model.Metadata.{
  LocalDateTime, TimeCandidate, TimeValue, absolute_time, calendar_outside, google_takeout_json,
  local_time, offset_outside, precision_index, second_precision, source_index,
  validate_time_candidate,
}
use photobridge.Model.Metadata.Values.{precision_index-injective, source_index-injective}
use photobridge.Common.Status.{bind_ok, ok, reject_if}

-- Every component of the calendar is in its range.
pub record IsCalendar (l : LocalDateTime) : Type 0 where
  pub year_in : IsBetween 1 9999 l.year
  pub month_in : IsBetween 1 12 l.month
  pub day_in : IsBetween 1 31 l.day
  pub hour_in : IsBetween 0 23 l.hour
  pub minute_in : IsBetween 0 59 l.minute
  pub second_in : IsBetween 0 59 l.second
  pub nanosecond_in : IsBetween 0 999999999 l.nanosecond

abbrev pub IsTime : TimeValue → Type 0
IsTime (absolute_time t) = Unit {0}
IsTime (local_time l) = IsCalendar l

-- Between fourteen hours behind and fourteen hours ahead.
abbrev pub IsOffset : Option ℤ → Type 0
IsOffset none = Unit {0}
IsOffset (some (pos m)) = m ≤ 840
IsOffset (some (negsuc m)) = m < 840

calendar-IsTime : (v : TimeValue) → calendar_outside v ≡ false → IsTime v
calendar-IsTime (absolute_time t) h = tt
calendar-IsTime (local_time l) h = record {
  year_in = is_outside-IsBetween 1 9999 l.year (ground arith);
  month_in = is_outside-IsBetween 1 12 l.month (ground arith);
  day_in = is_outside-IsBetween 1 31 l.day (ground arith);
  hour_in = is_outside-IsBetween 0 23 l.hour (ground arith);
  minute_in = is_outside-IsBetween 0 59 l.minute (ground arith);
  second_in = is_outside-IsBetween 0 59 l.second (ground arith);
  nanosecond_in = is_outside-IsBetween 0 999999999 l.nanosecond (ground arith);
}

minutes-IsOffset : (o : Option ℤ) → offset_outside o ≡ false → IsOffset o
minutes-IsOffset none h = tt
minutes-IsOffset (some (pos m)) h = ground arith
minutes-IsOffset (some (negsuc m)) h = ground arith

calendar_complete : (v : TimeValue) → IsTime v → calendar_outside v ≡ false
calendar_complete (absolute_time t) h = refl
calendar_complete (local_time l) h =
    rw
      (
        IsBetween-inside 1 9999 l.year h.year_in,
        IsBetween-inside 1 12 l.month h.month_in,
        IsBetween-inside 1 31 l.day h.day_in,
        IsBetween-inside 0 23 l.hour h.hour_in,
        IsBetween-inside 0 59 l.minute h.minute_in,
        IsBetween-inside 0 59 l.second h.second_in,
        IsBetween-inside 0 999999999 l.nanosecond h.nanosecond_in,
      )
      refl

minutes_complete : (o : Option ℤ) → IsOffset o → offset_outside o ≡ false
minutes_complete none h = refl
minutes_complete (some (pos m)) h = ground arith
minutes_complete (some (negsuc m)) h = ground arith

-- A time candidate is accepted exactly if it has a raw value, every component of a local time in its
-- range, a UTC offset of at most fourteen hours, if it has one, and the precision and source that the
-- enums name.
pub validate_time_candidate_iff :
    (c : TimeCandidate)
    → (validate_time_candidate c ≡ ok tt) ↔ (
        (is_empty c.raw_value ≡ false)
        × IsTime c.time
        × IsOffset c.utc_offset_minutes
        × (c.precision ≡ second_precision)
        × (c.source ≡ google_takeout_json))
unfolding validate_time_candidate
validate_time_candidate_iff c = (
  λ h.
      let (_, v1, h1) = bind_ok (reject_if (is_empty c.raw_value) _ _) _ h in
      let (_, v2, h2) = bind_ok (reject_if (precision_index c.precision != 0) _ _) _ h1 in
      let (_, v3, h3) = bind_ok (reject_if (source_index c.source != 0) _ _) _ h2 in
      let (_, v4, h4) = bind_ok (reject_if (offset_outside c.utc_offset_minutes) _ _) _ h3 in
      (
        ground arith,
        calendar-IsTime c.time (ground arith),
        minutes-IsOffset c.utc_offset_minutes (ground arith),
        precision_index-injective c.precision second_precision (ground arith),
        source_index-injective c.source google_takeout_json (ground arith),
      ),
  λ (raw, time, offset, precision, source).
      rw
        (
          raw,
          precision,
          source,
          minutes_complete c.utc_offset_minutes offset,
          calendar_complete c.time time,
        )
        refl,
)
