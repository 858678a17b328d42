-- ===== src/Model/Metadata/Values.antt =====
-- src/model/metadata_candidate.cpp: the values that MetadataValuesEqual takes for the same.
use photobridge.Base.{
  Bool, Option, ap, arith, beq_refl, false, list_beq_iff, list_eq, nat_beq_iff, nat_eq, none,
  option_eq, refl, some, string_eq, subst, true, ◌&&◌, ◌==◌, ◌↔◌, ◌≡◌,
}
use photobridge.Base.Integers.{int_beq, negsuc, pos, ℤ}
use photobridge.Model.Metadata.{
  MetadataSource, MetadataValue, TimeCandidate, TimePrecision, TimeValue, absolute_time, bool_value,
  double_value, geo_value, int64_value, local_time, offsets_equal, precision_index, source_index,
  string_value, time_value, times_equal, values_equal,
}

int_beq_iff : (a b : ℤ) → (int_beq a b ≡ true) ↔ (a ≡ b)
int_beq_iff (pos m) (pos n) =
    (λ h. ap pos ((nat_beq_iff m n).0 h), λ e. (nat_beq_iff m n).1 (let same : m ≡ n = cc in same))
int_beq_iff (negsuc m) (negsuc n) = (
  λ h. ap negsuc ((nat_beq_iff m n).0 h),
  λ e. (nat_beq_iff m n).1 (let same : m ≡ n = cc in same),
)
int_beq_iff (pos m) (negsuc n) = ((λ h. cc), (λ e. cc))
int_beq_iff (negsuc m) (pos n) = ((λ h. cc), (λ e. cc))

int_beq_refl : (a : ℤ) → int_beq a a ≡ true
int_beq_refl a = (int_beq_iff a a).1 refl

pub precision_index-injective :
    (a b : TimePrecision) → precision_index a ≡ precision_index b → a ≡ b
precision_index-injective a b h = ground arith

pub source_index-injective : (a b : MetadataSource) → source_index a ≡ source_index b → a ≡ b
source_index-injective a b h = ground arith

times_equal_refl : (t : TimeValue) → times_equal t t ≡ true
unfolding times_equal
times_equal_refl (absolute_time a) = int_beq_refl a
times_equal_refl (local_time l) =
    rw
      (
        int_beq_refl l.year,
        int_beq_refl l.month,
        int_beq_refl l.day,
        int_beq_refl l.hour,
        int_beq_refl l.minute,
        int_beq_refl l.second,
        int_beq_refl l.nanosecond,
      )
      refl

times_equal_sound : (a b : TimeValue) → times_equal a b ≡ true → a ≡ b
unfolding times_equal
times_equal_sound (absolute_time a) (absolute_time b) h = ap absolute_time ((int_beq_iff a b).0 h)
times_equal_sound (local_time a) (local_time b) h =
    let year_eq = (int_beq_iff a.year b.year).0 (ground arith) in
    let month_eq = (int_beq_iff a.month b.month).0 (ground arith) in
    let day_eq = (int_beq_iff a.day b.day).0 (ground arith) in
    let hour_eq = (int_beq_iff a.hour b.hour).0 (ground arith) in
    let minute_eq = (int_beq_iff a.minute b.minute).0 (ground arith) in
    let second_eq = (int_beq_iff a.second b.second).0 (ground arith) in
    let nanosecond_eq = (int_beq_iff a.nanosecond b.nanosecond).0 (ground arith) in
    λ t. local_time (record {
      year = year_eq t;
      month = month_eq t;
      day = day_eq t;
      hour = hour_eq t;
      minute = minute_eq t;
      second = second_eq t;
      nanosecond = nanosecond_eq t;
    })
times_equal_sound _ _ h = cc

offsets_equal_refl : (o : Option ℤ) → offsets_equal o o ≡ true
offsets_equal_refl none = refl
offsets_equal_refl (some a) = int_beq_refl a

offsets_equal_sound : (a b : Option ℤ) → offsets_equal a b ≡ true → a ≡ b
offsets_equal_sound none none h = refl
offsets_equal_sound (some a) (some b) h = ap some ((int_beq_iff a b).0 h)
offsets_equal_sound _ _ h = cc

-- The comparison of two candidates for a time.
candidates_sound :
    (a b : TimeCandidate)
    → (times_equal a.time b.time
        && offsets_equal a.utc_offset_minutes b.utc_offset_minutes
        && precision_index a.precision == precision_index b.precision
        && source_index a.source == source_index b.source
        && a.raw_value == b.raw_value)
      ≡ true
    → a ≡ b
candidates_sound a b h =
    let time_eq = times_equal_sound a.time b.time (ground arith) in
    let offset_eq = offsets_equal_sound a.utc_offset_minutes b.utc_offset_minutes (ground arith) in
    let precision_eq = precision_index-injective a.precision b.precision (ground arith) in
    let source_eq = source_index-injective a.source b.source (ground arith) in
    let raw_eq = (list_beq_iff a.raw_value b.raw_value).0 (ground arith) in
    λ t. record {
      time = time_eq t;
      utc_offset_minutes = offset_eq t;
      precision = precision_eq t;
      source = source_eq t;
      raw_value = raw_eq t;
    }

-- The value is no floating-point number, and no pair of them.
abbrev pub IsExact : {D : Type 0} → MetadataValue D → Type 0
IsExact (double_value d) = ⊥
IsExact (geo_value x y) = ⊥
IsExact v = Unit {0}

values_equal_refl :
    {D : Type 0} (double_equal : D → D → Bool) (v : MetadataValue D)
    → IsExact v
    → values_equal double_equal v v ≡ true
unfolding values_equal
values_equal_refl double_equal (string_value s) x = beq_refl s
values_equal_refl double_equal (int64_value a) x = int_beq_refl a
values_equal_refl double_equal (double_value d) x = absurd x
values_equal_refl double_equal (bool_value true) x = refl
values_equal_refl double_equal (bool_value false) x = refl
values_equal_refl double_equal (time_value t) x =
    rw
      (
        times_equal_refl t.time,
        offsets_equal_refl t.utc_offset_minutes,
        beq_refl (precision_index t.precision),
        beq_refl (source_index t.source),
        beq_refl t.raw_value,
      )
      refl
values_equal_refl double_equal (geo_value a b) x = absurd x

values_equal_sound :
    {D : Type 0} (double_equal : D → D → Bool) (v w : MetadataValue D)
    → IsExact v
    → values_equal double_equal v w ≡ true
    → v ≡ w
unfolding values_equal
values_equal_sound double_equal (string_value a) (string_value b) x h =
    ap string_value ((list_beq_iff a b).0 h)
values_equal_sound double_equal (int64_value a) (int64_value b) x h =
    ap int64_value ((int_beq_iff a b).0 h)
values_equal_sound double_equal (double_value a) w x h = absurd x
values_equal_sound double_equal (bool_value true) (bool_value true) x h = refl
values_equal_sound double_equal (bool_value false) (bool_value false) x h = refl
values_equal_sound double_equal (time_value a) (time_value b) x h =
    ap time_value (candidates_sound a b h)
values_equal_sound double_equal (geo_value a b) w x h = absurd x
values_equal_sound double_equal _ _ x h = cc

-- Where the first value has no floating-point number, MetadataValuesEqual holds of two values
-- exactly if they are the same.
pub values_equal_iff :
    {D : Type 0} (double_equal : D → D → Bool) (v w : MetadataValue D)
    → IsExact v
    → (values_equal double_equal v w ≡ true) ↔ (v ≡ w)
values_equal_iff double_equal v w x = (
  values_equal_sound double_equal v w x,
  λ e. subst (λ u. values_equal double_equal v u ≡ true) e (values_equal_refl double_equal v x),
)
