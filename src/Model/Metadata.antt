-- ===== src/Model/Metadata.antt =====
-- src/model/metadata_candidate.cpp, src/model/metadata_rules.cpp and their headers: values of
-- metadata, candidates for them, and the rules that extract them. The type of double and its `==`
-- are parameters. A last constructor of an enum stands for a value that no enumerator has.
pub mod Resolver
pub mod Times
pub mod Values
pub mod Ranking
pub mod Resolution
pub mod Validity
use photobridge.Base.{
  Bool, Bytes, List, Option, String, [], codes, exists, false, if◌then◌else◌, is_empty, list_eq,
  nat_eq, none, not, option_eq, some, string_eq, true, ℕ, ◌!=◌, ◌&&◌, ◌+◌, ◌==◌, ◌||◌, ◌∷◌,
}
use photobridge.Base.Integers.{int_beq, int_less, is_outside, negsuc, pos, ℤ}
use photobridge.Common.Status.{Status, invalid_argument, ok, reject_if, ◌>>◌}

pub data MetadataField : Type 0 where
  title description favorite taken_time : MetadataField
  other_field : ℕ → MetadataField

pub data MetadataSource : Type 0 where
  google_takeout_json : MetadataSource
  other_source : ℕ → MetadataSource

pub data TimePrecision : Type 0 where
  second_precision : TimePrecision
  other_precision : ℕ → TimePrecision

-- The enums' values, by which they are compared.
abbrev pub field_index : MetadataField → ℕ
field_index title = 0
field_index description = 1
field_index favorite = 2
field_index taken_time = 3
field_index (other_field n) = 4 + n

abbrev pub source_index : MetadataSource → ℕ
source_index google_takeout_json = 0
source_index (other_source n) = 1 + n

abbrev pub precision_index : TimePrecision → ℕ
precision_index second_precision = 0
precision_index (other_precision n) = 1 + n

pub record LocalDateTime : Type 0 where
  pub year : ℤ
  pub month : ℤ
  pub day : ℤ
  pub hour : ℤ
  pub minute : ℤ
  pub second : ℤ
  pub nanosecond : ℤ

-- std::variant<AbsoluteTime, LocalDateTime>
pub data TimeValue : Type 0 where
  absolute_time : ℤ → TimeValue
  local_time : LocalDateTime → TimeValue

pub record TimeCandidate : Type 0 where
  pub time : TimeValue
  pub utc_offset_minutes : Option ℤ
  pub precision : TimePrecision
  pub source : MetadataSource
  pub raw_value : Bytes

-- The last constructor is GeoPoint, its latitude and longitude.
pub data MetadataValue (D : Type 0) : Type 0 where
  string_value : Bytes → MetadataValue D
  int64_value : ℤ → MetadataValue D
  double_value : D → MetadataValue D
  bool_value : Bool → MetadataValue D
  time_value : TimeCandidate → MetadataValue D
  geo_value : D → D → MetadataValue D

pub record MetadataCandidate (D : Type 0) : Type 0 where
  pub asset_id : Bytes
  pub field : MetadataField
  pub value : MetadataValue D
  pub source : MetadataSource
  pub extraction_rule : Bytes
  pub evidence : Bytes

pub record MetadataRule : Type 0 where
  pub id : Bytes
  pub field : MetadataField
  pub source : MetadataSource

pub record MetadataRuleset : Type 0 where
  pub version : Bytes
  pub chain : List MetadataRule

abbrev pub offset_outside : Option ℤ → Bool
offset_outside none = false
offset_outside (some m) = int_less m (negsuc 839) || int_less (pos 840) m

abbrev pub calendar_outside : TimeValue → Bool
calendar_outside (absolute_time t) = false
calendar_outside (local_time l) =
    is_outside 1 9999 l.year
    || is_outside 1 12 l.month
    || is_outside 1 31 l.day
    || is_outside 0 23 l.hour
    || is_outside 0 59 l.minute
    || is_outside 0 59 l.second
    || is_outside 0 999999999 l.nanosecond

-- ValidateTimeCandidate
unfoldable pub validate_time_candidate : TimeCandidate → Status
validate_time_candidate candidate = do
  reject_if (is_empty candidate.raw_value) invalid_argument
      "time candidate raw value must not be empty"
  reject_if (precision_index candidate.precision != 0) invalid_argument
      "unsupported time candidate precision"
  reject_if (source_index candidate.source != 0) invalid_argument
      "unsupported time candidate source"
  reject_if (offset_outside candidate.utc_offset_minutes) invalid_argument
      "time candidate UTC offset is outside the supported range"
  reject_if (calendar_outside candidate.time) invalid_argument
      "local time candidate has an invalid calendar component"

-- MetadataValueKindOf, the index of the variant
abbrev pub value_kind : {D : Type 0} → MetadataValue D → ℕ
value_kind (string_value s) = 0
value_kind (int64_value v) = 1
value_kind (double_value d) = 2
value_kind (bool_value b) = 3
value_kind (time_value t) = 4
value_kind (geo_value x y) = 5

-- IsMetadataValueCompatible
unfoldable pub is_value_compatible : {D : Type 0} → MetadataField → MetadataValue D → Bool
is_value_compatible title value = value_kind value == 0
is_value_compatible description value = value_kind value == 0
is_value_compatible favorite value = value_kind value == 3
is_value_compatible taken_time value = value_kind value == 4
is_value_compatible (other_field n) value = false

unfoldable pub times_equal : TimeValue → TimeValue → Bool
times_equal (absolute_time a) (absolute_time b) = int_beq a b
times_equal (local_time a) (local_time b) =
    int_beq a.year b.year
    && int_beq a.month b.month
    && int_beq a.day b.day
    && int_beq a.hour b.hour
    && int_beq a.minute b.minute
    && int_beq a.second b.second
    && int_beq a.nanosecond b.nanosecond
times_equal _ _ = false

abbrev pub offsets_equal : Option ℤ → Option ℤ → Bool
offsets_equal none none = true
offsets_equal (some a) (some b) = int_beq a b
offsets_equal _ _ = false

abbrev pub bools_equal : Bool → Bool → Bool
bools_equal true b = b
bools_equal false b = not b

-- MetadataValuesEqual
unfoldable pub values_equal :
    {D : Type 0} → (D → D → Bool) → MetadataValue D → MetadataValue D → Bool
values_equal double_equal (string_value a) (string_value b) = a == b
values_equal double_equal (int64_value a) (int64_value b) = int_beq a b
values_equal double_equal (double_value a) (double_value b) = double_equal a b
values_equal double_equal (bool_value a) (bool_value b) = bools_equal a b
values_equal double_equal (time_value a) (time_value b) =
    times_equal a.time b.time
    && offsets_equal a.utc_offset_minutes b.utc_offset_minutes
    && precision_index a.precision == precision_index b.precision
    && source_index a.source == source_index b.source
    && a.raw_value == b.raw_value
values_equal double_equal (geo_value a b) (geo_value c d) = double_equal a c && double_equal b d
values_equal double_equal _ _ = false

abbrev takeout_rule : String → MetadataField → MetadataRule
takeout_rule id field = record { id = codes id; field = field; source = google_takeout_json }

-- GoogleTakeoutMetadataRuleset
unfoldable pub google_takeout_metadata_ruleset : MetadataRuleset
google_takeout_metadata_ruleset = record {
  version = codes "takeout-metadata-v1";
  chain =
      takeout_rule "takeout.json.title.v1" title
      ∷ takeout_rule "takeout.json.description.v1" description
      ∷ takeout_rule "takeout.json.favorited.v1" favorite
      ∷ takeout_rule "takeout.json.photoTakenTime.timestamp.v1" taken_time
      ∷ [];
}

-- count_if, of the rules with an id
unfoldable pub count_rules : Bytes → List MetadataRule → ℕ
count_rules id [] = 0
count_rules id (r ∷ rules) = (if r.id == id then 1 else 0) + count_rules id rules

unfoldable pub check_rules : List MetadataRule → List MetadataRule → Status
check_rules chain [] = ok tt
check_rules chain (r ∷ rules) =
    reject_if (is_empty r.id) invalid_argument "metadata rule id must not be empty"
    >> reject_if (count_rules r.id chain != 1) invalid_argument "metadata rule ids must be unique"
    >> check_rules chain rules

abbrev pub no_rules : List MetadataRule → Bool
no_rules [] = true
no_rules (r ∷ rules) = false

-- ValidateMetadataRuleset
unfoldable pub validate_metadata_ruleset : MetadataRuleset → Status
validate_metadata_ruleset rule_set = do
  reject_if (is_empty rule_set.version || no_rules rule_set.chain) invalid_argument
      "metadata ruleset must have a version and at least one rule"
  check_rules rule_set.chain rule_set.chain

-- IsMetadataRuleCompatible
unfoldable pub is_rule_compatible : MetadataRuleset → MetadataField → MetadataSource → Bytes → Bool
is_rule_compatible rule_set field source rule_id =
    exists
      (λ (r : MetadataRule).
        r.id == rule_id
        && field_index r.field == field_index field
        && source_index r.source == source_index source)
      rule_set.chain
