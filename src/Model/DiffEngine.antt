-- ===== src/Model/DiffEngine.antt =====
-- src/model/diff_engine.cpp: the difference between the files that a target should hold and those
-- that it holds.
pub mod Lookup
pub mod Report
use photobridge.Base.{
  Bool, Bytes, List, Option, [], has_value, if◌then◌else◌, list_eq, ltb, nat_eq, none, option_eq,
  some, string_eq, text_less, ℕ, ◌!=◌, ◌++◌, ◌||◌, ◌∷◌,
}
use photobridge.Base.Order.{sort_by}
use photobridge.Base.OrderedMap.{map_emplace, map_find}
use photobridge.Common.Digest.{Digest}

pub record DiffFileState : Type 0 where
  pub path : Bytes
  pub size : ℕ
  pub digest : Option Digest

pub data DiffKind : Type 0 where
  added removed changed : DiffKind

pub record DiffEntry : Type 0 where
  pub path : Bytes
  pub kind : DiffKind

-- static_cast<int>, by which the kinds are compared
abbrev pub diff_index : DiffKind → ℕ
diff_index added = 0
diff_index removed = 1
diff_index changed = 2

abbrev pub StateMap : Type 0
StateMap = List (Bytes × DiffFileState)

unfoldable pub emplace_states : StateMap → List DiffFileState → StateMap
emplace_states m [] = m
emplace_states m (state ∷ states) = emplace_states (map_emplace state.path state m) states

-- the lambda by_path
abbrev pub by_path : List DiffFileState → StateMap
by_path states = emplace_states [] states

abbrev pub entry : Bytes → DiffKind → DiffEntry
entry path kind = record { path = path; kind = kind }

-- One round of the loop over the expected states, given what is observed at the path.
unfoldable pub compare_state : Bytes → DiffFileState → Option DiffFileState → List DiffEntry
compare_state path state none = entry path removed ∷ []
compare_state path state (some actual) =
    if state.size != actual.size || state.digest != actual.digest
    then entry path changed ∷ []
    else []

unfoldable pub expected_entries : StateMap → StateMap → List DiffEntry
expected_entries observed [] = []
expected_entries observed ((path, state) ∷ expected) =
    compare_state path state (map_find path observed) ++ expected_entries observed expected

unfoldable pub added_entries : StateMap → StateMap → List DiffEntry
added_entries expected [] = []
added_entries expected ((path, state) ∷ observed) =
    let rest = added_entries expected observed in
    if has_value (map_find path expected) then rest else entry path added ∷ rest

unfoldable pub entry_less : DiffEntry → DiffEntry → Bool
entry_less left right =
    if left.path != right.path
    then text_less left.path right.path
    else ltb (diff_index left.kind) (diff_index right.kind)

-- DiffFileStates
unfoldable pub diff_file_states : List DiffFileState → List DiffFileState → List DiffEntry
diff_file_states expected observed =
    let expected_by_path = by_path expected in
    let observed_by_path = by_path observed in
    sort_by entry_less (
      expected_entries observed_by_path expected_by_path
      ++ added_entries expected_by_path observed_by_path)
