-- ===== src/Model/DiffEngine/Lookup.antt =====
-- src/model/diff_engine.cpp: which entries the difference has.
use photobridge.Base.{
  Bool, Bool-cases, Bytes, List, Option, [], ap, ap₂, arith, beq_refl, exists, exists-append, false,
  has_value, if◌then◌else◌, inl, inr, list_beq_iff, list_eq, nat_eq, none, not, option_eq, refl,
  some, string_eq, subst, text_less, true, ℕ, ◌!=◌, ◌&&◌, ◌++◌, ◌==◌, ◌||◌, ◌↔◌, ◌∙◌, ◌∷◌, ◌≡◌,
}
use photobridge.Base.OrderedMap.{
  AllKeys, IsMap, map_emplace, map_emplace-IsMap, map_find, map_find-emplace, map_find-none,
  only_if, or_else,
}
use photobridge.Model.DiffEngine.{
  DiffEntry, DiffFileState, DiffKind, StateMap, added, added_entries, by_path, changed,
  compare_state, diff_file_states, diff_index, emplace_states, entry_less, expected_entries,
  removed,
}
use photobridge.Base.Order.{exists-sort_by}

-- The first state that is given for a path.
unfoldable pub first_state : Bytes → List DiffFileState → Option DiffFileState
first_state path [] = none
first_state path (state ∷ states) =
    let rest = first_state path states in if state.path == path then some state else rest

-- What became of a path, from what is expected there and what is observed.
unfoldable pub kind_between : Option DiffFileState → Option DiffFileState → Option DiffKind
kind_between none none = none
kind_between none (some o) = some added
kind_between (some e) none = some removed
kind_between (some e) (some o) =
    if e.size != o.size || e.digest != o.digest then some changed else none

abbrev pub is_entry : Bytes → DiffKind → DiffEntry → Bool
is_entry path kind d = d.path == path && diff_index d.kind == diff_index kind

pub emplace_states-IsMap :
    (m : StateMap) (states : List DiffFileState) → IsMap m → IsMap (emplace_states m states)
unfolding emplace_states
emplace_states-IsMap m [] h = h
emplace_states-IsMap m (s ∷ ss) h =
    emplace_states-IsMap (map_emplace s.path s m) ss (map_emplace-IsMap s.path s m h)

emplace_states-find :
    (p : Bytes) (m : StateMap) (states : List DiffFileState)
    → IsMap m
    → map_find p (emplace_states m states) ≡ or_else (map_find p m) (first_state p states)
unfolding emplace_states first_state
emplace_states-find p m [] h = or_none (map_find p m)
  where
    or_none : (o : Option DiffFileState) → o ≡ or_else o none
    or_none none = refl
    or_none (some x) = refl
emplace_states-find p m (s ∷ ss) h =
    emplace_states-find p (map_emplace s.path s m) ss (map_emplace-IsMap s.path s m h)
    ∙ ap (λ o. or_else o (first_state p ss)) (map_find-emplace p s.path s m h)
    ∙ reassociate (map_find p m) (s.path == p) (first_state p ss)
  where
    reassociate :
        (o : Option DiffFileState) (b : Bool) (o' : Option DiffFileState)
        → or_else (or_else o (only_if b s)) o' ≡ or_else o (if b then some s else o')
    reassociate (some x) b o' = refl
    reassociate none true o' = refl
    reassociate none false o' = refl

pub by_path-find :
    (p : Bytes) (states : List DiffFileState) → map_find p (by_path states) ≡ first_state p states
unfolding map_find
by_path-find p states = emplace_states-find p [] states tt

module _ (p : Bytes) (k : DiffKind) where
  compare_state-other :
      (path : Bytes) (s : DiffFileState) (o : Option DiffFileState)
      → (path == p) ≡ false
      → exists (is_entry p k) (compare_state path s o) ≡ false
  unfolding compare_state
  compare_state-other path s none h = ground arith
  compare_state-other path s (some a) h = ground arith

  -- The entry that the expected state of the path gives.
  unfoldable pub at_path : Option DiffFileState → Option DiffFileState → Bool
  at_path none o = false
  at_path (some s) o = exists (is_entry p k) (compare_state p s o)

  pub expected_entries-exists :
      (observed m : StateMap)
      → IsMap m
      → exists (is_entry p k) (expected_entries observed m)
        ≡ at_path (map_find p m) (map_find p observed)
  unfolding expected_entries map_find at_path
  expected_entries-exists observed [] h = refl
  expected_entries-exists observed ((path, s) ∷ m) (a, h) =
      exists-append (is_entry p k) (compare_state path s (map_find path observed)) _
      ∙ elim (Bool-cases (path == p)) [
        | inl e ↦
            let q = (list_beq_iff path p).0 e in
            let n = map_find-none p m (subst (λ x. AllKeys (λ j. text_less x j ≡ true) m) q a) in
            let none_later : exists (is_entry p k) (expected_entries observed m) ≡ false =
              expected_entries-exists observed m h ∙ ap (λ o. at_path o (map_find p observed)) n in
            rw (e, none_later)
              (ap
                  (λ (x : Bytes).
                    exists (is_entry p k) (compare_state x s (map_find x observed)) || false)
                  q
                ∙ or_false _)
        | inr e ↦
            rw (e, compare_state-other path s (map_find path observed) e)
              (expected_entries-exists observed m h)
      ]
    where
      or_false : (b : Bool) → (b || false) ≡ b
      or_false true = refl
      or_false false = refl

  pub added_entries-exists :
      (expected m : StateMap)
      → exists (is_entry p k) (added_entries expected m) ≡ (
          has_value (map_find p m)
          && not (has_value (map_find p expected))
          && diff_index added == diff_index k)
  unfolding added_entries map_find
  added_entries-exists expected [] = refl
  added_entries-exists expected ((path, s) ∷ m) = elim (Bool-cases (path == p)) [
    | inl e ↦
        let q : has_value (map_find path expected) ≡ has_value (map_find p expected) =
          ap (λ (x : Bytes). has_value (map_find x expected)) ((list_beq_iff path p).0 e) in
        ground (arith, added_entries-exists expected m)
    | inr e ↦ ground (arith, added_entries-exists expected m)
  ]

  kind_iff : (a : DiffKind) → ((diff_index a == diff_index k) ≡ true) ↔ (some a ≡ some k)
  kind_iff a = ((λ h. ap some (same a k h)), (λ h. ground (arith, ap index_of h)))
    where
      index_of : Option DiffKind → ℕ
      index_of none = 9
      index_of (some x) = diff_index x

      same : (a b : DiffKind) → (diff_index a == diff_index b) ≡ true → a ≡ b
      same added added h = refl
      same removed removed h = refl
      same changed changed h = refl
      same _ _ h = cc

  entry_iff :
      (e o : Option DiffFileState)
      → ((at_path e o || has_value o && not (has_value e) && diff_index added == diff_index k)
          ≡ true)
        ↔ (kind_between e o ≡ some k)
  unfolding at_path compare_state kind_between
  entry_iff none none = ((λ h. cc), (λ h. cc))
  entry_iff none (some o) = kind_iff added
  entry_iff (some e) none = (
    (λ h. (kind_iff removed).0 (ground arith)),
    (λ h. ground (arith, (kind_iff removed).1 h, beq_refl p)),
  )
  entry_iff (some e) (some o) = elim (Bool-cases (e.size != o.size || e.digest != o.digest)) [
    | inl c ↦ rw c (
      (λ h. (kind_iff changed).0 (ground arith)),
      (λ h. ground (arith, (kind_iff changed).1 h, beq_refl p)),
    )
    | inr c ↦ rw c ((λ h. cc), (λ h. cc))
  ]

-- The difference has an entry exactly for what became of a path between the first state that is
-- expected there and the first that is observed: added, removed, or changed in size or digest.
pub diff_file_states_iff :
    (expected observed : List DiffFileState) (path : Bytes) (kind : DiffKind)
    → (exists (is_entry path kind) (diff_file_states expected observed) ≡ true)
      ↔ (kind_between (first_state path expected) (first_state path observed) ≡ some kind)
unfolding diff_file_states
diff_file_states_iff expected observed path kind =
    let e = by_path expected in
    let o = by_path observed in
    let entries : exists (is_entry path kind) (diff_file_states expected observed) ≡ (
        at_path path kind (map_find path e) (map_find path o)
        || has_value (map_find path o)
          && not (has_value (map_find path e))
          && diff_index added == diff_index kind) =
      exists-sort_by entry_less (is_entry path kind) (expected_entries o e ++ added_entries e o)
      ∙ exists-append (is_entry path kind) (expected_entries o e) (added_entries e o)
      ∙ ap₂ ◌||◌ (expected_entries-exists path kind o e (emplace_states-IsMap [] expected tt))
          (added_entries-exists path kind e o) in
    rw (entries, by_path-find path expected, by_path-find path observed)
      (entry_iff path kind (first_state path expected) (first_state path observed))
