-- ===== src/Model/DiffEngine/Report.antt =====
-- src/model/diff_engine.cpp: the order of the entries of the difference.
use photobridge.Base.{
  All, All-append, All-map, Bool-cases, Bytes, IsDistinct, List, Option, [], arith, beq_refl,
  exists, false, has_value, inl, inr, list_eq, nat_eq, none, option_eq, refl, some, string_eq,
  subst, sym, text_less, true, ◌!=◌, ◌++◌, ◌==◌, ◌||◌, ◌∙◌, ◌∷◌, ◌≡◌, ◌≢◌,
}
use photobridge.Base.Order.{text_less_irrefl}
use photobridge.Base.Ascending.{Ascending, sort_by-Ascending}
use photobridge.Base.OrderedMap.{AllKeys, IsMap, map_find}
use photobridge.Model.DiffEngine.{
  DiffEntry, DiffFileState, DiffKind, StateMap, added_entries, by_path, compare_state,
  diff_file_states, entry_less, expected_entries,
}
use photobridge.Model.DiffEngine.Lookup.{
  added_entries-exists, at_path, emplace_states-IsMap, expected_entries-exists, is_entry,
}

abbrev pub path_of : DiffEntry → Bytes
path_of d = d.path

-- Every entry has a path below those of all that come after it.
abbrev pub IsAscending : List DiffEntry → Type 0
IsAscending ds = Ascending path_of ds

entry_less-path :
    (a b : DiffEntry) → (a.path == b.path) ≡ false → entry_less a b ≡ text_less a.path b.path
unfolding entry_less
entry_less-path a b h = rw h refl

IsDistinct-append :
    (xs ys : List DiffEntry)
    → IsDistinct path_of xs
    → IsDistinct path_of ys
    → All (λ x. All (λ y. path_of x ≢ path_of y) ys) xs
    → IsDistinct path_of (xs ++ ys)
IsDistinct-append [] ys h k b = k
IsDistinct-append (x ∷ xs) ys (n, h) k (b, bs) =
    (All-append (λ y. path_of x ≢ path_of y) xs ys n b, IsDistinct-append xs ys h k bs)

compare_state-paths :
    (path : Bytes) (s : DiffFileState) (o : Option DiffFileState)
    → All (λ (d : DiffEntry). d.path ≡ path) (compare_state path s o)
      × IsDistinct path_of (compare_state path s o)
unfolding compare_state
compare_state-paths path s none = ((refl, tt), (tt, tt))
compare_state-paths path s (some a) = elim (Bool-cases (s.size != a.size || s.digest != a.digest)) [
  | inl c ↦ rw c ((refl, tt), (tt, tt))
  | inr c ↦ rw c (tt, tt)
]

below-differs : (p q : Bytes) → text_less p q ≡ true → p ≢ q
below-differs p q l e =
    let n = subst (λ (x : Bytes). text_less p x ≡ false) e (text_less_irrefl p) in cc

-- The entries of a part of the map have keys of it.
expected_entries-keys {κ} :
    (P : Bytes → Type κ) (observed m : StateMap)
    → AllKeys P m
    → All (λ (d : DiffEntry). P d.path) (expected_entries observed m)
unfolding expected_entries
expected_entries-keys P observed [] h = tt
expected_entries-keys P observed ((path, s) ∷ m) (h, hs) =
    All-append (λ (d : DiffEntry). P d.path) (compare_state path s (map_find path observed)) _
      (All-map (compare_state path s (map_find path observed)) (λ d e. subst P (sym e) h)
        (compare_state-paths path s (map_find path observed)).0)
      (expected_entries-keys P observed m hs)

expected_entries-IsDistinct :
    (observed m : StateMap) → IsMap m → IsDistinct path_of (expected_entries observed m)
unfolding expected_entries
expected_entries-IsDistinct observed [] h = tt
expected_entries-IsDistinct observed ((path, s) ∷ m) (a, h) =
    let (same, one) = compare_state-paths path s (map_find path observed) in
    let later = expected_entries-keys (λ j. text_less path j ≡ true) observed m a in
    IsDistinct-append (compare_state path s (map_find path observed)) (expected_entries observed m)
      one (expected_entries-IsDistinct observed m h)
      (All-map (compare_state path s (map_find path observed))
        (λ d e.
          All-map (expected_entries observed m)
            (λ x l. subst (λ (p : Bytes). p ≢ path_of x) (sym e) (below-differs path x.path l))
            later)
        same)

added_entries-keys {κ} :
    (P : Bytes → Type κ) (expected m : StateMap)
    → AllKeys P m
    → All (λ (d : DiffEntry). P d.path) (added_entries expected m)
unfolding added_entries
added_entries-keys P expected [] h = tt
added_entries-keys P expected ((path, s) ∷ m) (h, hs) =
    elim (Bool-cases (has_value (map_find path expected))) [
      | inl e ↦ rw e (added_entries-keys P expected m hs)
      | inr e ↦ rw e (h, added_entries-keys P expected m hs)
    ]

added_entries-IsDistinct :
    (expected m : StateMap) → IsMap m → IsDistinct path_of (added_entries expected m)
unfolding added_entries
added_entries-IsDistinct expected [] h = tt
added_entries-IsDistinct expected ((path, s) ∷ m) (a, h) =
    elim (Bool-cases (has_value (map_find path expected))) [
      | inl e ↦ rw e (added_entries-IsDistinct expected m h)
      | inr e ↦ rw e (
        All-map (added_entries expected m) (λ x l. below-differs path x.path l)
            (added_entries-keys (λ j. text_less path j ≡ true) expected m a),
        added_entries-IsDistinct expected m h,
      )
    ]

-- Every entry of a list is found in it.
All-found :
    (ds : List DiffEntry) → All (λ (d : DiffEntry). exists (is_entry d.path d.kind) ds ≡ true) ds
All-found [] = tt
All-found (d ∷ ds) =
    (ground (arith, beq_refl d.path), All-map ds (λ e h. ground arith) (All-found ds))

expected_found :
    (p : Bytes) (k : DiffKind) (s o : Option DiffFileState)
    → at_path p k s o ≡ true
    → has_value s ≡ true
unfolding at_path
expected_found p k none o h = cc
expected_found p k (some x) o h = refl

parts_differ :
    (e o : StateMap)
    → IsMap e
    → All (λ x. All (λ y. path_of x ≢ path_of y) (added_entries e o)) (expected_entries o e)
parts_differ e o m =
    All-map (expected_entries o e)
      (λ x h.
        All-map (added_entries e o)
          (λ y k same.
            let there : has_value (map_find x.path e) ≡ true =
              expected_found x.path x.kind (map_find x.path e) (map_find x.path o)
                (sym (expected_entries-exists x.path x.kind o e m) ∙ h) in
            let there' : has_value (map_find y.path e) ≡ true =
              subst (λ (p : Bytes). has_value (map_find p e) ≡ true) same there in
            let gone = added_entries-exists y.path y.kind e o in ground arith)
          (All-found (added_entries e o)))
      (All-found (expected_entries o e))

-- The entries of a difference are in the strict order of their paths: no path has two.
pub diff_file_states-IsAscending :
    (expected observed : List DiffFileState) → IsAscending (diff_file_states expected observed)
unfolding diff_file_states
diff_file_states-IsAscending expected observed =
    let e = by_path expected in
    let o = by_path observed in
    let em = emplace_states-IsMap [] expected tt in
    let om = emplace_states-IsMap [] observed tt in
    sort_by-Ascending path_of entry_less entry_less-path (expected_entries o e ++ added_entries e o)
      (IsDistinct-append (expected_entries o e) (added_entries e o)
        (expected_entries-IsDistinct o e em) (added_entries-IsDistinct e o om)
        (parts_differ e o em))
