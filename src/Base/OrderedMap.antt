-- ===== src/Base/OrderedMap.antt =====
-- std::map<std::string, V>: the pairs in the order of their keys.
use mathlib.Core.Path.{◌≡◌, refl, sym, subst}
use mathlib.Core.Bool.{Bool, true, false}
use mathlib.Core.Logic.{inl, inr}
use mathlib.Core.Option.{Option, none, some}
use mathlib.Core.List.{List, [], ◌∷◌}
use photobridge.Base.Tests.{
  Bool-cases, if◌then◌else◌, list_beq_iff, list_eq, nat_eq, option_eq, string_eq, ◌==◌,
}
use photobridge.Base.Lists.{All, All-map}
use photobridge.Base.Text.{Bytes, text_less}
use photobridge.Base.Order.{text_less_antisym, text_less_irrefl, text_less_strict}

-- Of two different keys one is below the other.
pub less_of_differs :
    (key k : Bytes) → text_less k key ≡ false → (key == k) ≡ false → text_less key k ≡ true
less_of_differs key k h d = elim (Bool-cases (text_less key k)) [
  | inl e ↦ e
  | inr e ↦ absurd (cc ((list_beq_iff key k).1 (text_less_antisym key k e h)))
]

module _ {ℓ} {V : Type ℓ} where
  -- emplace, which leaves the map as it is where the key is there
  unfoldable pub map_emplace : Bytes → V → List (Bytes × V) → List (Bytes × V)
  map_emplace key v [] = (key, v) ∷ []
  map_emplace key v ((k, w) ∷ m) =
      let rest = map_emplace key v m in
      if text_less k key
      then (k, w) ∷ rest
      else if key == k
      then (k, w) ∷ m
      else (key, v) ∷ (k, w) ∷ m

  unfoldable pub map_find : Bytes → List (Bytes × V) → Option V
  map_find key [] = none
  map_find key ((k, w) ∷ m) = let rest = map_find key m in if k == key then some w else rest

  abbrev pub AllKeys {κ} : (Bytes → Type κ) → List (Bytes × V) → Type κ
  AllKeys P m = All (λ (e : Bytes × V). P e.0) m

  -- The keys are strictly ascending.
  abbrev pub IsMap : List (Bytes × V) → Type 0
  IsMap [] = Unit {0}
  IsMap ((k, w) ∷ m) = AllKeys (λ j. text_less k j ≡ true) m × IsMap m

  AllKeys-emplace {κ} :
      (P : Bytes → Type κ) (key : Bytes) (v : V) (m : List (Bytes × V))
      → P key
      → AllKeys P m
      → AllKeys P (map_emplace key v m)
  unfolding map_emplace
  AllKeys-emplace P key v [] p h = (p, tt)
  AllKeys-emplace P key v ((k, w) ∷ m) p (q, h) = elim (Bool-cases (text_less k key)) [
    | inl e ↦ rw e (q, AllKeys-emplace P key v m p h)
    | inr e ↦ elim (Bool-cases (key == k)) [
      | inl f ↦ rw (e, f) (q, h)
      | inr f ↦ rw (e, f) (p, (q, h))
    ]
  ]

  pub map_emplace-IsMap :
      (key : Bytes) (v : V) (m : List (Bytes × V)) → IsMap m → IsMap (map_emplace key v m)
  unfolding map_emplace
  map_emplace-IsMap key v [] h = (tt, tt)
  map_emplace-IsMap key v ((k, w) ∷ m) (a, h) = elim (Bool-cases (text_less k key)) [
    | inl e ↦
        rw e (AllKeys-emplace (λ j. text_less k j ≡ true) key v m e a, map_emplace-IsMap key v m h)
    | inr e ↦ elim (Bool-cases (key == k)) [
      | inl f ↦ rw (e, f) (a, h)
      | inr f ↦
          let l = less_of_differs key k e f in
          rw (e, f) ((l, All-map m (λ (j, _) b. text_less_strict key k j l b) a), (a, h))
    ]
  ]

  -- A key below all keys of the map is not found in it.
  pub map_find-none :
      (key : Bytes) (m : List (Bytes × V))
      → AllKeys (λ j. text_less key j ≡ true) m
      → map_find key m ≡ none
  unfolding map_find
  map_find-none key [] h = refl
  map_find-none key ((k, w) ∷ m) (l, h) = elim (Bool-cases (k == key)) [
    | inl e ↦
        let l' = subst (λ (j : Bytes). text_less key j ≡ true) ((list_beq_iff k key).0 e) l in
        let n = text_less_irrefl key in absurd cc
    | inr e ↦ rw e (map_find-none key m h)
  ]

  abbrev pub or_else : Option V → Option V → Option V
  or_else none o = o
  or_else (some v) o = some v

  abbrev pub only_if : Bool → V → Option V
  only_if true v = some v
  only_if false v = none

  pub map_find-emplace :
      (p key : Bytes) (v : V) (m : List (Bytes × V))
      → IsMap m
      → map_find p (map_emplace key v m) ≡ or_else (map_find p m) (only_if (key == p) v)
  unfolding map_find map_emplace
  map_find-emplace p key v [] h = elim (Bool-cases (key == p)) [
    | inl e ↦ rw e refl
    | inr e ↦ rw e refl
  ]
  map_find-emplace p key v ((k, w) ∷ m) (a, h) = elim (Bool-cases (text_less k key)) [
    | inl e ↦ rw e (elim (Bool-cases (k == p)) [
      | inl f ↦ rw f refl
      | inr f ↦ rw f (map_find-emplace p key v m h)
    ])
    | inr e ↦ elim (Bool-cases (key == k)) [
      | inl f ↦
          rw (e, f)
            (elim (Bool-cases (k == p)) [
              | inl g ↦ rw g refl
              | inr g ↦ rw g (found_already p key k (map_find p m) f g)
            ])
      | inr f ↦
          rw (e, f)
            (elim (Bool-cases (key == p)) [
              | inl g ↦ rw g (first_found p key k w m (less_of_differs key k e f) a g)
              | inr g ↦ rw g (unchanged (if k == p then some w else map_find p m))
            ])
    ]
  ]
    where
      unchanged : (o : Option V) → o ≡ or_else o none
      unchanged none = refl
      unchanged (some x) = refl

      found_already :
          (p key k : Bytes) (o : Option V)
          → (key == k) ≡ true
          → (k == p) ≡ false
          → o ≡ or_else o (only_if (key == p) v)
      found_already p key k o f g =
          let n : (key == p) ≡ false =
            subst (λ (j : Bytes). (j == p) ≡ false) (sym ((list_beq_iff key k).0 f)) g in
          rw n (unchanged o)

      first_found :
          (p key k : Bytes) (w : V) (m : List (Bytes × V))
          → text_less key k ≡ true
          → AllKeys (λ j. text_less k j ≡ true) m
          → (key == p) ≡ true
          → some v ≡ or_else (if k == p then some w else map_find p m) (some v)
      first_found p key k w m l a g =
          let n : (if k == p then some w else map_find p m) ≡ none =
            subst (λ (j : Bytes). (if k == j then some w else map_find j m) ≡ none)
              ((list_beq_iff key p).0 g)
              (map_find-none key ((k, w) ∷ m)
                (l, All-map m (λ (j, _) b. text_less_strict key k j l b) a)) in
          rw n refl
