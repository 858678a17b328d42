-- ===== src/Base/Ascending.antt =====
-- std::sort of values with distinct keys.
use mathlib.Core.Path.{◌≡◌, sym}
use mathlib.Core.Bool.{Bool, true, false}
use mathlib.Core.Logic.{◌≢◌, inl, inr}
use mathlib.Core.List.{List, [], ◌∷◌}
use photobridge.Base.Tests.{Bool-cases, list_beq_iff, list_eq, nat_eq, option_eq, string_eq, ◌==◌}
use photobridge.Base.Lists.{All, All-map, IsDistinct}
use photobridge.Base.Text.{Bytes, text_less}
use photobridge.Base.Order.{All-insert_by, All-sort_by, insert_by, sort_by, text_less_strict}
use photobridge.Base.OrderedMap.{less_of_differs}

differs : (p q : Bytes) → p ≢ q → (q == p) ≡ false
differs p q n = elim (Bool-cases (q == p)) [
  | inl e ↦ absurd (n (sym ((list_beq_iff q p).0 e)))
  | inr e ↦ e
]

module _ {ℓ} {A : Type ℓ} (key : A → Bytes) where
  -- Every key is below those of all that come after it.
  abbrev pub Ascending : List A → Type ℓ
  Ascending [] = Unit
  Ascending (x ∷ xs) = All (λ y. text_less (key x) (key y) ≡ true) xs × Ascending xs

  -- A comparator that orders values with different keys by them.
  module _ (less : A → A → Bool)
      (by_key : (a b : A) → (key a == key b) ≡ false → less a b ≡ text_less (key a) (key b)) where
    insert_by-Ascending :
        (x : A) (xs : List A)
        → All (λ y. key x ≢ key y) xs
        → Ascending xs
        → Ascending (insert_by less x xs)
    unfolding insert_by
    insert_by-Ascending x [] n h = (tt, tt)
    insert_by-Ascending x (y ∷ ys) (n, ns) (a, h) =
        let order = by_key y x (differs (key x) (key y) n) in
        elim (Bool-cases (text_less (key y) (key x))) [
          | inl l ↦
              rw (order, l)
                (
                  All-insert_by less (λ z. text_less (key y) (key z) ≡ true) x ys l a,
                  insert_by-Ascending x ys ns h,
                )
          | inr l ↦
              let l' = less_of_differs (key x) (key y) l (differs (key y) (key x) λ q. n (sym q)) in
              rw (order, l)
                ((l', All-map ys (λ z b. text_less_strict (key x) (key y) (key z) l' b) a), (a, h))
        ]

    pub sort_by-Ascending : (xs : List A) → IsDistinct key xs → Ascending (sort_by less xs)
    unfolding sort_by
    sort_by-Ascending [] n = tt
    sort_by-Ascending (x ∷ xs) (n, ns) =
        insert_by-Ascending x (sort_by less xs) (All-sort_by less (λ y. key x ≢ key y) xs n)
          (sort_by-Ascending xs ns)
