-- ===== src/Base/Order.antt =====
-- Orders as `<` tests, and std::sort by such a test.
use Prim.Native.Nat.{ℕ, suc}
use mathlib.Core.Bool.{Bool, true, false, ◌||◌}
use mathlib.Core.Path.{◌≡◌, refl, ap, ap₂, ◌∙◌}
use mathlib.Core.Logic.{inl, inr}
use mathlib.Core.List.{List, [], ◌∷◌, Perm}
use mathlib.Core.List.Perm
use native.Mathlib.Omega.{arith}
use photobridge.Base.Tests.{Bool-cases, if◌then◌else◌}
use photobridge.Base.Lists.{All, exists, length}
use photobridge.Base.Text.{Bytes, text_less}

-- What a comparator of std::sort has to be: two values are in order where the second is not below
-- the first.
pub record IsOrder {ℓ} {A : Type ℓ} (less : A → A → Bool) : Type ℓ where
  pub asym : (a b : A) → less a b ≡ true → less b a ≡ false
  pub ordered_trans : (a b c : A) → less b a ≡ false → less c b ≡ false → less c a ≡ false

text_less_asym : (a b : Bytes) → text_less a b ≡ true → text_less b a ≡ false
text_less_asym [] [] h = cc
text_less_asym [] (d ∷ b) h = refl
text_less_asym (c ∷ a) [] h = cc
text_less_asym (c ∷ a) (d ∷ b) h = ground (arith, text_less_asym a b)

text_less_trans :
    (a b c : Bytes) → text_less b a ≡ false → text_less c b ≡ false → text_less c a ≡ false
text_less_trans [] [] c h k = k
text_less_trans [] (y ∷ b) [] h k = refl
text_less_trans [] (y ∷ b) (z ∷ c) h k = refl
text_less_trans (x ∷ a) [] c h k = cc
text_less_trans (x ∷ a) (y ∷ b) [] h k = cc
text_less_trans (x ∷ a) (y ∷ b) (z ∷ c) h k = ground (arith, text_less_trans a b c)

pub text_less_strict :
    (a b c : Bytes) → text_less a b ≡ true → text_less b c ≡ true → text_less a c ≡ true
text_less_strict [] b [] h k = ground (arith, text_less_asym [] b)
text_less_strict [] b (z ∷ c) h k = refl
text_less_strict (x ∷ a) [] c h k = cc
text_less_strict (x ∷ a) (y ∷ b) [] h k = cc
text_less_strict (x ∷ a) (y ∷ b) (z ∷ c) h k = ground (arith, text_less_strict a b c)

pub text_less_irrefl : (a : Bytes) → text_less a a ≡ false
text_less_irrefl [] = refl
text_less_irrefl (x ∷ a) = ground (arith, text_less_irrefl a)

pub text_less-IsOrder : IsOrder text_less
text_less-IsOrder = record { asym = text_less_asym; ordered_trans = text_less_trans }

-- Texts of which neither is below the other are the same.
pub text_less_antisym : (a b : Bytes) → text_less a b ≡ false → text_less b a ≡ false → a ≡ b
text_less_antisym [] [] h k = refl
text_less_antisym [] (d ∷ b) h k = cc
text_less_antisym (c ∷ a) [] h k = cc
text_less_antisym (c ∷ a) (d ∷ b) h k =
    ap₂ (λ (x : ℕ) (xs : Bytes). x ∷ xs) (ground arith)
      (text_less_antisym a b (ground arith) (ground arith))

-- Values ordered by a text that they hold.
pub IsOrder-on {ℓ} :
    {A : Type ℓ} (key : A → Bytes) → IsOrder (λ (a b : A). text_less (key a) (key b))
IsOrder-on key = record {
  asym = λ a b. text_less_asym (key a) (key b);
  ordered_trans = λ a b c. text_less_trans (key a) (key b) (key c);
}

module _ {ℓ} {A : Type ℓ} (less : A → A → Bool) where
  unfoldable pub insert_by : A → List A → List A
  insert_by x [] = x ∷ []
  insert_by x (y ∷ ys) = let rest = insert_by x ys in if less y x then y ∷ rest else x ∷ y ∷ ys

  -- std::sort
  unfoldable pub sort_by : List A → List A
  unfolding insert_by
  sort_by [] = []
  sort_by (x ∷ xs) = insert_by x (sort_by xs)

  abbrev pub IsSorted : List A → Type ℓ
  IsSorted [] = Unit
  IsSorted (x ∷ xs) = All (λ y. less y x ≡ false) xs × IsSorted xs

  insert_by-perm : (x : A) (xs : List A) → Perm (insert_by x xs) (x ∷ xs)
  unfolding insert_by
  insert_by-perm x [] = Perm.rfl
  insert_by-perm x (y ∷ ys) = elim (Bool-cases (less y x)) [
    | inl e ↦ rw e (Perm.trans (Perm.cons y (insert_by-perm x ys)) (Perm.swap x y ys))
    | inr e ↦ rw e Perm.rfl
  ]

  pub sort_by-perm : (xs : List A) → Perm (sort_by xs) xs
  unfolding sort_by
  sort_by-perm [] = Perm.rfl
  sort_by-perm (x ∷ xs) = Perm.trans (insert_by-perm x (sort_by xs)) (Perm.cons x (sort_by-perm xs))

  exists-insert_by :
      (p : A → Bool) (x : A) (xs : List A) → exists p (insert_by x xs) ≡ (p x || exists p xs)
  unfolding insert_by
  exists-insert_by p x [] = refl
  exists-insert_by p x (y ∷ ys) = elim (Bool-cases (less y x)) [
    | inl e ↦ rw e (ground (arith, exists-insert_by p x ys))
    | inr e ↦ rw e refl
  ]

  pub exists-sort_by : (p : A → Bool) (xs : List A) → exists p (sort_by xs) ≡ exists p xs
  unfolding sort_by
  exists-sort_by p [] = refl
  exists-sort_by p (x ∷ xs) =
      exists-insert_by p x (sort_by xs) ∙ ap (λ b. p x || b) (exists-sort_by p xs)

  length-insert_by : (x : A) (xs : List A) → length (insert_by x xs) ≡ suc (length xs)
  unfolding insert_by
  length-insert_by x [] = refl
  length-insert_by x (y ∷ ys) = elim (Bool-cases (less y x)) [
    | inl e ↦ rw e (ap suc (length-insert_by x ys))
    | inr e ↦ rw e refl
  ]

  pub length-sort_by : (xs : List A) → length (sort_by xs) ≡ length xs
  unfolding sort_by
  length-sort_by [] = refl
  length-sort_by (x ∷ xs) = length-insert_by x (sort_by xs) ∙ ap suc (length-sort_by xs)

  module _ {κ} (P : A → Type κ) where
    pub All-insert_by : (x : A) (xs : List A) → P x → All P xs → All P (insert_by x xs)
    unfolding insert_by
    All-insert_by x [] p h = (p, tt)
    All-insert_by x (y ∷ ys) p (q, h) = elim (Bool-cases (less y x)) [
      | inl e ↦ rw e (q, All-insert_by x ys p h)
      | inr e ↦ rw e (p, (q, h))
    ]

    pub All-sort_by : (xs : List A) → All P xs → All P (sort_by xs)
    unfolding sort_by
    All-sort_by [] h = tt
    All-sort_by (x ∷ xs) (p, h) = All-insert_by x (sort_by xs) p (All-sort_by xs h)

  module _ (o : IsOrder less) where
    All-below :
        (x y : A) (ys : List A)
        → less y x ≡ false
        → All (λ z. less z y ≡ false) ys
        → All (λ z. less z x ≡ false) ys
    All-below x y [] h k = tt
    All-below x y (z ∷ zs) h (k, ks) = (o.ordered_trans x y z h k, All-below x y zs h ks)

    insert_by-IsSorted : (x : A) (xs : List A) → IsSorted xs → IsSorted (insert_by x xs)
    unfolding insert_by
    insert_by-IsSorted x [] h = (tt, tt)
    insert_by-IsSorted x (y ∷ ys) (h, hs) = elim (Bool-cases (less y x)) [
      | inl e ↦
          rw e (
            All-insert_by (λ z. less z y ≡ false) x ys (o.asym y x e) h,
            insert_by-IsSorted x ys hs,
          )
      | inr e ↦ rw e ((e, All-below x y ys e h), (h, hs))
    ]

    pub sort_by-IsSorted : (xs : List A) → IsSorted (sort_by xs)
    unfolding sort_by
    sort_by-IsSorted [] = tt
    sort_by-IsSorted (x ∷ xs) = insert_by-IsSorted x (sort_by xs) (sort_by-IsSorted xs)
