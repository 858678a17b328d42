-- ===== src/Base/Lexicographic.antt =====
-- Comparators that look at one field after the other.
use Prim.Native.Nat.{ℕ}
use mathlib.Core.Path.{◌≡◌, sym, subst}
use mathlib.Core.Bool.{Bool, true, false}
use mathlib.Core.Logic.{inl, inr}
use native.Mathlib.Omega.{arith}
use photobridge.Base.Tests.{
  Bool-cases, Eq, if◌then◌else◌, list_eq, ltb, nat_eq, option_eq, string_eq, ◌!=◌, ◌==◌,
}
use photobridge.Base.Text.{Bytes, text_less}
use photobridge.Base.Order.{IsOrder, text_less-IsOrder, text_less_antisym}

-- An order of which the values that it does not tell apart are the same.
pub record IsStrict {κ} {K : Type κ} (lt : K → K → Bool) : Type κ where
  pub order : IsOrder lt
  pub antisym : (a b : K) → lt a b ≡ false → lt b a ≡ false → a ≡ b

pub text_less-IsStrict : IsStrict text_less
text_less-IsStrict = record { order = text_less-IsOrder; antisym = text_less_antisym }

pub ltb-IsStrict : IsStrict ltb
ltb-IsStrict = record {
  order = record { asym = λ a b h. ground arith; ordered_trans = λ a b c h k. ground arith };
  antisym = λ a b h k. ground arith;
}

module _ {ℓ κ} {A : Type ℓ} {K : Type κ} ⦃e : Eq K⦄ (key : A → K) (lt : K → K → Bool)
    (less : A → A → Bool) where
  -- if (key(a) != key(b)) return key(a) < key(b); and what follows
  abbrev pub then_by : A → A → Bool
  then_by a b = if key a != key b then lt (key a) (key b) else less a b

  module _ (s : IsStrict lt) (o : IsOrder less) where
    irrefl : (k : K) → lt k k ≡ false
    irrefl k = elim (Bool-cases (lt k k)) [ inl h ↦ s.order.asym k k h | inr h ↦ h ]

    same : (a b : A) → (key a == key b) ≡ true → key a ≡ key b
    same a b h = (e.beq_iff (key a) (key b)).0 h

    then_by-asym : (a b : A) → then_by a b ≡ true → then_by b a ≡ false
    then_by-asym a b h = elim (Bool-cases (key a == key b)) [
      | inl q ↦
          let q' : (key b == key a) ≡ true = (e.beq_iff (key b) (key a)).1 (sym (same a b q)) in
          let h' : less a b ≡ true = rw q at h in rw q' (o.asym a b h')
      | inr q ↦
          let h' : lt (key a) (key b) ≡ true = rw q at h in
          elim (Bool-cases (key b == key a)) [
            | inl p ↦ absurd (
                let n = subst (λ k. lt (key a) k ≡ false) (sym (same b a p)) (irrefl (key a)) in cc)
            | inr p ↦ rw p (s.order.asym (key a) (key b) h')
          ]
    ]

    -- What a pair in order says of its keys.
    pub keys_ordered : (a b : A) → then_by b a ≡ false → lt (key b) (key a) ≡ false
    keys_ordered a b h = elim (Bool-cases (key b == key a)) [
      | inl q ↦ subst (λ k. lt (key b) k ≡ false) (same b a q) (irrefl (key b))
      | inr q ↦ rw q at h
    ]

    pub rest_ordered : (a b : A) → key b ≡ key a → then_by b a ≡ false → less b a ≡ false
    rest_ordered a b q h = let p = (e.beq_iff (key b) (key a)).1 q in rw p at h

    then_by_trans : (a b c : A) → then_by b a ≡ false → then_by c b ≡ false → then_by c a ≡ false
    then_by_trans a b c h k =
        let ba = keys_ordered a b h in
        let cb = keys_ordered b c k in
        elim (Bool-cases (key c == key a)) [
          | inr q ↦ rw q (s.order.ordered_trans (key a) (key b) (key c) ba cb)
          | inl q ↦
              let ca = same c a q in
              let ab : lt (key a) (key b) ≡ false = subst (λ x. lt x (key b) ≡ false) ca cb in
              let b_a : key b ≡ key a = s.antisym (key b) (key a) ba ab in
              rw q (
                o.ordered_trans a b c (rest_ordered a b b_a h) (
                  rest_ordered b c
                    (s.antisym (key c) (key b) cb (subst (λ x. lt (key b) x ≡ false) (sym ca) ba))
                    k))
        ]

    pub then_by-IsOrder : IsOrder then_by
    then_by-IsOrder = record { asym = then_by-asym; ordered_trans = then_by_trans }

module _ {ℓ} {A : Type ℓ} (less : A → A → Bool) (o : IsOrder less) where
  pub then_by_text-IsOrder : (key : A → Bytes) → IsOrder (then_by key text_less less)
  then_by_text-IsOrder key = then_by-IsOrder key text_less less text_less-IsStrict o

  pub then_by_nat-IsOrder : (key : A → ℕ) → IsOrder (then_by key ltb less)
  then_by_nat-IsOrder key = then_by-IsOrder key ltb less ltb-IsStrict o

  -- What a pair in order says, key by key.
  pub text_ordered :
      (key : A → Bytes) (a b : A)
      → then_by key text_less less b a ≡ false
      → (text_less (key b) (key a) ≡ false) × (key b ≡ key a → less b a ≡ false)
  text_ordered key a b h = (
    keys_ordered key text_less less text_less-IsStrict o a b h,
    λ q. rest_ordered key text_less less text_less-IsStrict o a b q h,
  )

  pub nat_ordered :
      (key : A → ℕ) (a b : A)
      → then_by key ltb less b a ≡ false
      → (ltb (key b) (key a) ≡ false) × (key b ≡ key a → less b a ≡ false)
  nat_ordered key a b h = (
    keys_ordered key ltb less ltb-IsStrict o a b h,
    λ q. rest_ordered key ltb less ltb-IsStrict o a b q h,
  )
