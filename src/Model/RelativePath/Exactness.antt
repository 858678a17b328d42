-- ===== src/Model/RelativePath/Exactness.antt =====
-- src/model/relative_path.cpp: which paths `Parse` accepts, and how it refuses the others.
use photobridge.Base.{
  All, Bool-cases, Bytes, List, Option, [], ap, arith, contains_byte, false, has_nul, inl, inr,
  is_empty, length, length-append, list_eq, nat_eq, none, option_eq, refl, some, string_eq, suc,
  zero, ℕ, ◌++◌, ◌+◌, ◌<◌, ◌==◌, ◌∙◌, ◌∷◌, ◌≡◌,
}
use photobridge.Common.Status.{Error, bind_err, err, invalid_argument, ok, reject_if}
use photobridge.Model.RelativePath.{
  check_component, parse, parse_loop, slash, split_component, starts_with_slash,
}
use photobridge.Model.RelativePath.Components.{
  IsComponent, Splits, join, join_after, round, split_component_lem,
}

split_component-last : (c : Bytes) → contains_byte slash c ≡ false → split_component c ≡ (c, none)
unfolding split_component
split_component-last [] k = refl
split_component-last (b ∷ c) k = elim (Bool-cases (b == slash)) [
  | inl e ↦ absurd (ground arith)
  | inr e ↦ rw (e, split_component-last c (ground arith)) refl
]

split_component-append :
    (c s : Bytes) → contains_byte slash c ≡ false → split_component (c ++ slash ∷ s) ≡ (c, some s)
unfolding split_component
split_component-append [] s k = refl
split_component-append (b ∷ c) s k = elim (Bool-cases (b == slash)) [
  | inl e ↦ absurd (ground arith)
  | inr e ↦ rw (e, split_component-append c s (ground arith)) refl
]

check_component-IsComponent : (c : Bytes) → IsComponent c → check_component c ≡ ok tt
unfolding check_component
check_component-IsComponent c (n, d, k) = rw (n, d) refl

-- Enough fuel is one more than the number of separators, which the length bounds.
parse_loop-join :
    (fuel : ℕ) (c : Bytes) (cs : List Bytes)
    → IsComponent c
    → All IsComponent cs
    → length (join_after c cs) < fuel
    → parse_loop fuel (join_after c cs) ≡ ok (c ∷ cs)
unfolding parse_loop round
parse_loop-join zero c cs k ks l = absurd (omega arith)
parse_loop-join (suc fuel) c [] (n, d, k) ks l =
    ap (round (parse_loop fuel)) (split_component-last c k)
    ∙ rw (check_component-IsComponent c (n, d, k)) refl
parse_loop-join (suc fuel) c (e ∷ es) (n, d, k) (ke, kes) l =
    ap (round (parse_loop fuel)) (split_component-append c (join_after e es) k)
    ∙ rw
        (
          check_component-IsComponent c (n, d, k),
          parse_loop-join fuel e es ke kes
              (omega (arith, length-append c (slash ∷ join_after e es))),
        )
        refl

not_absolute :
    (c : Bytes) (cs : List Bytes)
    → IsComponent c
    → (is_empty (join_after c cs) ≡ false) × (starts_with_slash (join_after c cs) ≡ false)
not_absolute [] cs (n, d, k) = cc
not_absolute (b ∷ c) [] (n, d, k) = (refl, ground arith)
not_absolute (b ∷ c) (e ∷ es) (n, d, k) = (refl, ground arith)

-- Good components, at least one and none with a NUL in it, are read back from their joined bytes.
pub parse-join :
    (c : Bytes) (cs : List Bytes)
    → All IsComponent (c ∷ cs)
    → has_nul (join (c ∷ cs)) ≡ false
    → parse (join (c ∷ cs)) ≡ ok (record { raw_bytes = join (c ∷ cs); components = c ∷ cs })
unfolding parse
parse-join c cs (k, ks) z =
    let (n, a) = not_absolute c cs k in
    rw (n, z, a, parse_loop-join (length (join_after c cs) + 1) c cs k ks (omega arith)) refl

check_component-refuses :
    (c : Bytes) {e : Error} → check_component c ≡ err e → e.code ≡ invalid_argument
unfolding check_component
check_component-refuses c h = ground arith

-- The length of what follows a separator.
Shorter : Bytes → Bytes × Option Bytes → Type 0
Shorter s (c, none) = Unit {0}
Shorter s (c, some s') = length s' < length s

Splits-Shorter : (s : Bytes) (p : Bytes × Option Bytes) → Splits s p → Shorter s p
unfolding Shorter
Splits-Shorter s (c, none) h = tt
Splits-Shorter s (c, some s') (e, k) = omega (arith, length-append c (slash ∷ s'), ap length e)

round-refuses :
    (fuel : ℕ) (s : Bytes) (p : Bytes × Option Bytes) {e : Error}
    → ((t : Bytes) → length t < fuel → parse_loop fuel t ≡ err e → e.code ≡ invalid_argument)
    → length s < suc fuel
    → Shorter s p
    → round (parse_loop fuel) p ≡ err e
    → e.code ≡ invalid_argument
unfolding round Shorter
round-refuses fuel s (c, none) ih l sh h = elim (bind_err (check_component c) _ h) [
  | inl x ↦ check_component-refuses c x
  | inr (_, _, x) ↦ cc
]
round-refuses fuel s (c, some s') ih l sh h = elim (bind_err (check_component c) _ h) [
  | inl x ↦ check_component-refuses c x
  | inr (_, _, x) ↦ elim (bind_err (parse_loop fuel s') _ x) [
    | inl y ↦ ih s' (omega arith) y
    | inr (_, _, y) ↦ cc
  ]
]

parse_loop-refuses :
    (fuel : ℕ) (s : Bytes) {e : Error}
    → length s < fuel
    → parse_loop fuel s ≡ err e
    → e.code ≡ invalid_argument
unfolding parse_loop round
parse_loop-refuses zero s l h = absurd (omega arith)
parse_loop-refuses (suc fuel) s l h =
    round-refuses fuel s (split_component s) (λ t m x. parse_loop-refuses fuel t m x) l
      (Splits-Shorter s (split_component s) (split_component_lem s)) h

-- A path that is refused is an invalid argument: the loop has always enough fuel.
pub parse-refuses : (raw : Bytes) (e : Error) → parse raw ≡ err e → e.code ≡ invalid_argument
unfolding parse
parse-refuses raw e h = elim (bind_err (reject_if (is_empty raw) _ _) _ h) [
  | inl x ↦ ground arith
  | inr (_, _, x) ↦ elim (bind_err (reject_if (has_nul raw) _ _) _ x) [
    | inl y ↦ ground arith
    | inr (_, _, y) ↦ elim (bind_err (reject_if (starts_with_slash raw) _ _) _ y) [
      | inl z ↦ ground arith
      | inr (_, _, z) ↦ elim (bind_err (parse_loop (length raw + 1) raw) _ z) [
        | inl w ↦ parse_loop-refuses (length raw + 1) raw (omega arith) w
        | inr (_, _, w) ↦ cc
      ]
    ]
  ]
]
