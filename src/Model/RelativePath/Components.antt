-- ===== src/Model/RelativePath/Components.antt =====
-- src/model/relative_path.cpp: what `Parse` accepts, and what its components are.
use photobridge.Base.{
  All, Bool-cases, Bytes, List, Option, [], ap, arith, contains_byte, false, has_nul, if◌then◌else◌,
  inl, inr, is_empty, length, list_eq, nat_beq_iff, nat_eq, none, option_eq, refl, some, string_eq,
  subst, suc, sym, zero, ℕ, ◌++◌, ◌+◌, ◌==◌, ◌∙◌, ◌∷◌, ◌≡◌,
}
use photobridge.Model.RelativePath.{
  RelativePath, check_component, is_dot_component, parse, parse_loop, slash, split_component,
  starts_with_slash,
}
use photobridge.Common.Status.{Result, bind_ok, ok, ok_injective, reject_if, ◌>>=◌}

-- The components with separators between them.
abbrev pub join_after : Bytes → List Bytes → Bytes
join_after c [] = c
join_after c (d ∷ ds) = c ++ slash ∷ join_after d ds

abbrev pub join : List Bytes → Bytes
join [] = []
join (c ∷ cs) = join_after c cs

-- Neither empty, nor "." or "..", and without a separator.
abbrev pub IsComponent : Bytes → Type 0
IsComponent c =
    (is_empty c ≡ false) × (is_dot_component c ≡ false) × (contains_byte slash c ≡ false)

-- What the split leaves out is one separator.
abbrev pub rejoin : Bytes → Option Bytes → Bytes
rejoin c none = c
rejoin c (some s) = c ++ slash ∷ s

abbrev pub Splits : Bytes → Bytes × Option Bytes → Type 0
Splits s (c, r) = (rejoin c r ≡ s) × (contains_byte slash c ≡ false)

rejoin_cons :
    (c : ℕ) (component : Bytes) (rest : Option Bytes)
    → rejoin (c ∷ component) rest ≡ c ∷ rejoin component rest
rejoin_cons c component none = refl
rejoin_cons c component (some s) = refl

Splits-cons :
    (c : ℕ) (s : Bytes) (p : Bytes × Option Bytes)
    → Splits s p
    → Splits (c ∷ s) (if c == slash then ([], some s) else (c ∷ p.0, p.1))
Splits-cons c s (component, rest) (h, k) = elim (Bool-cases (c == slash)) [
  | inl e ↦ rw e (ap (λ (b : ℕ). b ∷ s) (sym ((nat_beq_iff c slash).0 e)), refl)
  | inr e ↦ rw (e, e) (rejoin_cons c component rest ∙ ap (λ (t : Bytes). c ∷ t) h, k)
]

pub split_component_lem : (s : Bytes) → Splits s (split_component s)
unfolding split_component
split_component_lem [] = (refl, refl)
split_component_lem (c ∷ s) = Splits-cons c s (split_component s) (split_component_lem s)

check_component_ok :
    (c : Bytes) {u : Unit {0}}
    → check_component c ≡ ok u
    → (is_empty c ≡ false) × (is_dot_component c ≡ false)
unfolding check_component
check_component_ok c h = (ground arith, ground arith)

-- The components of a text: at least one, and all of them good.
abbrev IsSplit : Bytes → List Bytes → Type 0
IsSplit s [] = ⊥
IsSplit s (c ∷ cs) = IsComponent c × All IsComponent cs × (join_after c cs ≡ s)

IsSplit-cons :
    (c s : Bytes) (cs : List Bytes)
    → IsComponent c
    → IsSplit s cs
    → IsSplit (c ++ slash ∷ s) (c ∷ cs)
IsSplit-cons c s [] k h = absurd h
IsSplit-cons c s (d ∷ ds) k (kd, ks, e) = (k, (kd, ks), ap (λ (t : Bytes). c ++ slash ∷ t) e)

-- One round of the loop, given what the rounds after it do.
unfoldable pub round : (Bytes → Result (List Bytes)) → Bytes × Option Bytes → Result (List Bytes)
round loop (c, rest) = check_component c >>= λ _. elim rest [
  | none ↦ ok (c ∷ [])
  | some s' ↦ loop s' >>= λ more. ok (c ∷ more)
]

round-IsSplit :
    (loop : Bytes → Result (List Bytes))
    → ((s : Bytes) (cs : List Bytes) → loop s ≡ ok cs → IsSplit s cs)
    → (s : Bytes) (p : Bytes × Option Bytes) (cs : List Bytes) → Splits s p
    → round loop p ≡ ok cs
    → IsSplit s cs
unfolding round
round-IsSplit loop ih s (c, none) cs (e, k) h =
    let (_, vc, h1) = bind_ok (check_component c) _ h in
    let (n, d) = check_component_ok c vc in subst (IsSplit s) (ok_injective h1) ((n, d, k), tt, e)
round-IsSplit loop ih s (c, some s') cs (e, k) h =
    let (_, vc, h1) = bind_ok (check_component c) _ h in
    let (n, d) = check_component_ok c vc in
    let (more, vm, h2) = bind_ok (loop s') _ h1 in
    subst (λ t. IsSplit t cs) e
      (subst (IsSplit (c ++ slash ∷ s')) (ok_injective h2)
        (IsSplit-cons c s' more (n, d, k) (ih s' more vm)))

parse_loop-IsSplit :
    (fuel : ℕ) (s : Bytes) (cs : List Bytes) → parse_loop fuel s ≡ ok cs → IsSplit s cs
unfolding parse_loop round
parse_loop-IsSplit zero s cs h = cc
parse_loop-IsSplit (suc fuel) s cs h =
    round-IsSplit (parse_loop fuel) (parse_loop-IsSplit fuel) s (split_component s) cs
      (split_component_lem s) h

IsSplit-join : (s : Bytes) (cs : List Bytes) → IsSplit s cs → All IsComponent cs × (join cs ≡ s)
IsSplit-join s [] h = absurd h
IsSplit-join s (c ∷ cs) (k, ks, e) = ((k, ks), e)

-- A path that is accepted holds the bytes that were given, no NUL, and its components are not
-- empty, not "." or "..", have no separator in them, and give those bytes when they are joined
-- with separators.
pub parse-components :
    (raw : Bytes) (p : RelativePath)
    → parse raw ≡ ok p
    → (p.raw_bytes ≡ raw)
      × (has_nul raw ≡ false)
      × All IsComponent p.components
      × (join p.components ≡ raw)
unfolding parse
parse-components raw p h =
    let (_, v1, h1) = bind_ok (reject_if (is_empty raw) _ _) _ h in
    let (_, v2, h2) = bind_ok (reject_if (has_nul raw) _ _) _ h1 in
    let (_, v3, h3) = bind_ok (reject_if (starts_with_slash raw) _ _) _ h2 in
    let (cs, vc, h4) = bind_ok (parse_loop (length raw + 1) raw) _ h3 in
    let (ks, j) = IsSplit-join raw cs (parse_loop-IsSplit (length raw + 1) raw cs vc) in
    subst
      (λ (q : RelativePath).
        (q.raw_bytes ≡ raw)
        × (has_nul raw ≡ false)
        × All IsComponent q.components
        × (join q.components ≡ raw))
      (ok_injective h4) (refl, ground arith, ks, j)
