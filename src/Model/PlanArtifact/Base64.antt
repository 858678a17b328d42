-- ===== src/Model/PlanArtifact/Base64.antt =====
-- src/model/plan_artifact.cpp: Base64Encode and then Base64Decode.
use photobridge.Base.{
  All, Bool, Bool-cases, Bytes, [], ap, ap₂, arith, false, inl, inr, is_empty, length, list_eq,
  nat_beq_iff, nat_eq, option_beq, option_beq_iff, option_eq, refl, some, string_eq, subst, suc,
  sym, true, zero, ℕ, ◌!=◌, ◌%◌, ◌&&◌, ◌*◌, ◌+◌, ◌/◌, ◌<◌, ◌==◌, ◌∷◌, ◌≡◌,
}
use photobridge.Common.Status.{ok}
use photobridge.Model.PlanArtifact.{
  base64_alphabet, base64_decode, base64_digit, base64_encode, base64_value, byte_at, decode_group,
  decode_groups, sextet, valid_value,
}

-- A test that holds of all numbers below a bound.
all_below : (ℕ → Bool) → ℕ → Bool
all_below p zero = true
all_below p (suc n) = p n && all_below p n

below : (p : ℕ → Bool) (n v : ℕ) → all_below p n ≡ true → v < n → p v ≡ true
unfolding all_below
below p zero v h l = absurd (omega arith)
below p (suc n) v h l = elim (Bool-cases (v == n)) [
  | inl e ↦ subst (λ w. p w ≡ true) (sym ((nat_beq_iff v n).0 e)) (ground arith)
  | inr e ↦ below p n v (ground arith) (ground arith)
]

has_value_at : ℕ → Bool
has_value_at v =
    base64_value (byte_at v base64_alphabet) == some v && byte_at v base64_alphabet != b'='

digits_tested : all_below has_value_at 64 ≡ true
unfolding all_below has_value_at base64_value byte_at option_beq
digits_tested = refl

-- The digit of a value is read as the value, and is not the padding.
digit_read :
    (v : ℕ)
    → v < 64
    → (sextet false (byte_at v base64_alphabet) ≡ ok v)
      × ((byte_at v base64_alphabet == b'=') ≡ false)
unfolding has_value_at
digit_read v l =
    let h = below has_value_at 64 v digits_tested l in
    let e : base64_value (byte_at v base64_alphabet) ≡ some v =
      (option_beq_iff (base64_value (byte_at v base64_alphabet)) (some v)).0 (ground arith) in
    (ap valid_value e, ground arith)

-- One group of four digits, without padding.
group_read :
    (x : ℕ) (last : Bool)
    → x < 16777216
    → decode_group
        (base64_digit x 262144)
        (base64_digit x 4096)
        (base64_digit x 64)
        (base64_digit x 1)
        last
      ≡ ok (x / 65536 % 256 ∷ x / 256 % 256 ∷ x % 256 ∷ [])
unfolding decode_group
group_read x last l =
    let (r1, n1) = digit_read (x / 262144 % 64) (omega arith) in
    let (r2, n2) = digit_read (x / 4096 % 64) (omega arith) in
    let (r3, n3) = digit_read (x / 64 % 64) (omega arith) in
    let (r4, n4) = digit_read (x / 1 % 64) (omega arith) in
    let whole : x / 262144 % 64 * 262144 + x / 4096 % 64 * 4096 + x / 64 % 64 * 64 + x / 1 % 64
        ≡ x =
      omega arith in
    rw (n1, n2, n3, n4, r1, r2, r3, r4)
      (ap (λ y. ok (y / 65536 % 256 ∷ y / 256 % 256 ∷ y % 256 ∷ [])) whole)

-- A last group with one padding.
pair_read :
    (x : ℕ)
    → x < 16777216
    → x % 64 ≡ 0
    → decode_group (base64_digit x 262144) (base64_digit x 4096) (base64_digit x 64) b'=' true
      ≡ ok (x / 65536 % 256 ∷ x / 256 % 256 ∷ [])
unfolding decode_group
pair_read x l m =
    let (r1, n1) = digit_read (x / 262144 % 64) (omega arith) in
    let (r2, n2) = digit_read (x / 4096 % 64) (omega arith) in
    let (r3, n3) = digit_read (x / 64 % 64) (omega arith) in
    let whole : x / 262144 % 64 * 262144 + x / 4096 % 64 * 4096 + x / 64 % 64 * 64 + 0 ≡ x =
      omega arith in
    rw (n1, n2, n3, r1, r2, r3) (ap (λ y. ok (y / 65536 % 256 ∷ y / 256 % 256 ∷ [])) whole)

-- A last group with two paddings.
single_read :
    (x : ℕ)
    → x < 16777216
    → x % 4096 ≡ 0
    → decode_group (base64_digit x 262144) (base64_digit x 4096) b'=' b'=' true
      ≡ ok (x / 65536 % 256 ∷ [])
unfolding decode_group
single_read x l m =
    let (r1, n1) = digit_read (x / 262144 % 64) (omega arith) in
    let (r2, n2) = digit_read (x / 4096 % 64) (omega arith) in
    let whole : x / 262144 % 64 * 262144 + x / 4096 % 64 * 4096 + 0 * 64 + 0 ≡ x = omega arith in
    rw (n1, n2, r1, r2) (ap (λ y. ok (y / 65536 % 256 ∷ [])) whole)

length-base64_encode : (s : Bytes) → length (base64_encode s) % 4 ≡ 0
unfolding base64_encode
length-base64_encode [] = omega arith
length-base64_encode (a ∷ []) = omega arith
length-base64_encode (a ∷ b ∷ []) = omega arith
length-base64_encode (a ∷ b ∷ c ∷ s) = omega (arith, length-base64_encode s)

abbrev pub IsByte : ℕ → Type 0
IsByte b = b < 256

decode_groups-base64_encode : (s : Bytes) → All IsByte s → decode_groups (base64_encode s) ≡ ok s
unfolding decode_groups base64_encode
decode_groups-base64_encode [] h = refl
decode_groups-base64_encode (a ∷ []) (ha, _) =
    rw (single_read (a * 65536) (omega arith) (omega arith)) (ap (λ x. ok (x ∷ [])) (omega arith))
decode_groups-base64_encode (a ∷ b ∷ []) (ha, (hb, _)) =
    rw (pair_read (a * 65536 + b * 256) (omega arith) (omega arith))
      (ap₂ (λ x y. ok (x ∷ y ∷ [])) (omega arith) (omega arith))
decode_groups-base64_encode (a ∷ b ∷ c ∷ s) (ha, (hb, (hc, hs))) =
    rw
      (
        group_read (a * 65536 + b * 256 + c) (is_empty (base64_encode s)) (omega arith),
        decode_groups-base64_encode s hs,
      )
      (ap₂ (λ x (t : Bytes). ok (x ∷ t)) (omega arith)
        (ap₂ (λ (y z : ℕ). y ∷ z ∷ s) (omega arith) (omega arith)))

-- Base64Decode reads back the bytes that Base64Encode was given.
pub base64_decode-base64_encode :
    (s : Bytes) → All IsByte s → base64_decode (base64_encode s) ≡ ok s
unfolding base64_decode
base64_decode-base64_encode s h = rw (length-base64_encode s) (decode_groups-base64_encode s h)
