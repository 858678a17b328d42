-- ===== src/Common/Digest.antt =====
-- src/common/digest.cpp. A digest is the list of its bytes.
use photobridge.Base.{
  All, Bool-cases, Bytes, Option, Option-cases, [], ap, ap₂, arith, if◌then◌else◌, inl, inr, leb,
  length, list_eq, ltb, map, nat_beq_iff, nat_eq, none, option_eq, refl, some, string_eq, suc, zero,
  ℕ, ◌%◌, ◌&&◌, ◌*◌, ◌+◌, ◌-◌, ◌/◌, ◌<◌, ◌==◌, ◌∷◌, ◌≡◌,
}
use photobridge.Common.Status.{Result, Result-cases, fail, invalid_argument, ok, ◌>>=◌}

abbrev pub Digest : Type 0
Digest = Bytes

-- std::array<std::byte, 32>
abbrev pub IsDigest : Digest → Type 0
IsDigest d = (length d ≡ 32) × All (λ b. b < 256) d

-- kHex[n]
hex_char : ℕ → ℕ
hex_char n = if ltb n 10 then b'0' + n else b'a' + (n - 10)

-- `none` is the -1 of the source.
hex_value : ℕ → Option ℕ
hex_value c =
    if leb b'0' c && leb c b'9'
    then some (c - b'0')
    else if leb b'a' c && leb c b'f'
    then some (c - b'a' + 10)
    else if leb b'A' c && leb c b'F'
    then some (c - b'A' + 10)
    else none

unfoldable pub to_hex : Digest → Bytes
unfolding hex_char
to_hex [] = []
to_hex (b ∷ d) = hex_char (b / 16) ∷ hex_char (b % 16) ∷ to_hex d

abbrev not_hex {ℓ} : {A : Type ℓ} → Result A
not_hex = fail invalid_argument "digest hex contains a non-hexadecimal character"

byte_of : Option ℕ → Option ℕ → Result ℕ
byte_of (some high) (some low) = ok (high * 16 + low)
byte_of _ _ = not_hex

-- The loop over the pairs of characters; the length is even where it is called.
from_pairs : Bytes → Result Digest
unfolding byte_of hex_value
from_pairs (high ∷ low ∷ rest) = do
  b ← byte_of (hex_value high) (hex_value low)
  d ← from_pairs rest
  ok (b ∷ d)
from_pairs _ = ok []

unfoldable pub from_hex : Bytes → Result Digest
unfolding from_pairs
from_hex hex =
    if length hex == 64
    then from_pairs hex
    else fail invalid_argument "digest hex must contain exactly 64 characters"

hex_value-hex_char : (n : ℕ) → n < 16 → hex_value (hex_char n) ≡ some n
unfolding hex_value hex_char
hex_value-hex_char n h = ground arith

hex_value-lt : (c n : ℕ) → hex_value c ≡ some n → n < 16
unfolding hex_value
hex_value-lt c n h = ground arith

length-to_hex : (d : Digest) → length (to_hex d) ≡ 2 * length d
unfolding to_hex
length-to_hex [] = refl
length-to_hex (b ∷ d) = omega (arith, length-to_hex d)

from_pairs-to_hex : (d : Digest) → All (λ b. b < 256) d → from_pairs (to_hex d) ≡ ok d
unfolding from_pairs to_hex
from_pairs-to_hex [] h = refl
from_pairs-to_hex (b ∷ d) h =
    rw
      (
        hex_value-hex_char (b / 16) (omega arith),
        hex_value-hex_char (b % 16) (omega arith),
        from_pairs-to_hex d h.1,
      )
      (ap (λ (c : ℕ). ok (c ∷ d)) (omega arith))

-- Reading what `to_hex` printed of a digest of 32 bytes gives that digest back.
pub from_hex-to_hex : (d : Digest) → IsDigest d → from_hex (to_hex d) ≡ ok d
unfolding from_hex
from_hex-to_hex d h =
    rw ((nat_beq_iff (length (to_hex d)) 64).1 (omega (arith, length-to_hex d)))
      (from_pairs-to_hex d h.1)

-- The digits a to f of a text in lower case, other bytes as they are.
pub lower_hex : ℕ → ℕ
lower_hex c = if leb b'A' c && leb c b'F' then c + 32 else c

hex_char-hex_value : (c n : ℕ) → hex_value c ≡ some n → hex_char n ≡ lower_hex c
unfolding hex_value hex_char lower_hex
hex_char-hex_value c n h = ground arith

pair_of :
    (high low : ℕ) (rest : Bytes) (d : Digest)
    → from_pairs (high ∷ low ∷ rest) ≡ ok d
    → (m : ℕ) × (n : ℕ) × (t : Digest) × (hex_value high ≡ some m)
      × (hex_value low ≡ some n)
      × (from_pairs rest ≡ ok t)
      × (d ≡ (m * 16 + n) ∷ t)
unfolding from_pairs
pair_of high low rest d h = elim (Option-cases (hex_value high)) [
  | inl e ↦ absurd (ground arith)
  | inr (m, e) ↦ elim (Option-cases (hex_value low)) [
    | inl e' ↦ absurd (ground arith)
    | inr (n, e') ↦ elim (Result-cases (from_pairs rest)) [
      | inr (x, e'') ↦ absurd (ground arith)
      | inl (t, e'') ↦ (m, n, t, e, e', e'', ground arith)
    ]
  ]
]

empty_pairs : (d : Digest) → from_pairs [] ≡ ok d → d ≡ []
unfolding from_pairs
empty_pairs d h = ground arith

print_high :
    (c m n : ℕ) → hex_value c ≡ some m → n < 16 → hex_char ((m * 16 + n) / 16) ≡ lower_hex c
print_high c m n e l =
    let q : (m * 16 + n) / 16 ≡ m = omega arith in rw q (hex_char-hex_value c m e)

print_low : (c m n : ℕ) → hex_value c ≡ some n → hex_char ((m * 16 + n) % 16) ≡ lower_hex c
print_low c m n e =
    let l : n < 16 = hex_value-lt c n e in
    let q : (m * 16 + n) % 16 ≡ n = omega arith in rw q (hex_char-hex_value c n e)

-- A text of an even length that is read has the bytes' own print, in lower case.
from_pairs-print :
    (k : ℕ) (hex : Bytes) (d : Digest)
    → length hex ≡ 2 * k
    → from_pairs hex ≡ ok d
    → (length d ≡ k) × All (λ b. b < 256) d × (to_hex d ≡ map lower_hex hex)
unfolding to_hex
from_pairs-print k [] d l h = let e : d ≡ [] = empty_pairs d h in rw e (omega arith, tt, refl)
from_pairs-print k (high ∷ []) d l h = absurd (omega arith)
from_pairs-print zero (high ∷ low ∷ rest) d l h = absurd (omega arith)
from_pairs-print (suc k) (high ∷ low ∷ rest) d l h =
    let (m, n, t, e, e', r, q) = pair_of high low rest d h in
    let (l', b, p) = from_pairs-print k rest t (omega arith) r in
    rw q (
      omega (arith, l'),
      (omega (arith, hex_value-lt high m e, hex_value-lt low n e'), b),
      ap₂ (λ (c : ℕ) (s : Bytes). c ∷ s) (print_high high m n e (hex_value-lt low n e'))
          (ap₂ (λ (c : ℕ) (s : Bytes). c ∷ s) (print_low low m n e') p),
    )

-- What a text is read as is a digest of 32 bytes, and it prints as the text in lower case.
pub from_hex-print :
    (hex : Bytes) (d : Digest) → from_hex hex ≡ ok d → IsDigest d × (to_hex d ≡ map lower_hex hex)
unfolding from_hex
from_hex-print hex d h = elim (Bool-cases (length hex == 64)) [
  | inl e ↦
      let (l, b, p) = from_pairs-print 32 hex d ((nat_beq_iff (length hex) 64).0 e) (rw e at h) in
      ((l, b), p)
  | inr e ↦ absurd (ground arith)
]
