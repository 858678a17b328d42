-- ===== src/Model/PlanArtifact.antt =====
-- src/model/plan_artifact.cpp: the texts by which a frozen plan keeps bytes and numbers in JSON.
-- Shifts and masks of disjoint bits are written as quotients, remainders and sums.
pub mod Base64
pub mod Integers
use photobridge.Base.{
  Bool, Bytes, Option, [], codes, false, if◌then◌else◌, is_empty, leb, length, list_eq, ltb, nat_eq,
  none, not, option_eq, some, string_eq, suc, true, zero, ℕ, ◌!=◌, ◌%◌, ◌&&◌, ◌*◌, ◌++◌, ◌+◌, ◌-◌,
  ◌/◌, ◌==◌, ◌^◌, ◌||◌, ◌∷◌,
}
use photobridge.Common.Status.{Result, fail, invalid_argument, ok, reject_if, ◌>>=◌, ◌>>◌}

abbrev pub base64_alphabet : Bytes
base64_alphabet = codes "ABCDEFGHIJKLMNOPQRSTUVWXYZabcdefghijklmnopqrstuvwxyz0123456789+/"

-- The byte at an index, or 0 past the end, where the source never is.
unfoldable pub byte_at : ℕ → Bytes → ℕ
byte_at n [] = 0
byte_at zero (b ∷ s) = b
byte_at (suc n) (b ∷ s) = byte_at n s

-- kBase64Alphabet[(combined >> …) & 0x3F], for the number of bits shifted as a divisor
abbrev pub base64_digit : ℕ → ℕ → ℕ
base64_digit combined divisor = byte_at (combined / divisor % 64) base64_alphabet

-- Base64Encode
unfoldable pub base64_encode : Bytes → Bytes
base64_encode [] = []
base64_encode (a ∷ []) =
    let combined = a * 65536 in
    base64_digit combined 262144 ∷ base64_digit combined 4096 ∷ b'=' ∷ b'=' ∷ []
base64_encode (a ∷ b ∷ []) =
    let combined = a * 65536 + b * 256 in
    base64_digit combined 262144 ∷ base64_digit combined 4096 ∷ base64_digit combined 64 ∷ b'=' ∷ []
base64_encode (a ∷ b ∷ c ∷ s) =
    let combined = a * 65536 + b * 256 + c in
    base64_digit combined 262144
    ∷ base64_digit combined 4096
    ∷ base64_digit combined 64
    ∷ base64_digit combined 1
    ∷ base64_encode s

-- Base64Value, `none` for -1
unfoldable pub base64_value : ℕ → Option ℕ
base64_value v =
    if leb b'A' v && leb v b'Z'
    then some (v - b'A')
    else if leb b'a' v && leb v b'z'
    then some (v - b'a' + 26)
    else if leb b'0' v && leb v b'9'
    then some (v - b'0' + 52)
    else if v == b'+'
    then some 62
    else if v == b'/'
    then some 63
    else none

abbrev pub valid_value : Option ℕ → Result ℕ
valid_value none = fail invalid_argument "base64 value contains an invalid character"
valid_value (some n) = ok n

-- A value of the group; padding counts as 0.
abbrev pub sextet : Bool → ℕ → Result ℕ
sextet true v = ok 0
sextet false v = valid_value (base64_value v)

-- The one to three bytes of a group.
abbrev pub group_bytes : Bool → Bool → ℕ → Bytes
group_bytes third_padding fourth_padding combined =
    combined / 65536 % 256 ∷ (if third_padding then [] else combined / 256 % 256 ∷ [])
    ++ (if fourth_padding then [] else combined % 256 ∷ [])

-- One round of the loop of Base64Decode, of which `last` says that it is the last.
unfoldable pub decode_group : ℕ → ℕ → ℕ → ℕ → Bool → Result Bytes
decode_group a b c d last = do
  let third_padding = c == b'='
  let fourth_padding = d == b'='
  reject_if (a == b'=' || b == b'=' || third_padding && not fourth_padding) invalid_argument
      "base64 value has invalid padding"
  first ← sextet false a
  second ← sextet false b
  third ← sextet third_padding c
  fourth ← sextet fourth_padding d
  reject_if (third_padding && not last) invalid_argument "base64 padding must occur only at the end"
  reject_if (fourth_padding && not last) invalid_argument
      "base64 padding must occur only at the end"
  ok (
      group_bytes third_padding fourth_padding
        (first * 262144 + second * 4096 + third * 64 + fourth))

-- The loop, on a text whose length is a multiple of four.
unfoldable pub decode_groups : Bytes → Result Bytes
decode_groups (a ∷ b ∷ c ∷ d ∷ s) = do
  group ← decode_group a b c d (is_empty s)
  more ← decode_groups s
  ok (group ++ more)
decode_groups _ = ok []

-- Base64Decode
unfoldable pub base64_decode : Bytes → Result Bytes
base64_decode s = do
  reject_if (length s % 4 != 0) invalid_argument "base64 value length must be a multiple of four"
  decode_groups s

-- The loop over the digits in RequiredUint64, in std::uint64_t. Its messages end with the key.
unfoldable pub read_digits : ℕ → Bytes → Result ℕ
read_digits value [] = ok value
read_digits value (digit ∷ s) =
    let next = (value * 10 + (digit - b'0')) % 2 ^ 64 in
    reject_if (ltb digit b'0' || ltb b'9' digit) invalid_argument
      "plan JSON integer string is invalid"
    >> reject_if (ltb next value) invalid_argument "plan JSON integer string overflows"
    >> read_digits next s

-- RequiredUint64, for a field that is a string
unfoldable pub required_uint64 : Bytes → Result ℕ
required_uint64 s = do
  reject_if (is_empty s) invalid_argument "plan JSON integer string must not be empty"
  read_digits 0 s
