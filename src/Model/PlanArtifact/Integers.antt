-- ===== src/Model/PlanArtifact/Integers.antt =====
-- src/model/plan_artifact.cpp: the numbers of a frozen plan.
use photobridge.Base.{
  Bool-cases, Bytes, [], ap, arith, decimal, decimal_loop, false, inl, inr, is_empty, ltb, refl,
  suc, zero, ℕ, ◌%◌, ◌*◌, ◌+◌, ◌-◌, ◌/◌, ◌<◌, ◌^◌, ◌||◌, ◌∙◌, ◌∷◌, ◌≡◌,
}
use photobridge.Model.PlanArtifact.{read_digits, required_uint64}
use photobridge.Common.Status.{ok}

read_digit :
    (value n : ℕ) (s : Bytes)
    → value * 10 + n < 18446744073709551616
    → n < 10
    → read_digits value ((b'0' + n) ∷ s) ≡ read_digits (value * 10 + n) s
unfolding read_digits
read_digit value n s l d =
    let digit : (ltb (b'0' + n) b'0' || ltb b'9' (b'0' + n)) ≡ false = ground arith in
    let next : (value * 10 + (b'0' + n - b'0')) % 2 ^ 64 ≡ value * 10 + n = omega arith in
    let grows : ltb (value * 10 + n) value ≡ false = ground arith in rw (digit, next, grows) refl

read_digits-decimal_loop :
    (fuel n : ℕ) (s : Bytes)
    → n < fuel
    → n < 18446744073709551616
    → read_digits 0 (decimal_loop fuel n s) ≡ read_digits n s
unfolding decimal_loop
read_digits-decimal_loop zero n s l b = absurd (omega arith)
read_digits-decimal_loop (suc fuel) n s l b = elim (Bool-cases (ltb n 10)) [
  | inl e ↦ rw e (
      read_digit 0 (n % 10) s (omega arith) (omega arith)
      ∙ ap (λ v. read_digits v s) (ground arith))
  | inr e ↦ rw e (
      read_digits-decimal_loop fuel (n / 10) ((b'0' + n % 10) ∷ s) (ground arith) (omega arith)
      ∙ read_digit (n / 10) (n % 10) s (omega arith) (omega arith)
      ∙ ap (λ v. read_digits v s) (omega arith))
]

decimal_loop-nonempty :
    (fuel n : ℕ) (s : Bytes) → n < fuel → is_empty (decimal_loop fuel n s) ≡ false
unfolding decimal_loop
decimal_loop-nonempty zero n s l = absurd (omega arith)
decimal_loop-nonempty (suc fuel) n s l = elim (Bool-cases (ltb n 10)) [
  | inl e ↦ rw e refl
  | inr e ↦ rw e (decimal_loop-nonempty fuel (n / 10) ((b'0' + n % 10) ∷ s) (ground arith))
]

-- RequiredUint64 reads back the digits that std::to_string gives of a 64-bit number.
pub required_uint64-decimal :
    (n : ℕ) → n < 18446744073709551616 → required_uint64 (decimal n) ≡ ok n
unfolding required_uint64 decimal read_digits
required_uint64-decimal n l =
    rw (decimal_loop-nonempty (n + 1) n [] (omega arith))
      (read_digits-decimal_loop (n + 1) n [] (omega arith) l)
