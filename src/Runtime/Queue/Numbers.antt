-- ===== src/Runtime/Queue/Numbers.antt =====
-- src/app/runtime_db_writer.cpp: commands and answers by their numbers.
use photobridge.Base.{List, [], ap, arith, length, refl, suc, zero, ℕ, ◌++◌, ◌∷◌, ◌≡◌}
use photobridge.Common.Status.{Error, Status}
use photobridge.Runtime.Writer.{
  Command, claim, commit_intent_command, receipt_command, retryable_command, temp_written_command,
}
use photobridge.Runtime.Queue.{commands_of, complete_each, fail_each}

-- The numbers below `n`, in order.
abbrev pub numbers_below : ℕ → List ℕ
numbers_below zero = []
numbers_below (suc n) = numbers_below n ++ n ∷ []

abbrev pub numbers {ℓ} : {A : Type ℓ} → List (ℕ × A) → List ℕ
numbers [] = []
numbers ((n, a) ∷ ts) = n ∷ numbers ts

pub numbers-append {ℓ} :
    {A : Type ℓ} (xs ys : List (ℕ × A)) → numbers (xs ++ ys) ≡ numbers xs ++ numbers ys
numbers-append [] ys = refl
numbers-append ((n, a) ∷ xs) ys = ap (λ (l : List ℕ). n ∷ l) (numbers-append xs ys)

pub complete_each-numbers :
    (ts : List (ℕ × Command)) (rs : List Status)
    → length rs ≡ length (commands_of ts)
    → numbers (complete_each ts rs) ≡ numbers ts
complete_each-numbers [] rs h = refl
complete_each-numbers ((n, c) ∷ ts) [] h = absurd (omega arith)
complete_each-numbers ((n, c) ∷ ts) (r ∷ rs) h =
    ap (λ (l : List ℕ). n ∷ l) (complete_each-numbers ts rs (omega arith))

pub fail_each-numbers :
    (e : Error) (ts : List (ℕ × Command)) → numbers (fail_each e ts) ≡ numbers ts
fail_each-numbers e [] = refl
fail_each-numbers e ((n, claim plan epoch) ∷ ts) =
    ap (λ (l : List ℕ). n ∷ l) (fail_each-numbers e ts)
fail_each-numbers e ((n, commit_intent_command plan task epoch attempt) ∷ ts) =
    ap (λ (l : List ℕ). n ∷ l) (fail_each-numbers e ts)
fail_each-numbers e ((n, temp_written_command plan task epoch attempt) ∷ ts) =
    ap (λ (l : List ℕ). n ∷ l) (fail_each-numbers e ts)
fail_each-numbers e ((n, receipt_command plan r) ∷ ts) =
    ap (λ (l : List ℕ). n ∷ l) (fail_each-numbers e ts)
fail_each-numbers e ((n, retryable_command plan task epoch attempt status) ∷ ts) =
    ap (λ (l : List ℕ). n ∷ l) (fail_each-numbers e ts)
