-- ===== src/Base/Text.antt =====
-- Byte strings: `std::string` as the list of its bytes.
use Prim.Native.Nat.{ℕ, zero, suc, ◌+◌, ◌/◌, ◌%◌}
use Prim.Native.Char.{code}
use Prim.Native.String.{String}
use mathlib.Core.Bool.{Bool, true, false, ◌||◌, ◌&&◌}
use mathlib.Core.List.{List, [], ◌∷◌}
use photobridge.Base.Tests.{if◌then◌else◌, list_eq, ltb, nat_beq, nat_eq, option_eq, string_eq}

abbrev pub Bytes : Type 0
Bytes = List ℕ

-- The code points of a literal: its bytes, since every literal of the source is ASCII.
abbrev pub codes : String → Bytes
codes String.[] = []
codes (String.◌∷◌ c s) = code c ∷ codes s

abbrev pub is_empty : Bytes → Bool
is_empty [] = true
is_empty (c ∷ s) = false

-- value.find(byte) != npos
abbrev pub contains_byte : ℕ → Bytes → Bool
contains_byte b [] = false
contains_byte b (c ∷ s) = nat_beq c b || contains_byte b s

-- value.find('\0') != npos
abbrev pub has_nul : Bytes → Bool
has_nul = contains_byte 0

-- std::to_string, from the last digit; the fuel is above the number of digits.
unfoldable pub decimal_loop : ℕ → ℕ → Bytes → Bytes
decimal_loop zero n acc = acc
decimal_loop (suc fuel) n acc =
    let digit = b'0' + n % 10 in
    let more = decimal_loop fuel (n / 10) (digit ∷ acc) in if ltb n 10 then digit ∷ acc else more

unfoldable pub decimal : ℕ → Bytes
unfolding decimal_loop
decimal n = decimal_loop (n + 1) n []

-- `<` of std::string: byte by byte, a proper prefix first
abbrev pub text_less : Bytes → Bytes → Bool
text_less [] [] = false
text_less [] (c ∷ t) = true
text_less (c ∷ s) [] = false
text_less (c ∷ s) (d ∷ t) = ltb c d || nat_beq c d && text_less s t
