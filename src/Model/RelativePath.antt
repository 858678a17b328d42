-- ===== src/Model/RelativePath.antt =====
-- src/model/relative_path.cpp. A parsed path holds its bytes and its components.
pub mod Components
pub mod Exactness
use photobridge.Base.{
  Bool, Bytes, List, Option, [], false, has_nul, if◌then◌else◌, is_empty, leb, length, list_eq, ltb,
  nat_eq, none, option_eq, some, string_eq, suc, zero, ℕ, ◌!=◌, ◌%◌, ◌&&◌, ◌++◌, ◌+◌, ◌-◌, ◌/◌,
  ◌==◌, ◌||◌, ◌∷◌,
}
use photobridge.Common.Status.{
  Result, Status, fail, internal, invalid_argument, ok, reject_if, ◌>>=◌, ◌>>◌,
}

pub record RelativePath : Type 0 where
  pub raw_bytes : Bytes
  pub components : List Bytes

abbrev pub slash : ℕ
slash = 0x2F

abbrev dot : ℕ
dot = 0x2E

-- find('/', start) and substr: what stands before the separator, and what follows it, if any
unfoldable pub split_component : Bytes → Bytes × Option Bytes
split_component [] = ([], none)
split_component (c ∷ s) =
    let (component, rest) = split_component s in
    if c == slash then ([], some s) else (c ∷ component, rest)

-- component == "." || component == ".."
unfoldable pub is_dot_component : Bytes → Bool
is_dot_component c = c == (dot ∷ []) || c == (dot ∷ dot ∷ [])

-- The checks on one component in the loop.
unfoldable pub check_component : Bytes → Status
unfolding is_dot_component
check_component c = do
  reject_if (is_empty c) invalid_argument "relative path must not contain empty components"
  reject_if (is_dot_component c) invalid_argument "relative path must not contain dot components"

-- The loop of `Parse`. Each round takes away one separator, so the fuel is the number of bytes
-- and one more; without fuel the error is one that `Parse` never gives.
unfoldable pub parse_loop : ℕ → Bytes → Result (List Bytes)
unfolding check_component
parse_loop zero s = fail internal "out of fuel"
parse_loop (suc fuel) s =
    let (component, rest) = split_component s in
    check_component component >>= λ _. elim rest [
      | none ↦ ok (component ∷ [])
      | some s' ↦ parse_loop fuel s' >>= λ more. ok (component ∷ more)
    ]

abbrev pub starts_with_slash : Bytes → Bool
starts_with_slash [] = false
starts_with_slash (c ∷ s) = c == slash

unfoldable pub parse : Bytes → Result RelativePath
unfolding parse_loop
parse raw = do
  reject_if (is_empty raw) invalid_argument "relative path must not be empty"
  reject_if (has_nul raw) invalid_argument "relative path must not contain NUL"
  reject_if (starts_with_slash raw) invalid_argument "relative path must not be absolute"
  components ← parse_loop (length raw + 1) raw
  ok (record { raw_bytes = raw; components = components })

upper_hex_char : ℕ → ℕ
upper_hex_char n = if ltb n 10 then b'0' + n else b'A' + (n - 10)

backslash : ℕ
backslash = 0x5C

-- One byte of `DisplayString`.
pub display_byte : ℕ → Bytes
unfolding upper_hex_char backslash
display_byte b =
    if leb 0x20 b && leb b 0x7E && b != backslash
    then b ∷ []
    else if b == backslash
    then backslash ∷ backslash ∷ []
    else backslash ∷ b'x' ∷ upper_hex_char (b / 16) ∷ upper_hex_char (b % 16) ∷ []

pub display_bytes : Bytes → Bytes
unfolding display_byte
display_bytes [] = []
display_bytes (b ∷ s) = display_byte b ++ display_bytes s

unfoldable pub display_string : RelativePath → Bytes
unfolding display_bytes
display_string p = display_bytes p.raw_bytes
