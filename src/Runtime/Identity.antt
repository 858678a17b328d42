-- ===== src/Runtime/Identity.antt =====
-- src/app/task_runtime_repository.cpp: the 49 bytes in which a receipt keeps a file's identity.
-- `memcpy` of a 64-bit field writes its bytes in little-endian order, as on the hosts the program
-- is built for.
pub mod RoundTrip
use photobridge.Base.{
  Bytes, Option, [], drop, if◌then◌else◌, length, list_eq, nat_eq, none, option_eq, some, string_eq,
  suc, take, zero, ℕ, ◌!=◌, ◌%◌, ◌*◌, ◌++◌, ◌+◌, ◌/◌, ◌==◌, ◌∷◌,
}
use photobridge.Common.Status.{Result, fail, internal, ok, reject_if, ◌>>=◌, ◌>>◌}
use photobridge.Model.FileIdentity.{FileIdentity, identity_eq}

-- The `n` low bytes of a number, the lowest first.
unfoldable pub encode_word : ℕ → ℕ → Bytes
encode_word zero v = []
encode_word (suc n) v = v % 256 ∷ encode_word n (v / 256)

unfoldable pub decode_word : Bytes → ℕ
decode_word [] = 0
decode_word (b ∷ s) = b + 256 * decode_word s

unfoldable pub encode_mount : Option ℕ → Bytes
encode_mount none = 0 ∷ encode_word 8 0
encode_mount (some m) = 1 ∷ encode_word 8 m

unfoldable pub encode_identity : FileIdentity → Bytes
unfolding encode_mount
encode_identity i =
    encode_word 8 i.device
    ++ (encode_word 8 i.inode
        ++ (encode_word 8 i.size
            ++ (encode_word 8 i.mtime_ns ++ (encode_word 8 i.ctime_ns ++ encode_mount i.mount_id))))

-- The eight bytes from an offset.
abbrev pub word_at : ℕ → Bytes → ℕ
word_at offset s = decode_word (take 8 (drop offset s))

unfoldable pub decode_mount : Bytes → Result (Option ℕ)
decode_mount [] = fail internal "verified receipt has an invalid mount id marker"
decode_mount (b ∷ s) =
    if b == 1
    then ok (some (decode_word (take 8 s)))
    else if b != 0
    then fail internal "verified receipt has an invalid mount id marker"
    else ok none

unfoldable pub decode_identity : Bytes → Result FileIdentity
unfolding decode_mount
decode_identity s = do
  reject_if (length s != 49) internal "verified receipt has an invalid source identity"
  mount ← decode_mount (drop 40 s)
  ok (record {
    device = word_at 0 s;
    inode = word_at 8 s;
    size = word_at 16 s;
    mtime_ns = word_at 24 s;
    ctime_ns = word_at 32 s;
    mount_id = mount;
  })
