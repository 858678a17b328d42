-- ===== src/Runtime/Identity/RoundTrip.antt =====
-- src/app/task_runtime_repository.cpp: EncodeIdentity and then DecodeIdentity.
use photobridge.Base.{Option, arith, none, some, suc, zero, ℕ, ◌*◌, ◌/◌, ◌<◌, ◌≡◌}
use photobridge.Common.Status.{ok}
use photobridge.Model.FileIdentity.{FileIdentity}
use photobridge.Runtime.Identity.{
  decode_identity, decode_mount, decode_word, encode_identity, encode_mount, encode_word,
}

-- 256 to the n-th
abbrev words : ℕ → ℕ
words zero = 1
words (suc n) = 256 * words n

decode_word-encode_word : (n v : ℕ) → v < words n → decode_word (encode_word n v) ≡ v
unfolding decode_word encode_word
decode_word-encode_word zero v h = omega arith
decode_word-encode_word (suc n) v h =
    rw (decode_word-encode_word n (v / 256) (omega arith)) (omega arith)

abbrev Is64Bit : ℕ → Type 0
Is64Bit v = v < 18446744073709551616

abbrev Is64BitOption : Option ℕ → Type 0
Is64BitOption none = Unit {0}
Is64BitOption (some v) = Is64Bit v

-- The fields are 64 bits wide.
abbrev pub IsIdentity : FileIdentity → Type 0
IsIdentity i =
    Is64Bit i.device
    × Is64Bit i.inode
    × Is64Bit i.size
    × Is64Bit i.mtime_ns
    × Is64Bit i.ctime_ns
    × Is64BitOption i.mount_id

word : (v : ℕ) → Is64Bit v → decode_word (encode_word 8 v) ≡ v
word v h = decode_word-encode_word 8 v h

decode_fields :
    (d n z m c : ℕ) (mount : Option ℕ)
    → Is64Bit d
    → Is64Bit n
    → Is64Bit z
    → Is64Bit m
    → Is64Bit c
    → Is64BitOption mount
    → decode_identity (
        encode_identity (record {
          device = d;
          inode = n;
          size = z;
          mtime_ns = m;
          ctime_ns = c;
          mount_id = mount;
        }))
      ≡ ok
          (record { device = d; inode = n; size = z; mtime_ns = m; ctime_ns = c; mount_id = mount })
unfolding decode_identity encode_identity encode_mount decode_mount encode_word
decode_fields d n z m c none hd hn hz hm hc ho = λ i. ok (record {
  device = word d hd i;
  inode = word n hn i;
  size = word z hz i;
  mtime_ns = word m hm i;
  ctime_ns = word c hc i;
  mount_id = none;
})
decode_fields d n z m c (some v) hd hn hz hm hc ho = λ i. ok (record {
  device = word d hd i;
  inode = word n hn i;
  size = word z hz i;
  mtime_ns = word m hm i;
  ctime_ns = word c hc i;
  mount_id = some (word v ho i);
})

-- A file's identity of 64-bit fields is read back from its 49 bytes.
pub decode_identity-encode_identity :
    (i : FileIdentity) → IsIdentity i → decode_identity (encode_identity i) ≡ ok i
decode_identity-encode_identity i h =
    let (d, n, z, m, c, o) = h in
    decode_fields i.device i.inode i.size i.mtime_ns i.ctime_ns i.mount_id d n z m c o
