-- ===== src/Model/CanonicalPlan/Encoding.antt =====
-- src/model/canonical_plan.cpp: what the bytes of a field tell of it, whatever follows them.
use photobridge.Base.{
  All, Bool, Bytes, List, Option, [], ap, append_assoc, ap₂, arith, false, length, none, refl, some,
  suc, sym, true, zero, ℕ, ◌%◌, ◌*◌, ◌++◌, ◌/◌, ◌<◌, ◌∙◌, ◌∷◌, ◌≡◌,
}
use photobridge.Model.FileIdentity.{FileIdentity}
use photobridge.Model.CanonicalPlan.{
  bool_bytes, each_bytes, identity_bytes, length_prefixed, low_bytes, mount_bytes, uint64_bytes,
  vector_bytes,
}

-- The bytes of a value and what follows them leave no doubt which is which.
pub record IsCode {A : Type 0} (P : A → Type 0) (f : A → Bytes) : Type 0 where
  pub read : (a b : A) (r s : Bytes) → P a → P b → f a ++ r ≡ f b ++ s → (a ≡ b) × (r ≡ s)

append_injective :
    (xs ys r s : Bytes) → length xs ≡ length ys → xs ++ r ≡ ys ++ s → (xs ≡ ys) × (r ≡ s)
append_injective [] [] r s l e = (refl, e)
append_injective [] (y ∷ ys) r s l e = absurd (omega arith)
append_injective (x ∷ xs) [] r s l e = absurd (omega arith)
append_injective (x ∷ xs) (y ∷ ys) r s l e =
    let head : x ≡ y = cc in
    let tails : xs ++ r ≡ ys ++ s = cc in
    let (p, q) = append_injective xs ys r s (omega arith) tails in
    (ap₂ (λ (z : ℕ) (zs : Bytes). z ∷ zs) head p, q)

-- 256 to the n-th
abbrev bound : ℕ → ℕ
bound zero = 1
bound (suc n) = 256 * bound n

low_bytes-read :
    (n v w : ℕ) (r s : Bytes)
    → v < bound n
    → w < bound n
    → low_bytes n v ++ r ≡ low_bytes n w ++ s
    → (v ≡ w) × (r ≡ s)
unfolding low_bytes
low_bytes-read zero v w r s h k e = (omega arith, e)
low_bytes-read (suc n) v w r s h k e =
    let head : v % 256 ≡ w % 256 = cc in
    let tails : low_bytes n (v / 256) ++ r ≡ low_bytes n (w / 256) ++ s = cc in
    let (p, q) = low_bytes-read n (v / 256) (w / 256) r s (omega arith) (omega arith) tails in
    (omega arith, q)

abbrev pub Is64Bit : ℕ → Type 0
Is64Bit v = v < 18446744073709551616

-- A text whose size is a 64-bit number.
abbrev pub IsText : Bytes → Type 0
IsText s = Is64Bit (length s)

pub uint64_bytes-IsCode : IsCode Is64Bit uint64_bytes
uint64_bytes-IsCode = record { read = λ a b r s h k. low_bytes-read 8 a b r s h k }

pub length_prefixed-IsCode : IsCode IsText length_prefixed
unfolding length_prefixed
length_prefixed-IsCode = record {
  read = λ a b r s h k e.
      let (n, t) = uint64_bytes-IsCode.read (length a) (length b) (a ++ r) (b ++ s) h k (
        sym (append_assoc (uint64_bytes (length a)) a r)
        ∙ e
        ∙ append_assoc (uint64_bytes (length b)) b s) in
      append_injective a b r s n t;
}

-- Bytes of a fixed number.
pub fixed-IsCode : (n : ℕ) → IsCode (λ (s : Bytes). length s ≡ n) (λ s. s)
fixed-IsCode n = record { read = λ a b r s h k e. append_injective a b r s (h ∙ sym k) e }

pub bool_bytes-IsCode : IsCode (λ (b : Bool). Unit {0}) bool_bytes
unfolding bool_bytes
bool_bytes-IsCode = record { read = λ a b r s h k e. read a b r s e }
  where
    read : (a b : Bool) (r s : Bytes) → bool_bytes a ++ r ≡ bool_bytes b ++ s → (a ≡ b) × (r ≡ s)
    read true true r s e = (refl, cc)
    read false false r s e = (refl, cc)
    read true false r s e = cc
    read false true r s e = cc

abbrev pub IsMount : Option ℕ → Type 0
IsMount none = Unit {0}
IsMount (some m) = Is64Bit m

mount_bytes-IsCode : IsCode IsMount mount_bytes
unfolding bool_bytes
mount_bytes-IsCode = record { read = read }
  where
    read :
        (a b : Option ℕ) (r s : Bytes)
        → IsMount a
        → IsMount b
        → mount_bytes a ++ r ≡ mount_bytes b ++ s
        → (a ≡ b) × (r ≡ s)
    read none none r s h k e = (refl, cc)
    read none (some m) r s h k e = cc
    read (some m) none r s h k e = cc
    read (some m) (some n) r s h k e =
        let tails : uint64_bytes m ++ r ≡ uint64_bytes n ++ s = cc in
        let (p, q) = uint64_bytes-IsCode.read m n r s h k tails in (ap some p, q)

module _ {A B : Type 0} where
  -- One after the other.
  pub both-IsCode :
      {P : A → Type 0} {Q : B → Type 0} {f : A → Bytes} {g : B → Bytes}
      → IsCode P f
      → IsCode Q g
      → IsCode (λ (x : A × B). P x.0 × Q x.1) (λ (x : A × B). f x.0 ++ g x.1)
  both-IsCode {f = f} {g = g} c d = record {
    read = λ (a, b) (a', b') r s (h, k) (h', k') e.
        let (p, q) =
          c.read a a' (g b ++ r) (g b' ++ s) h h'
            (sym (append_assoc (f a) (g b) r) ∙ e ∙ append_assoc (f a') (g b') s) in
        let (p', q') = d.read b b' r s k k' q in (ap₂ (λ x y. (x, y)) p p', q');
  }

  -- The code of what a value is made of is one of the value.
  pub made-IsCode :
      {P : A → Type 0} {Q : B → Type 0} {f : A → Bytes} (parts : B → A)
      → ((x : B) → Q x → P (parts x))
      → ((x y : B) → Q x → Q y → parts x ≡ parts y → x ≡ y)
      → IsCode P f
      → IsCode Q (λ x. f (parts x))
  made-IsCode parts good same c = record {
    read = λ x y r s h k e.
        let (p, q) = c.read (parts x) (parts y) r s (good x h) (good y k) e in (same x y h k p, q);
  }

module _ {A : Type 0} {P : A → Type 0} {f : A → Bytes} (c : IsCode P f) where
  each_bytes-read :
      (xs ys : List A) (r s : Bytes)
      → length xs ≡ length ys
      → All P xs
      → All P ys
      → each_bytes f xs ++ r ≡ each_bytes f ys ++ s
      → (xs ≡ ys) × (r ≡ s)
  unfolding each_bytes
  each_bytes-read [] [] r s l h k e = (refl, e)
  each_bytes-read [] (y ∷ ys) r s l h k e = absurd (omega arith)
  each_bytes-read (x ∷ xs) [] r s l h k e = absurd (omega arith)
  each_bytes-read (x ∷ xs) (y ∷ ys) r s l (h, hs) (k, ks) e =
      let (p, q) = c.read x y (each_bytes f xs ++ r) (each_bytes f ys ++ s) h k (
        sym (append_assoc (f x) (each_bytes f xs) r)
        ∙ e
        ∙ append_assoc (f y) (each_bytes f ys) s) in
      let (p', q') = each_bytes-read xs ys r s (omega arith) hs ks q in
      (ap₂ (λ (z : A) (zs : List A). z ∷ zs) p p', q')

  pub vector_bytes-IsCode :
      IsCode (λ (xs : List A). Is64Bit (length xs) × All P xs) (vector_bytes f)
  unfolding vector_bytes
  vector_bytes-IsCode = record {
    read = λ xs ys r s (h, hs) (k, ks) e.
        let (n, t) =
          uint64_bytes-IsCode.read (length xs) (length ys) (each_bytes f xs ++ r)
            (each_bytes f ys ++ s) h k
            (sym (append_assoc (uint64_bytes (length xs)) (each_bytes f xs) r)
              ∙ e
              ∙ append_assoc (uint64_bytes (length ys)) (each_bytes f ys) s) in
        each_bytes-read xs ys r s n hs ks t;
  }

-- The fields of the identity are 64 bits wide.
pub record IsWide (i : FileIdentity) : Type 0 where
  pub wide_device : Is64Bit i.device
  pub wide_inode : Is64Bit i.inode
  pub wide_size : Is64Bit i.size
  pub wide_mtime : Is64Bit i.mtime_ns
  pub wide_ctime : Is64Bit i.ctime_ns
  pub wide_mount : IsMount i.mount_id

pub identity_bytes-IsCode : IsCode IsWide identity_bytes
unfolding identity_bytes
identity_bytes-IsCode =
    let word = uint64_bytes-IsCode in
    made-IsCode (λ i. (i.device, (i.inode, (i.size, (i.mtime_ns, (i.ctime_ns, i.mount_id))))))
      (λ i h. (
        h.wide_device,
        (h.wide_inode, (h.wide_size, (h.wide_mtime, (h.wide_ctime, h.wide_mount)))),
      ))
      (λ i j h k e. λ t. record {
        device = (e t).0;
        inode = (e t).1.0;
        size = (e t).1.1.0;
        mtime_ns = (e t).1.1.1.0;
        ctime_ns = (e t).1.1.1.1.0;
        mount_id = (e t).1.1.1.1.1;
      })
      (both-IsCode word (
        both-IsCode word
          (both-IsCode word (both-IsCode word (both-IsCode word mount_bytes-IsCode)))))
