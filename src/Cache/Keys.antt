-- ===== src/Cache/Keys.antt =====
-- crates/dnser-cache/src/lib.rs: CacheKey, and Lookup, which is hashed and compared without a copy
-- of the name.
use dnser.Base.{
  ℕ, zero, suc, ◌+◌, ◌≤◌, ◌≡◌, ◌↔◌, refl, ap, min, Bool, true, ◌&&◌, List, [], ◌∷◌, length, take,
  drop, leb, ◌==◌, if◌then◌else◌, arith,
}
use dnser.Base.Bytes.{Bytes, str_eq, str_eq_iff}
use dnser.Proto.Codes.{record_type_code}
use dnser.Proto.Question.{Question}

pub record CacheKey : Type 0 where
  pub name : Bytes
  pub qtype : ℕ
  pub qclass : ℕ

-- `to_ascii_lowercase` of a byte and of a string
unfoldable pub lowercase : ℕ → ℕ
lowercase b = if leb b'A' b && leb b b'Z' then b + 32 else b

unfoldable pub to_ascii_lowercase : Bytes → Bytes
to_ascii_lowercase [] = []
to_ascii_lowercase (b ∷ bs) = lowercase b ∷ to_ascii_lowercase bs

-- `CacheKey::from_question`
unfoldable pub from_question : Question → CacheKey
from_question q = record {
  name = to_ascii_lowercase q.name;
  qtype = record_type_code q.qtype;
  qclass = q.qclass.code;
}

pub record Lookup : Type 0 where
  pub name : Bytes
  pub qtype : ℕ
  pub qclass : ℕ

-- `Lookup::from_question`
abbrev pub lookup_from_question : Question → Lookup
lookup_from_question q = record {
  name = q.name;
  qtype = record_type_code q.qtype;
  qclass = q.qclass.code;
}

-- The calls that a `Hash` implementation makes on its `Hasher`.
pub data HashCall : Type 0 where
  write : Bytes → HashCall
  write_u8 write_u16 : ℕ → HashCall

abbrev pub max_name_len : ℕ
max_name_len = 253

-- The bytes behind the buffer, one by one.
abbrev write_each : Bytes → List HashCall → List HashCall
write_each [] after = after
write_each (b ∷ bs) after = write_u8 (lowercase b) ∷ write_each bs after

-- `<Lookup as Hash>::hash`
unfoldable pub hash_lookup : Lookup → List HashCall
hash_lookup l =
    let n = min (length l.name) max_name_len in
    write (to_ascii_lowercase (take n l.name))
    ∷ write_each (drop n l.name) (write_u8 0xFF ∷ write_u16 l.qtype ∷ write_u16 l.qclass ∷ [])

-- The derived `<CacheKey as Hash>::hash`: a string is its bytes and 0xff.
unfoldable pub hash_key : CacheKey → List HashCall
hash_key k = write k.name ∷ write_u8 0xFF ∷ write_u16 k.qtype ∷ write_u16 k.qclass ∷ []

-- `zip(…).all(|(a, b)| a.to_ascii_lowercase() == b)`
unfoldable pub all_equal : Bytes → Bytes → Bool
all_equal [] ys = true
all_equal (x ∷ xs) [] = true
all_equal (x ∷ xs) (y ∷ ys) = lowercase x == y && all_equal xs ys

-- `Lookup::equivalent`
unfoldable pub equivalent : Lookup → CacheKey → Bool
equivalent l k =
    l.qtype == k.qtype
    && l.qclass == k.qclass
    && length l.name == length k.name
    && all_equal l.name k.name

-- The derived `==` of keys
unfoldable pub same_key : CacheKey → CacheKey → Bool
same_key a b = str_eq a.name b.name && a.qtype == b.qtype && a.qclass == b.qclass

all_equal_iff :
    (xs ys : Bytes)
    → ((length xs == length ys && all_equal xs ys) ≡ true) ↔ (to_ascii_lowercase xs ≡ ys)
unfolding all_equal to_ascii_lowercase
all_equal_iff [] [] = ground arith
all_equal_iff [] (y ∷ ys) = ground arith
all_equal_iff (x ∷ xs) [] = ground arith
all_equal_iff (x ∷ xs) (y ∷ ys) = ground (arith, all_equal_iff xs ys)

pub same_key_refl : (k : CacheKey) → same_key k k ≡ true
unfolding same_key
same_key_refl k = ground (arith, str_eq_iff k.name k.name)

-- A borrowed lookup finds exactly the key that the question is stored under.
pub equivalent_iff :
    (q : Question) (k : CacheKey)
    → (equivalent (lookup_from_question q) k ≡ true) ↔ (from_question q ≡ k)
unfolding equivalent from_question
equivalent_iff q k = ground (arith, all_equal_iff q.name k.name)

take_all : (xs : Bytes) (n : ℕ) → n ≡ length xs → take n xs ≡ xs
take_all [] zero e = refl
take_all [] (suc n) e = absurd (omega arith)
take_all (x ∷ xs) zero e = absurd (omega arith)
take_all (x ∷ xs) (suc n) e = ap (◌∷◌ x) (take_all xs n (omega arith))

drop_all : (xs : Bytes) (n : ℕ) → n ≡ length xs → drop n xs ≡ []
drop_all [] zero e = refl
drop_all [] (suc n) e = refl
drop_all (x ∷ xs) zero e = absurd (omega arith)
drop_all (x ∷ xs) (suc n) e = drop_all xs n (omega arith)

-- For a name of at most 253 bytes, a borrowed lookup makes the same calls on the hasher as the key
-- that the question is stored under, so both go to the same shard and bucket.
pub hash_lookup-hash_key :
    (q : Question)
    → length q.name ≤ max_name_len
    → hash_lookup (lookup_from_question q) ≡ hash_key (from_question q)
unfolding hash_lookup hash_key from_question
hash_lookup-hash_key q h = rw (
  take_all q.name (min (length q.name) max_name_len) (omega arith),
  drop_all q.name (min (length q.name) max_name_len) (omega arith),
)
