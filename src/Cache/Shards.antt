-- ===== src/Cache/Shards.antt =====
-- The shards under the methods of the cache: their number, and what is found in one.
use dnser.Base.{
  ℕ, zero, suc, ◌+◌, ◌<◌, ◌≡◌, refl, none, some, List, [], ◌∷◌, length, get_elem?, set, arith,
}
use dnser.Base.Bits.{and_low}
use dnser.Cache.{
  Cache, Shard, shard_at, evict_one, evict_others, make_room, shard_index, insert, store,
  only_question, cacheable_ttl,
}
use dnser.Proto.Message.{Message}
use dnser.Proto.Question.{Question}
use dnser.Cache.Keys.{HashCall}

module _ {A : Type 0} where
  pub length-set : (xs : List A) (i : ℕ) (x : A) → length (set xs i x) ≡ length xs
  length-set [] i x = refl
  length-set (y ∷ ys) zero x = refl
  length-set (y ∷ ys) (suc i) x = omega (arith, length-set ys i x)

  pub get_elem?-set :
      (xs : List A) (i : ℕ) (x : A) → i < length xs → get_elem? (set xs i x) i ≡ some x
  get_elem?-set [] i x h = absurd (omega arith)
  get_elem?-set (y ∷ ys) zero x h = refl
  get_elem?-set (y ∷ ys) (suc i) x h = get_elem?-set ys i x (omega arith)

module _ (iter : Shard → Shard) where
  length-evict_others :
      (now skip i : ℕ) (shards : List Shard)
      → length (evict_others iter now skip i shards).0 ≡ length shards
  unfolding evict_others
  length-evict_others now skip i [] = refl
  length-evict_others now skip i (s ∷ rest) =
      ground (arith, length-evict_others now skip (i + 1) rest)

  pub length-make_room :
      (now i : ℕ) (c : Cache) → length (make_room iter now i c).shards ≡ length c.shards
  unfolding make_room
  length-make_room now i c = ground (
    arith,
    length-set c.shards i (evict_one iter now (shard_at c.shards i)).0,
    length-evict_others now i 0 c.shards,
  )

pub shard_at-set :
    (shards : List Shard) (i : ℕ) (s : Shard) → i < length shards → shard_at (set shards i s) i ≡ s
shard_at-set shards i s h = ground (arith, get_elem?-set shards i s h)

pub shard_index-lt :
    (hash_one : List HashCall → ℕ) (calls : List HashCall) → shard_index hash_one calls < 64
unfolding shard_index
shard_index-lt hash_one calls = omega (arith, and_low 6 (hash_one calls) 63 refl)

module _ (iter : Shard → Shard) (hash_one : List HashCall → ℕ) where
  -- Anything but one question.
  pub insert_no_question :
      (now : ℕ) (m : Message) (c : Cache)
      → only_question m.questions ≡ none
      → insert iter hash_one now m c ≡ c
  unfolding insert
  insert_no_question now m c other = ground (arith, other)

  pub insert_not_cacheable :
      (now : ℕ) (m : Message) (q : Question) (c : Cache)
      → only_question m.questions ≡ some q
      → cacheable_ttl c.max_negative_ttl m ≡ none
      → insert iter hash_one now m c ≡ c
  unfolding insert
  insert_not_cacheable now m q c one dropped = ground (arith, one, dropped)

  pub insert-store :
      (now : ℕ) (m : Message) (q : Question) (ttl : ℕ) (c : Cache)
      → only_question m.questions ≡ some q
      → cacheable_ttl c.max_negative_ttl m ≡ some ttl
      → insert iter hash_one now m c ≡ store iter hash_one now m q ttl c
  unfolding insert
  insert-store now m q ttl c one cacheable = ground (arith, one, cacheable)
