-- ===== src/Cache.antt =====
-- crates/dnser-cache/src/lib.rs. Time is in nanoseconds. A method runs as one step; Threads has the
-- steps of threads. A shard's `HashMap` is an association list; the order
-- in which it is iterated, and the hasher with its random keys, are parameters.
pub mod Keys
pub mod Shards
pub mod Hits
pub mod Victims
pub mod Count
pub mod Entries
pub mod Reference
pub mod Distinct
pub mod Refinement
pub mod Keeps
pub mod Exact
pub mod Bounded
pub mod Threads
use dnser.Base.{
  ℕ, zero, suc, ◌+◌, ◌-◌, ◌*◌, ◌/◌, ◌%◌, ◌^◌, ◌≤◌, ◌≡◌, ◌≢◌, refl, min, Bool, true, false, Option,
  none, some, List, [], ◌∷◌, length, get_elem?, set, All, leb, ◌==◌, if◌then◌else◌, bit_and, Result,
  ok, err, stuck, is_empty,
}
use dnser.Proto.Codes
use dnser.Proto.Codes.{Rcode}
use dnser.Proto.Header.{is_truncated, rcode}
use dnser.Proto.Message.{Message}
use dnser.Proto.Question.{Question}
use dnser.Proto.Rdata
use dnser.Proto.Rdata.{RData}
use dnser.Proto.Record.{ResourceRecord}
use Keys.{
  CacheKey, Lookup, HashCall, from_question, lookup_from_question, hash_lookup, hash_key,
  equivalent, same_key,
}

pub record CacheEntry : Type 0 where
  pub response : Message
  pub inserted_at : ℕ
  pub expires_at : ℕ

abbrev pub Shard : Type 0
Shard = List (CacheKey × CacheEntry)

abbrev pub num_shards : ℕ
num_shards = 64

-- `Duration::from_secs` and `as_secs`
abbrev pub from_secs : ℕ → ℕ
from_secs secs = secs * 10 ^ 9

abbrev pub as_secs : ℕ → ℕ
as_secs d = d / 10 ^ 9

pub record Cache : Type 0 where
  pub shards : List Shard
  pub capacity : ℕ
  pub len : ℕ
  pub max_negative_ttl : ℕ

-- `AtomicUsize::fetch_sub` and `fetch_add` wrap around.
abbrev pub fetch_sub : ℕ → ℕ → ℕ
fetch_sub len n = (len + 2 ^ 64 - n) % 2 ^ 64

abbrev pub fetch_add : ℕ → ℕ → ℕ
fetch_add len n = (len + n) % 2 ^ 64

abbrev pub empty_shards : ℕ → List Shard
empty_shards zero = []
empty_shards (suc n) = [] ∷ empty_shards n

unfoldable pub new : ℕ → ℕ → Cache
new capacity max_negative_ttl = record {
  shards = empty_shards num_shards;
  capacity = capacity;
  len = 0;
  max_negative_ttl = max_negative_ttl;
}

-- `shard.get(&lookup)`
unfoldable pub find_lookup : Lookup → Shard → Option CacheEntry
find_lookup l [] = none
find_lookup l ((k, e) ∷ rest) = if equivalent l k then some e else find_lookup l rest

-- Whether a key is in the map.
unfoldable pub contains_key : CacheKey → Shard → Bool
contains_key key [] = false
contains_key key ((k, e) ∷ rest) = if same_key k key then true else contains_key key rest

-- `shard.remove(&k)`: a key is there once at most.
unfoldable pub remove : CacheKey → Shard → Shard
remove key [] = []
remove key ((k, e) ∷ rest) = if same_key k key then rest else (k, e) ∷ remove key rest

-- `shard.insert(key, entry)`
abbrev pub shard_insert : CacheKey → CacheEntry → Shard → Shard
shard_insert key entry shard = (key, entry) ∷ remove key shard

unfoldable pub rewrite_ttls : List ResourceRecord → ℕ → List ResourceRecord
rewrite_ttls [] elapsed = []
rewrite_ttls (rr ∷ rrs) elapsed = record rr { ttl = rr.ttl - elapsed } ∷ rewrite_ttls rrs elapsed

-- The response as it is handed out `elapsed` seconds later.
abbrev pub rewritten : Message → ℕ → Message
rewritten m elapsed = record m {
  answers = rewrite_ttls m.answers elapsed;
  authority = rewrite_ttls m.authority elapsed;
  additional = rewrite_ttls m.additional elapsed;
}

-- The first record that is an SOA; no other has a negative ttl.
abbrev pub record_negative_ttl : ℕ → RData → Option ℕ
record_negative_ttl ttl (Rdata.soa mname rname serial refresh retry expire minimum) =
    some (min ttl minimum)
record_negative_ttl ttl _ = none

unfoldable pub soa_negative_ttl : List ResourceRecord → Option ℕ
soa_negative_ttl [] = none
soa_negative_ttl (rr ∷ rrs) = elim (record_negative_ttl rr.ttl rr.rdata) [
  | some t ↦ some t
  | none ↦ soa_negative_ttl rrs
]

-- `iter().map(|r| r.ttl).min()`
abbrev pub min_ttl_from : ℕ → List ResourceRecord → ℕ
min_ttl_from t [] = t
min_ttl_from t (rr ∷ rrs) = min_ttl_from (min t rr.ttl) rrs

unfoldable pub min_ttl : List ResourceRecord → Option ℕ
min_ttl [] = none
min_ttl (rr ∷ rrs) = some (min_ttl_from rr.ttl rrs)

abbrev pub capped : ℕ → Option ℕ → Option ℕ
capped cap none = none
capped cap (some t) = some (min t cap)

-- `effective_ttl`; the early returns are `none` too.
abbrev pub rcode_ttl : ℕ → Message → Result ℕ Rcode → Option ℕ
rcode_ttl cap m (ok Codes.no_error) =
    if is_empty m.answers then capped cap (soa_negative_ttl m.authority) else min_ttl m.answers
rcode_ttl cap m (ok Codes.nx_domain) = capped cap (soa_negative_ttl m.authority)
rcode_ttl cap m _ = none

-- `Some(0) | None => return`
abbrev pub positive : Option ℕ → Option ℕ
positive none = none
positive (some zero) = none
positive (some (suc t)) = some (suc t)

unfoldable pub cacheable_ttl : ℕ → Message → Option ℕ
cacheable_ttl cap m =
    if is_truncated m.header then none else positive (rcode_ttl cap m (rcode m.header))

-- `let [question] = response.questions.as_slice()`
abbrev pub only_question : List Question → Option Question
only_question [] = none
only_question (q ∷ []) = some q
only_question (q ∷ _ ∷ _) = none

-- The search of `evict_one`: the first expired key, else the first key.
unfoldable pub victim : ℕ → Option CacheKey → Shard → Option CacheKey
victim now first [] = first
victim now first ((k, e) ∷ rest) =
    if leb e.expires_at now
    then some k
    else victim now (elim first [ none ↦ some k | some k₀ ↦ some k₀ ]) rest

-- `retain(|_, v| now < v.expires_at)`
unfoldable pub retain : ℕ → Shard → Shard
retain now [] = []
retain now ((k, e) ∷ rest) =
    let kept = retain now rest in if leb e.expires_at now then kept else (k, e) ∷ kept

-- The loop of `evict_expired`.
unfoldable pub evict_shards : ℕ → List Shard → ℕ → List Shard × ℕ
evict_shards now [] len = ([], len)
evict_shards now (s ∷ rest) len =
    let (rest', len') = evict_shards now rest (fetch_sub len (length s - length (retain now s))) in
    (retain now s ∷ rest', len')

unfoldable pub evict_expired : ℕ → Cache → Cache
evict_expired now c =
    let (shards, len) = evict_shards now c.shards c.len in record c { shards = shards; len = len }

-- An index is below 64, so it is never out of range.
abbrev pub shard_at : List Shard → ℕ → Shard
shard_at shards i = elim (get_elem? shards i) [ some s ↦ s | none ↦ [] ]

unfoldable pub add_entry : ℕ → CacheKey → CacheEntry → Cache → Cache
add_entry i key entry c =
    let shard = shard_at c.shards i in
    record c {
      shards = set c.shards i (shard_insert key entry shard);
      len = if contains_key key shard then c.len else fetch_add c.len 1;
    }

-- A hit, unless it has expired.
abbrev pub hit : ℕ → CacheEntry → Option Message
hit now e =
    if leb e.expires_at now
    then none
    else some (rewritten e.response (min (as_secs (now - e.inserted_at)) (2 ^ 32 - 1)))

-- `hash_one` is the hash of a value by the calls it makes on the hasher.
module _ (hash_one : List HashCall → ℕ) where
  unfoldable pub shard_index : List HashCall → ℕ
  shard_index calls = bit_and (hash_one calls) (num_shards - 1)

  unfoldable pub get : ℕ → Question → Cache → Option Message
  get now q c =
      let l = lookup_from_question q in
      elim (find_lookup l (shard_at c.shards (shard_index (hash_lookup l)))) [
        | none ↦ none
        | some e ↦ hit now e
      ]

-- `iter` gives the entries of a map in the order they are visited.
module _ (iter : Shard → Shard) where
  -- Whether an entry was removed is the second part.
  unfoldable pub evict_one : ℕ → Shard → Shard × Bool
  evict_one now shard = elim (victim now none (iter shard)) [
    | some k ↦ (remove k shard, true)
    | none ↦ (shard, false)
  ]

  -- The loop over the other shards.
  unfoldable pub evict_others : ℕ → ℕ → ℕ → List Shard → List Shard × Bool
  evict_others now skip i [] = ([], false)
  evict_others now skip i (s ∷ rest) =
      let (rest', gone) = evict_others now skip (i + 1) rest in
      let (s', here) = evict_one now s in
      if i == skip then (s ∷ rest', gone) else if here then (s' ∷ rest, true) else (s ∷ rest', gone)

  -- The capacity is enforced before `insert` adds to shard `i`.
  unfoldable pub make_room : ℕ → ℕ → Cache → Cache
  make_room now i c =
      let (s, here) = evict_one now (shard_at c.shards i) in
      let (others, gone) = evict_others now i 0 c.shards in
      if leb c.capacity c.len
      then (if here
          then record c { shards = set c.shards i s; len = fetch_sub c.len 1 }
          else if gone
          then record c { shards = others; len = fetch_sub c.len 1 }
          else c)
      else c

-- `insert`, once the question and the ttl are known.
module _ (iter : Shard → Shard) (hash_one : List HashCall → ℕ) where
  unfoldable pub store : ℕ → Message → Question → ℕ → Cache → Cache
  store now response q ttl c =
      let key = from_question q in
      let i = shard_index hash_one (hash_key key) in
      let entry : CacheEntry = record {
        response = response;
        inserted_at = now;
        expires_at = now + from_secs ttl;
      } in
      add_entry i key entry (make_room iter now i c)

  unfoldable pub insert : ℕ → Message → Cache → Cache
  insert now response c = elim (only_question response.questions) [
    | none ↦ c
    | some q ↦ elim (cacheable_ttl c.max_negative_ttl response) [
      | none ↦ c
      | some ttl ↦ store now response q ttl c
    ]
  ]
