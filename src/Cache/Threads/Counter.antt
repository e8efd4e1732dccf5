-- ===== src/Cache/Threads/Counter.antt =====
-- The counter `len` once every thread has returned.
use dnser.Base.{
  ℕ, zero, suc, ◌+◌, ◌%◌, ◌^◌, ◌≤◌, ◌<◌, ◌≡◌, refl, ap, ◌∙◌, Bool, true, ◌&&◌, List, [], ◌∷◌, ◌++◌,
  length, arith, Option-cases, inl, inr,
}
use dnser.Cache.{Shard, num_shards, empty_shards, only_question, cacheable_ttl}
use dnser.Cache.Count.{IsIteration, total}
use dnser.Cache.Keys.{HashCall}
use dnser.Cache.Reference.{CacheOp, put, reap}
use dnser.Cache.Threads.{
  Task, inserting, reaping, reaped, finished, Memory, System, Run, start, later, begin, calls, act,
  resume, is_finished,
}
use dnser.Cache.Threads.Sums.{sum_of, sum_of-split}
use dnser.Cache.Threads.Balance.{adds, subs, unstored, IsBalanced, act-Balanced}

-- The calls under way, and what `len` makes of them.
pub record IsTallied (limit : ℕ) (s : System) : Type 0 where
  pub tallied :
      (s.memory.len + sum_of adds s.tasks) % 2 ^ 64
      ≡ (total s.memory.shards + sum_of subs s.tasks) % 2 ^ 64
  pub room : total s.memory.shards + sum_of subs s.tasks + sum_of unstored s.tasks ≤ limit
  pub shards_kept : length s.memory.shards ≡ num_shards
  pub usize : s.memory.len < 2 ^ 64

IsTallied-IsBalanced :
    (limit : ℕ) (front : List Task) (t : Task) (back : List Task) (s : System)
    → s.tasks ≡ front ++ (t ∷ back)
    → IsTallied limit s
    → IsBalanced limit
        (sum_of adds (front ++ back))
        (sum_of subs (front ++ back))
        (sum_of unstored (front ++ back))
        t
        s.memory
IsTallied-IsBalanced limit front t back s e h =
    let parted : (f : Task → ℕ) → sum_of f s.tasks ≡ f t + sum_of f (front ++ back) =
      λ f. ap (sum_of f) e ∙ sum_of-split f front t back in
    record {
      balance = omega (arith, parted adds, parted subs, h.tallied);
      few = omega (arith, parted subs, parted unstored, h.room);
      sixty_four = h.shards_kept;
      small = h.usize;
    }

IsBalanced-IsTallied :
    (limit : ℕ) (front back : List Task) (t : Task) (m : Memory)
    → IsBalanced limit
        (sum_of adds (front ++ back))
        (sum_of subs (front ++ back))
        (sum_of unstored (front ++ back))
        t
        m
    → IsTallied limit (resume front back (t, m))
IsBalanced-IsTallied limit front back t m h = record {
  tallied =
      omega (arith, sum_of-split adds front t back, sum_of-split subs front t back, h.balance);
  room = omega (arith, sum_of-split subs front t back, sum_of-split unstored front t back, h.few);
  shards_kept = h.sixty_four;
  usize = h.small;
}

-- A call that has not begun is one response to store at most.
begin_sums :
    (cap : ℕ) (op : CacheOp)
    → (adds (begin cap op) ≡ 0) × (subs (begin cap op) ≡ 0) × (unstored (begin cap op) ≤ 1)
unfolding begin
begin_sums cap (put now response) = elim (Option-cases (only_question response.questions)) [
  | inl other ↦ rw (other, begin) (omega arith)
  | inr (q, one) ↦ elim (Option-cases (cacheable_ttl cap response)) [
    | inl dropped ↦ rw (one, dropped, begin) (omega arith)
    | inr (ttl, cacheable) ↦ rw (one, cacheable, begin) (omega arith)
  ]
]
begin_sums cap (reap now) = omega arith

calls_sums :
    (cap : ℕ) (ops : List CacheOp)
    → (sum_of adds (calls cap ops) ≡ 0)
      × (sum_of subs (calls cap ops) ≡ 0)
      × (sum_of unstored (calls cap ops) ≤ length ops)
calls_sums cap [] = omega arith
calls_sums cap (op ∷ ops) =
    let (p, q, r) = begin_sums cap op in
    let (p', q', r') = calls_sums cap ops in omega (arith, p, q, r, p', q', r')

abbrev pub all_finished : List Task → Bool
all_finished [] = true
all_finished (t ∷ tasks) = is_finished t && all_finished tasks

finished_sums :
    (tasks : List Task)
    → all_finished tasks ≡ true
    → (sum_of adds tasks ≡ 0) × (sum_of subs tasks ≡ 0)
finished_sums [] h = omega arith
finished_sums (finished ∷ tasks) h = let (p, q) = finished_sums tasks h in omega (arith, p, q)
finished_sums (inserting x p ∷ tasks) h = absurd (ground (arith, h))
finished_sums (reaping now j ∷ tasks) h = absurd (ground (arith, h))
finished_sums (reaped now j n ∷ tasks) h = absurd (ground (arith, h))

total-empty_shards : (n : ℕ) → (total (empty_shards n) ≡ 0) × (length (empty_shards n) ≡ n)
total-empty_shards zero = omega arith
total-empty_shards (suc n) = let (p, q) = total-empty_shards n in omega (arith, p, q)

module _ (iter : Shard → Shard) (laws : IsIteration iter) (hash_one : List HashCall → ℕ)
    (capacity cap : ℕ) (ops : List CacheOp) (fits : length ops < 2 ^ 64) where
  pub Run-IsTallied :
      {stored : List CacheOp} {s : System}
      → Run iter hash_one capacity cap ops stored s
      → IsTallied (length ops) s
  Run-IsTallied start =
      let (p, q, r) = calls_sums cap ops in
      record {
        tallied = omega (arith, p, q);
        room = omega (arith, q, r);
        shards_kept = refl;
        usize = omega arith;
      }
  Run-IsTallied (later {s = s} front t back run e able) =
      IsBalanced-IsTallied (length ops) front back (act iter hash_one capacity t s.memory).0
        (act iter hash_one capacity t s.memory).1
        (act-Balanced iter laws hash_one capacity (length ops) fits _ _ _ t s.memory
          (IsTallied-IsBalanced (length ops) front t back s e (Run-IsTallied run)))

  -- However the steps of fewer than 2 ^ 64 insertions and rounds of the reaper interleave, on a new
  -- cache of any capacity, if iterating a map visits entries of it, and some where it has any: once all
  -- of them have returned, `len` is the number of entries.
  pub len_settles :
      {stored : List CacheOp} {s : System}
      → Run iter hash_one capacity cap ops stored s
      → all_finished s.tasks ≡ true
      → s.memory.len ≡ total s.memory.shards
  len_settles {stored} {s} run done =
      let h = Run-IsTallied run in
      let (p, q) = finished_sums s.tasks done in
      omega (arith, h.tallied, h.room, h.usize, p, q, fits)
