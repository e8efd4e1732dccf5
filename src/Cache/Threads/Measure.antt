-- ===== src/Cache/Threads/Measure.antt =====
-- How many steps the calls have left.
use dnser.Base.{
  ℕ, ◌+◌, ◌-◌, ◌*◌, ◌≤◌, ◌<◌, ◌≡◌, max, Bool, true, false, List, [], ◌∷◌, length, leb, ◌==◌, arith,
  Bool-cases, Option-cases, inl, inr, if_both,
}
use dnser.Cache.{Shard, num_shards, only_question, cacheable_ttl}
use dnser.Cache.Keys.{HashCall}
use dnser.Cache.Reference.{CacheOp, put, reap}
use dnser.Cache.Threads.{
  Insertion, Phase, at_lock, at_load, at_eviction, at_sub, at_shard, at_sub_outside, at_relock,
  at_insert, at_add, Task, inserting, reaping, reaped, finished, Memory, begin, calls, act,
  insert_act, home, evicted_home, evicted_at, scan_shard, is_finished,
}
use dnser.Cache.Threads.Sums.{sum_of}

-- Steps that an insertion has left at most.
abbrev pub phase_left : Phase → ℕ
phase_left at_lock = 72
phase_left at_load = 71
phase_left at_eviction = 70
phase_left at_sub = 3
phase_left (at_shard j) = 64 - j + 5
phase_left at_sub_outside = 4
phase_left at_relock = 3
phase_left at_insert = 2
phase_left (at_add fresh) = 1

abbrev pub left : Task → ℕ
left (inserting x p) = phase_left p
left (reaping now j) = 2 * (64 - j) + 1
left (reaped now j n) = max 2 (2 * (64 - j))
left finished = 0

module _ (iter : Shard → Shard) (hash_one : List HashCall → ℕ) (capacity : ℕ) where
  abbrev Below : ℕ → Task × Memory → Type 0
  Below n (t, m) = left t < n

  evicted_home-lt :
      (x : Insertion) (m : Memory) (r : Shard × Bool)
      → Below 70 (evicted_home iter hash_one capacity x m r)
  evicted_home-lt x m (s, true) = omega arith
  evicted_home-lt x m (s, false) = omega arith

  evicted_at-lt :
      (x : Insertion) (j : ℕ) (m : Memory) (r : Shard × Bool)
      → j < 64
      → Below (phase_left (at_shard j)) (evicted_at iter hash_one capacity x j m r)
  evicted_at-lt x j m (s, true) h = omega arith
  evicted_at-lt x j m (s, false) h = omega arith

  scan_shard-lt :
      (x : Insertion) (j : ℕ) (m : Memory)
      → Below (phase_left (at_shard j)) (scan_shard iter hash_one capacity x j m)
  scan_shard-lt x j m = elim (Bool-cases (leb num_shards j)) [
    | inl behind ↦ rw behind (omega arith)
    | inr below ↦
        let h : j < 64 = ground (arith, below) in
        rw below (
          if_both (Below (phase_left (at_shard j))) (j == home iter hash_one capacity x)
            (omega arith) (evicted_at-lt x j m _ h))
  ]

  insert_act-lt :
      (x : Insertion) (p : Phase) (m : Memory)
      → Below (phase_left p) (insert_act iter hash_one capacity x p m)
  insert_act-lt x at_lock m = omega arith
  insert_act-lt x at_load m = ground arith
  insert_act-lt x at_eviction m = evicted_home-lt x m _
  insert_act-lt x at_sub m = omega arith
  insert_act-lt x (at_shard j) m = scan_shard-lt x j m
  insert_act-lt x at_sub_outside m = omega arith
  insert_act-lt x at_relock m = omega arith
  insert_act-lt x at_insert m = omega arith
  insert_act-lt x (at_add true) m = omega arith
  insert_act-lt x (at_add false) m = omega arith

  pub act-lt :
      (t : Task) (m : Memory)
      → is_finished t ≡ false
      → Below (left t) (act iter hash_one capacity t m)
  unfolding act
  act-lt (inserting x p) m h = insert_act-lt x p m
  act-lt (reaping now j) m h = elim (Bool-cases (leb num_shards j)) [
    | inl behind ↦ rw behind (omega arith)
    | inr below ↦ rw below (ground (arith, below))
  ]
  act-lt (reaped now j n) m h = omega arith
  act-lt finished m h = absurd (ground (arith, h))

left-begin : (cap : ℕ) (op : CacheOp) → left (begin cap op) ≤ 129
unfolding begin
left-begin cap (put now response) = elim (Option-cases (only_question response.questions)) [
  | inl other ↦ rw (other, begin) (omega arith)
  | inr (q, one) ↦ elim (Option-cases (cacheable_ttl cap response)) [
    | inl dropped ↦ rw (one, dropped, begin) (omega arith)
    | inr (ttl, cacheable) ↦ rw (one, cacheable, begin) (omega arith)
  ]
]
left-begin cap (reap now) = omega arith

pub left-calls : (cap : ℕ) (ops : List CacheOp) → sum_of left (calls cap ops) ≤ 129 * length ops
left-calls cap [] = omega arith
left-calls cap (op ∷ ops) = omega (arith, left-begin cap op, left-calls cap ops)
