-- ===== src/Cache/Threads/Balance.antt =====
-- The counter `len` under one step of a thread.
use dnser.Base.{
  ℕ, ◌+◌, ◌-◌, ◌%◌, ◌^◌, ◌≤◌, ◌<◌, ◌≡◌, refl, ◌∙◌, Bool, true, false, List, length, set, leb, ◌==◌,
  arith, Bool-cases, inl, inr, if_both,
}
use dnser.Cache.{Shard, shard_at, shard_insert, contains_key, retain, evict_one, num_shards}
use dnser.Cache.Count.{IsIteration, total, total-set, evict_one-length, length-retain}
use dnser.Cache.Keys.{HashCall, hash_key}
use dnser.Cache.Shards.{length-set, shard_index-lt}
use dnser.Cache.Threads.{
  Insertion, Phase, at_lock, at_load, at_eviction, at_sub, at_shard, at_sub_outside, at_relock,
  at_insert, at_add, Task, inserting, reaping, reaped, finished, Memory, act, insert_act, home,
  evicted_home, evicted_at, scan_shard, reap_shard,
}
use dnser.Cache.Victims.{length-remove, length-remove_missing}

-- Entries that are stored and not counted yet.
abbrev pub adds : Task → ℕ
adds (inserting x (at_add true)) = 1
adds _ = 0

-- Entries that are removed and still counted.
abbrev pub subs : Task → ℕ
subs (inserting x at_sub) = 1
subs (inserting x at_sub_outside) = 1
subs (reaped now j n) = n
subs _ = 0

abbrev pub to_store : Phase → ℕ
to_store (at_add fresh) = 0
to_store _ = 1

-- Responses that may still be stored.
abbrev pub unstored : Task → ℕ
unstored (inserting x p) = to_store p
unstored _ = 0

-- `len` counts the entries, but for those of calls under way: those of the one call `t`, and `a`, `b`
-- and `u` of the others.
pub record IsBalanced (limit a b u : ℕ) (t : Task) (m : Memory) : Type 0 where
  pub balance : (m.len + adds t + a) % 2 ^ 64 ≡ (total m.shards + subs t + b) % 2 ^ 64
  pub few : total m.shards + subs t + b + (unstored t + u) ≤ limit
  pub sixty_four : length m.shards ≡ num_shards
  pub small : m.len < 2 ^ 64

module _ (iter : Shard → Shard) (laws : IsIteration iter) (hash_one : List HashCall → ℕ)
    (capacity limit : ℕ) (fits : limit < 2 ^ 64) (a b u : ℕ) where
  abbrev pub Balanced : Task × Memory → Type 0
  Balanced (t, m) = IsBalanced limit a b u t m

  -- The call goes on and changes nothing that is counted.
  kept :
      (t t' : Task) (m : Memory)
      → adds t ≡ adds t'
      → subs t ≡ subs t'
      → unstored t ≡ unstored t'
      → IsBalanced limit a b u t m
      → IsBalanced limit a b u t' m
  kept t t' m p q r h = record {
    balance = omega (arith, p, q, h.balance);
    few = omega (arith, q, r, h.few);
    sixty_four = h.sixty_four;
    small = h.small;
  }

  evicted-total :
      (now j : ℕ) (m : Memory)
      → j < length m.shards
      → (evict_one iter now (shard_at m.shards j)).1 ≡ true
      → total (set m.shards j (evict_one iter now (shard_at m.shards j)).0) + 1 ≡ total m.shards
  evicted-total now j m h gone = omega (
    arith,
    total-set m.shards j (evict_one iter now (shard_at m.shards j)).0 h,
    evict_one-length iter laws now (shard_at m.shards j) gone,
  )

  evicted_home-Balanced :
      (x : Insertion) (m : Memory) (r : Shard × Bool)
      → IsBalanced limit a b u (inserting x at_eviction) m
      → (r.1 ≡ true → total (set m.shards (home iter hash_one capacity x) r.0) + 1 ≡ total m.shards)
      → Balanced (evicted_home iter hash_one capacity x m r)
  evicted_home-Balanced x m (s, true) h fewer = record {
    balance = omega (arith, fewer refl, h.balance);
    few = omega (arith, fewer refl, h.few);
    sixty_four = length-set m.shards _ s ∙ h.sixty_four;
    small = h.small;
  }
  evicted_home-Balanced x m (s, false) h fewer = kept _ _ m refl refl refl h

  evicted_at-Balanced :
      (x : Insertion) (j : ℕ) (m : Memory) (r : Shard × Bool)
      → IsBalanced limit a b u (inserting x (at_shard j)) m
      → (r.1 ≡ true → total (set m.shards j r.0) + 1 ≡ total m.shards)
      → Balanced (evicted_at iter hash_one capacity x j m r)
  evicted_at-Balanced x j m (s, true) h fewer = record {
    balance = omega (arith, fewer refl, h.balance);
    few = omega (arith, fewer refl, h.few);
    sixty_four = length-set m.shards _ s ∙ h.sixty_four;
    small = h.small;
  }
  evicted_at-Balanced x j m (s, false) h fewer = kept _ _ m refl refl refl h

  scan_shard-Balanced :
      (x : Insertion) (j : ℕ) (m : Memory)
      → IsBalanced limit a b u (inserting x (at_shard j)) m
      → Balanced (scan_shard iter hash_one capacity x j m)
  scan_shard-Balanced x j m h = elim (Bool-cases (leb num_shards j)) [
    | inl behind ↦ rw behind (kept _ _ m refl refl refl h)
    | inr below ↦ rw below (
        if_both Balanced (j == home iter hash_one capacity x) (kept _ _ m refl refl refl h) (
          evicted_at-Balanced x j m _ h
            (evicted-total (x.entry).inserted_at j m (ground (arith, h.sixty_four, below)))))
  ]

  stored-Balanced :
      (x : Insertion) (m : Memory)
      → IsBalanced limit a b u (inserting x at_insert) m
      → Balanced (insert_act iter hash_one capacity x at_insert m)
  stored-Balanced x m h =
      let i : ℕ = home iter hash_one capacity x in
      let shard : Shard = shard_at m.shards i in
      let size : total (set m.shards i (shard_insert x.key x.entry shard)) + length shard
          ≡ total m.shards + length (shard_insert x.key x.entry shard) =
        total-set m.shards i (shard_insert x.key x.entry shard)
          (omega (arith, h.sixty_four, shard_index-lt hash_one (hash_key x.key))) in
      elim (Bool-cases (contains_key x.key shard)) [
        | inl there ↦
            let same = length-remove x.key shard there in
            rw there (record {
              balance = omega (arith, size, same, h.balance);
              few = omega (arith, size, same, h.few);
              sixty_four = length-set m.shards i _ ∙ h.sixty_four;
              small = h.small;
            })
        | inr missing ↦
            let same = length-remove_missing x.key shard missing in
            rw missing (record {
              balance = omega (arith, size, same, h.balance);
              few = omega (arith, size, same, h.few);
              sixty_four = length-set m.shards i _ ∙ h.sixty_four;
              small = h.small;
            })
      ]

  insert_act-Balanced :
      (x : Insertion) (p : Phase) (m : Memory)
      → IsBalanced limit a b u (inserting x p) m
      → Balanced (insert_act iter hash_one capacity x p m)
  insert_act-Balanced x at_lock m h = kept _ _ m refl refl refl h
  insert_act-Balanced x at_load m h =
      if_both (λ (p : Phase). IsBalanced limit a b u (inserting x p) m) (leb capacity m.len)
        (kept _ _ m refl refl refl h) (kept _ _ m refl refl refl h)
  insert_act-Balanced x at_eviction m h = evicted_home-Balanced x m _ h (
      evicted-total (x.entry).inserted_at (home iter hash_one capacity x) m
        (omega (arith, h.sixty_four, shard_index-lt hash_one (hash_key x.key))))
  insert_act-Balanced x at_sub m h = record {
    balance = omega (arith, h.balance);
    few = omega (arith, h.few);
    sixty_four = h.sixty_four;
    small = omega arith;
  }
  insert_act-Balanced x (at_shard j) m h = scan_shard-Balanced x j m h
  insert_act-Balanced x at_sub_outside m h = record {
    balance = omega (arith, h.balance);
    few = omega (arith, h.few);
    sixty_four = h.sixty_four;
    small = omega arith;
  }
  insert_act-Balanced x at_relock m h = kept _ _ m refl refl refl h
  insert_act-Balanced x at_insert m h = stored-Balanced x m h
  insert_act-Balanced x (at_add true) m h = record {
    balance = omega (arith, h.balance);
    few = omega (arith, h.few);
    sixty_four = h.sixty_four;
    small = omega arith;
  }
  insert_act-Balanced x (at_add false) m h = kept _ _ m refl refl refl h

  reap_shard-Balanced :
      (now j : ℕ) (m : Memory)
      → IsBalanced limit a b u (reaping now j) m
      → Balanced (reap_shard iter hash_one capacity now j m)
  reap_shard-Balanced now j m h = elim (Bool-cases (leb num_shards j)) [
    | inl behind ↦ rw behind (kept _ _ m refl refl refl h)
    | inr below ↦
        let shard : Shard = shard_at m.shards j in
        let size = total-set m.shards j (retain now shard) (ground (arith, h.sixty_four, below)) in
        let same : total (set m.shards j (retain now shard))
              + (length shard - length (retain now shard))
            ≡ total m.shards =
          omega (arith, size, length-retain now shard) in
        rw below (record {
          balance = omega (arith, same, h.balance);
          few = omega (arith, same, h.few);
          sixty_four = length-set m.shards j _ ∙ h.sixty_four;
          small = h.small;
        })
  ]

  pub act-Balanced :
      (t : Task) (m : Memory)
      → IsBalanced limit a b u t m
      → Balanced (act iter hash_one capacity t m)
  unfolding act
  act-Balanced (inserting x p) m h = insert_act-Balanced x p m h
  act-Balanced (reaping now j) m h = reap_shard-Balanced now j m h
  act-Balanced (reaped now j n) m h = record {
    balance = omega (arith, h.balance, h.few, fits);
    few = omega (arith, h.few);
    sixty_four = h.sixty_four;
    small = omega arith;
  }
  act-Balanced finished m h = h
