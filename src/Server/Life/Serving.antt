-- ===== src/Server/Life/Serving.antt =====
-- A server until a signal comes or its handle is dropped.
use dnser.Base.{
  ℕ, zero, suc, ◌≡◌, refl, subst, Bool, true, false, some, List, [], ◌∷◌, get_elem?, set, All,
  arith, Bool-cases, Option-cases, inl, inr,
}
use dnser.Cache.{Cache, Shard}
use dnser.Cache.Keys.{HashCall}
use dnser.Server.Life.{
  Life, LifeEvent, worker, tcp, tick, store, signal, handle_dropped, hears, tcp_hears, react, live,
  spawned, all_returned,
}
use dnser.Server.Tasks.{
  Pool, Event, received, recv_error, task_ends, joined, shutdown, join_set_empty, drain_timeout,
  Workers, step, transition, fresh_pools, serving,
}
use dnser.Server.Tasks.Accept
use dnser.Server.Tasks.Accept.{tcp_transition}

abbrev pub Unsignalled : List LifeEvent → Type 0
Unsignalled [] = Unit
Unsignalled (worker i e ∷ events) = Unsignalled events
Unsignalled (tcp e ∷ events) = Unsignalled events
Unsignalled (tick now ∷ events) = Unsignalled events
Unsignalled (store now m ∷ events) = Unsignalled events
Unsignalled (signal ∷ events) = ⊥
Unsignalled (handle_dropped ∷ events) = ⊥

abbrev pub InLoop : Pool → Type 0
InLoop p = p.mode ≡ serving

-- Every worker and the listener are in their loops, the reaper runs, and `changed()` has not returned.
pub record IsServing (s : Life) : Type 0 where
  pub workers_serve : All InLoop s.workers.pools
  pub listens : s.listener.listening ≡ true
  pub reaps : s.reaping ≡ true
  pub silent : s.signalled ≡ false

InLoop-transition :
    (e : Event) (permits : ℕ) (p : Pool)
    → hears false e ≡ true
    → InLoop p
    → InLoop (transition e permits p).1
unfolding transition
InLoop-transition received permits p heard h = ground (arith, h)
InLoop-transition recv_error permits p heard h = h
InLoop-transition task_ends permits p heard h = ground (arith, h)
InLoop-transition joined permits p heard h = h
InLoop-transition shutdown permits p heard h = absurd (ground (arith, heard))
InLoop-transition join_set_empty permits p heard h = ground (arith, h)
InLoop-transition drain_timeout permits p heard h = ground (arith, h)

module _ {A : Type 0} (P : A → Type 0) where
  All-at : (xs : List A) (i : ℕ) (x : A) → All P xs → get_elem? xs i ≡ some x → P x
  All-at [] i x h e = absurd (ground (arith, e))
  All-at (y ∷ ys) zero x (h, hs) e = let same : y ≡ x = ground (arith, e) in subst P same h
  All-at (y ∷ ys) (suc i) x (h, hs) e = All-at ys i x hs e

  All-set : (xs : List A) (i : ℕ) (x : A) → All P xs → P x → All P (set xs i x)
  All-set [] i x h p = tt
  All-set (y ∷ ys) zero x (h, hs) p = (p, hs)
  All-set (y ∷ ys) (suc i) x (h, hs) p = (h, All-set ys i x hs p)

InLoop-step :
    (i : ℕ) (e : Event) (w : Workers)
    → hears false e ≡ true
    → All InLoop w.pools
    → All InLoop (step i e w).pools
unfolding step
InLoop-step i e w heard h = elim (Option-cases (get_elem? w.pools i)) [
  | inl missing ↦ rw (missing, step) h
  | inr (p, found) ↦
      rw (found, step)
        (All-set InLoop w.pools i _ h
          (InLoop-transition e w.permits p heard (All-at InLoop w.pools i p h found)))
]

still_listens :
    (e : Accept.TcpEvent) (s : Accept.Listener)
    → tcp_hears false e ≡ true
    → s.listening ≡ true
    → (tcp_transition e s).listening ≡ true
unfolding tcp_transition
still_listens Accept.accepted s heard h = ground (arith, h)
still_listens Accept.accept_error s heard h = h
still_listens Accept.connection_ends s heard h = ground (arith, h)
still_listens Accept.shutdown s heard h = absurd (ground (arith, heard))

module _ (iter : Shard → Shard) (hash_one : List HashCall → ℕ) where
  worker-IsServing :
      (i : ℕ) (e : Event) (s : Life) → IsServing s → IsServing (react iter hash_one (worker i e) s)
  unfolding react
  worker-IsServing i e s h = elim (Bool-cases (hears s.signalled e)) [
    | inr unheard ↦ rw unheard h
    | inl heard ↦ rw heard (record {
      workers_serve =
          InLoop-step i e s.workers (subst (λ (b : Bool). hears b e ≡ true) h.silent heard)
            h.workers_serve;
      listens = h.listens;
      reaps = h.reaps;
      silent = h.silent;
    })
  ]

  tcp-IsServing :
      (e : Accept.TcpEvent) (s : Life) → IsServing s → IsServing (react iter hash_one (tcp e) s)
  unfolding react
  tcp-IsServing e s h = elim (Bool-cases (tcp_hears s.signalled e)) [
    | inr unheard ↦ rw unheard h
    | inl heard ↦ rw heard (record {
      workers_serve = h.workers_serve;
      listens =
          still_listens e s.listener (subst (λ (b : Bool). tcp_hears b e ≡ true) h.silent heard)
            h.listens;
      reaps = h.reaps;
      silent = h.silent;
    })
  ]

  live-IsServing :
      (events : List LifeEvent) (s : Life)
      → Unsignalled events
      → IsServing s
      → IsServing (live iter hash_one events s)
  unfolding live
  live-IsServing [] s quiet h = h
  live-IsServing (worker i e ∷ events) s quiet h =
      live-IsServing events _ quiet (worker-IsServing i e s h)
  live-IsServing (tcp e ∷ events) s quiet h = live-IsServing events _ quiet (tcp-IsServing e s h)
  live-IsServing (tick now ∷ events) s quiet h =
      live-IsServing events (react iter hash_one (tick now) s) quiet (
        unfold react in
        rw h.reaps (record {
          workers_serve = h.workers_serve;
          listens = h.listens;
          reaps = refl;
          silent = h.silent;
        }))
  live-IsServing (store now m ∷ events) s quiet h =
      live-IsServing events (react iter hash_one (store now m) s) quiet (
        unfold react in
        record {
          workers_serve = h.workers_serve;
          listens = h.listens;
          reaps = h.reaps;
          silent = h.silent;
        })
  live-IsServing (signal ∷ events) s quiet h = absurd quiet
  live-IsServing (handle_dropped ∷ events) s quiet h = absurd quiet

  fresh_pools-InLoop : (n : ℕ) → All InLoop (fresh_pools n)
  fresh_pools-InLoop zero = tt
  fresh_pools-InLoop (suc n) = (refl, fresh_pools-InLoop n)

  -- Until `shutdown` is called or the handle is dropped, whatever else happens, errors of sockets,
  -- timeouts and ends of tasks included, every worker and the listener of a server that has started
  -- are in their loops, and its reaper runs, and so not all of them have returned.
  pub serves_until_signal :
      (limit workers connections : ℕ) (cache : Cache) (events : List LifeEvent)
      → Unsignalled events
      → IsServing (live iter hash_one events (spawned limit workers connections cache))
        × (all_returned (live iter hash_one events (spawned limit workers connections cache))
            ≡ false)
  unfolding all_returned
  serves_until_signal limit workers connections cache events quiet =
      let h = live-IsServing events (spawned limit workers connections cache) quiet (record {
        workers_serve = fresh_pools-InLoop workers;
        listens = refl;
        reaps = refl;
        silent = refl;
      }) in
      (h, ground (arith, h.listens))
