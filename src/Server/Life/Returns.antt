-- ===== src/Server/Life/Returns.antt =====
-- What a server is once `ServerHandle::shutdown` has returned, and what it is until it is called.
use dnser.Base.{
  ℕ, zero, suc, ◌+◌, ◌<◌, ◌≡◌, refl, ap, sym, subst, ◌∙◌, true, false, some, List, [], ◌∷◌, ◌++◌,
  get_elem?, length, arith, if_both, Option-cases, inl, inr,
}
use dnser.Cache.{Cache, Shard}
use dnser.Cache.Keys.{HashCall}
use dnser.Cache.Shards.{length-set}
use dnser.Server.Life.{
  Life, LifeEvent, worker, tcp, tick, store, signal, handle_dropped, hears, tcp_hears, react, live,
  spawned, all_stopped, all_returned,
}
use dnser.Server.Life.Shutdown.{Drained, live-append, signalled-live, Pending-live, worker_stops}
use dnser.Server.Life.Stages.{receives, own, Pending, Done}
use dnser.Server.Life.Track.{Has}
use dnser.Server.Tasks.{Pool, Event, Workers, step, transition, fresh_pools, serving}
use dnser.Server.Tasks.Accept
use dnser.Server.Tasks.Accept.{tcp_transition, stays_closed}
use dnser.Server.Tasks.Permits.{total_running, step_keeps, fresh_running}

-- The pools of workers that are done.
all-Done :
    (pools : List Pool)
    → ((i : ℕ) → i < length pools → (p : Pool) × (get_elem? pools i ≡ some p) × Done p)
    → (all_stopped pools ≡ true) × (total_running pools ≡ 0)
all-Done [] h = (refl, refl)
all-Done (p ∷ pools) h =
    let (p', here, done) = h 0 (omega arith) in
    let (stops, idle) = all-Done pools (λ i below. h (suc i) (omega arith)) in
    (ground (arith, here, done.stops, stops), ground (arith, here, done.idle, idle))

length-step : (i : ℕ) (e : Event) (w : Workers) → length (step i e w).pools ≡ length w.pools
unfolding step
length-step i e w = elim (Option-cases (get_elem? w.pools i)) [
  | inl missing ↦ rw (missing, step) refl
  | inr (p, found) ↦ rw (found, step) (length-set w.pools i (transition e w.permits p).1)
]

length-fresh_pools : (n : ℕ) → length (fresh_pools n) ≡ n
length-fresh_pools zero = refl
length-fresh_pools (suc n) = ap suc (length-fresh_pools n)

fresh_at :
    (n i : ℕ)
    → i < n
    → get_elem? (fresh_pools n) i ≡ some (record { mode = serving; running = 0; ended = 0 })
fresh_at zero i h = absurd (omega arith)
fresh_at (suc n) zero h = refl
fresh_at (suc n) (suc i) h = fresh_at n i (omega arith)

-- The number of workers, and the permits, free or held.
abbrev Alike : Life → Life → Type 0
Alike s t =
    (length t.workers.pools ≡ length s.workers.pools)
    × (t.workers.permits + total_running t.workers.pools
        ≡ s.workers.permits + total_running s.workers.pools)

-- Where the listener is told among the events.
pub record Told (events : List LifeEvent) : Type 0 where
  pub front : List LifeEvent
  pub back : List LifeEvent
  pub order : events ≡ front ++ (tcp Accept.shutdown ∷ back)

-- The end of the listener's loop and of the reaper.
abbrev Closed : Life → Type 0
Closed s = s.listener.listening ≡ false

module _ (iter : Shard → Shard) (hash_one : List HashCall → ℕ) where
  Alike-react : (e : LifeEvent) (s : Life) → Alike s (react iter hash_one e s)
  unfolding react
  Alike-react (worker i e) s =
      if_both (Alike s) (hears s.signalled e) (length-step i e s.workers, step_keeps i e s.workers)
        (refl, refl)
  Alike-react (tcp e) s = if_both (Alike s) (tcp_hears s.signalled e) (refl, refl) (refl, refl)
  Alike-react (tick now) s = if_both (Alike s) s.reaping (refl, refl) (refl, refl)
  Alike-react (store now m) s = (refl, refl)
  Alike-react signal s = (refl, refl)
  Alike-react handle_dropped s = (refl, refl)

  Alike-live : (events : List LifeEvent) (s : Life) → Alike s (live iter hash_one events s)
  unfolding live
  Alike-live [] s = (refl, refl)
  Alike-live (e ∷ events) s =
      let (n, m) = Alike-react e s in
      let (n', m') = Alike-live events (react iter hash_one e s) in (n' ∙ n, m' ∙ m)

  -- A property that no event ends.
  module _ (P : Life → Type 0)
      (lasts : (e : LifeEvent) (s : Life) → P s → P (react iter hash_one e s)) where
    lasts_live : (events : List LifeEvent) (s : Life) → P s → P (live iter hash_one events s)
    unfolding live
    lasts_live [] s h = h
    lasts_live (e ∷ events) s h = lasts_live events _ (lasts e s h)

  Closed-react : (e : LifeEvent) (s : Life) → Closed s → Closed (react iter hash_one e s)
  unfolding react
  Closed-react (worker i e) s h = if_both Closed (hears s.signalled e) h h
  Closed-react (tcp e) s h =
      if_both Closed (tcp_hears s.signalled e) (stays_closed e s.listener h).0 h
  Closed-react (tick now) s h = if_both Closed s.reaping h h
  Closed-react (store now m) s h = h
  Closed-react signal s h = h
  Closed-react handle_dropped s h = h

  abbrev Aborted : Life → Type 0
  Aborted s = s.reaping ≡ false

  Aborted-react : (e : LifeEvent) (s : Life) → Aborted s → Aborted (react iter hash_one e s)
  unfolding react
  Aborted-react (worker i e) s h = if_both Aborted (hears s.signalled e) h h
  Aborted-react (tcp e) s h = if_both Aborted (tcp_hears s.signalled e) h h
  Aborted-react (tick now) s h = if_both Aborted s.reaping h h
  Aborted-react (store now m) s h = h
  Aborted-react signal s h = refl
  Aborted-react handle_dropped s h = h

  tcp_shutdown-Closed :
      (s : Life) → s.signalled ≡ true → Closed (react iter hash_one (tcp Accept.shutdown) s)
  unfolding react tcp_transition
  tcp_shutdown-Closed s h = rw h refl

  listener_closes :
      (events : List LifeEvent) (s : Life)
      → s.signalled ≡ true
      → Told events
      → Closed (live iter hash_one events s)
  unfolding live
  listener_closes events s signalled t =
      let s₁ : Life = live iter hash_one t.front s in
      subst Closed
        (sym (
          ap (λ (es : List LifeEvent). live iter hash_one es s) t.order
          ∙ live-append iter hash_one t.front _ s))
        (lasts_live Closed Closed-react t.back (react iter hash_one (tcp Accept.shutdown) s₁)
          (tcp_shutdown-Closed s₁ (signalled-live iter hash_one t.front s signalled)))

  started_pending :
      (i limit workers connections : ℕ) (cache : Cache) (before : List LifeEvent)
      → i < workers
      → Has
          (Pending (receives (own i before)))
          i
          (live iter hash_one before (spawned limit workers connections cache))
  started_pending i limit workers connections cache before below =
      let first : Life = spawned limit workers connections cache in
      subst (λ (k : ℕ). Has (Pending k) i (live iter hash_one before first)) (omega arith)
        (Pending-live iter hash_one i before 0 first (
          record { mode = serving; running = 0; ended = 0 },
          fresh_at workers i below,
          record { few = omega arith; none_runs = refl; none_left = refl },
        ))

  -- A server that starts with as many permits for queries as `limit`, and whose `shutdown` is called
  -- after any events: if then each worker is told, its drain runs into its timeout, it joins at least
  -- as many tasks as datagrams came in for it, and finds its set empty, and the listener is told, with
  -- any events of theirs, the tasks' and the reaper's in between, `shutdown` returns: every `run` has
  -- returned, no query of a UDP worker runs, every permit for them is free, and the reaper is aborted.
  -- Tasks of TCP connections may still run.
  pub shutdown_returns :
      (limit workers connections : ℕ) (cache : Cache) (before after : List LifeEvent)
      → ((i : ℕ) → i < workers → Drained i (receives (own i before)) after)
      → Told after
      → (let server = live iter hash_one before (spawned limit workers connections cache) in
          let s = live iter hash_one after (react iter hash_one signal server) in
          (all_returned s ≡ true)
          × (total_running s.workers.pools ≡ 0)
          × (s.workers.permits ≡ limit)
          × (s.reaping ≡ false))
  unfolding all_returned
  shutdown_returns limit workers connections cache before after drained told =
      let first : Life = spawned limit workers connections cache in
      let server : Life = live iter hash_one before first in
      let called : Life = react iter hash_one signal server in
      let s : Life = live iter hash_one after called in
      let alike : Alike first s =
        let (n, m) = Alike-live before first in
        let (n', m') = Alike-react signal server in
        let (n'', m'') = Alike-live after called in (n'' ∙ n' ∙ n, m'' ∙ m' ∙ m) in
      let size : length s.workers.pools ≡ workers = alike.0 ∙ length-fresh_pools workers in
      let heard : called.signalled ≡ true = unfold react in refl in
      let (stopped, idle) = all-Done s.workers.pools λ i below.
        worker_stops iter hash_one i (receives (own i before)) after called heard
          (unfold react in
            started_pending i limit workers connections cache before (omega (arith, below, size)))
          (drained i (omega (arith, below, size))) in
      let closed : Closed s = listener_closes after called heard told in
      (
        ground (arith, stopped, closed),
        idle,
        omega (arith, alike.1, idle, fresh_running workers),
        lasts_live Aborted Aborted-react after called (unfold react in refl),
      )
