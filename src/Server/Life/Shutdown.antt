-- ===== src/Server/Life/Shutdown.antt =====
-- The end of a server: `ServerHandle::shutdown` returns.
use dnser.Base.{
  ℕ, ◌+◌, ◌-◌, ◌≤◌, ◌≡◌, refl, ap, sym, subst, ◌∙◌, true, List, [], ◌∷◌, ◌++◌, ◌==◌, arith, if_both,
  Bool-cases, inl, inr,
}
use dnser.Cache.{Shard}
use dnser.Cache.Keys.{HashCall}
use dnser.Server.Life.{
  Life, LifeEvent, worker, tcp, tick, store, signal, handle_dropped, hears, tcp_hears, react, live,
}
use dnser.Server.Life.Stages.{
  is_received, receives, own, Pending, Closing, Over, Done, Pending-transition, Closing-transition,
  Over-transition, Done-transition, shutdown-Closing, drain_timeout-Over, join_set_empty-Done,
}
use dnser.Server.Life.Track.{Has, tally, live-Has, step_own}
use dnser.Server.Tasks.{Pool, Event, shutdown, join_set_empty, drain_timeout, transition}
use dnser.Server.Tasks.Drain.{is_joined, joins}

tally-receives :
    (i : ℕ) (events : List LifeEvent) (k : ℕ)
    → tally (λ n e. n + is_received e) i events k ≡ k + receives (own i events)
unfolding tally
tally-receives i [] k = omega arith
tally-receives i (worker j e ∷ events) k = elim (Bool-cases (j == i)) [
  | inl mine ↦ rw mine (omega (arith, tally-receives i events (k + is_received e)))
  | inr other ↦ rw other (tally-receives i events k)
]
tally-receives i (tcp e ∷ events) k = tally-receives i events k
tally-receives i (tick now ∷ events) k = tally-receives i events k
tally-receives i (store now m ∷ events) k = tally-receives i events k
tally-receives i (signal ∷ events) k = tally-receives i events k
tally-receives i (handle_dropped ∷ events) k = tally-receives i events k

tally-joins :
    (i : ℕ) (events : List LifeEvent) (k : ℕ)
    → tally (λ n e. n - is_joined e) i events k ≡ k - joins (own i events)
unfolding tally
tally-joins i [] k = omega arith
tally-joins i (worker j e ∷ events) k = elim (Bool-cases (j == i)) [
  | inl mine ↦ rw mine (omega (arith, tally-joins i events (k - is_joined e)))
  | inr other ↦ rw other (tally-joins i events k)
]
tally-joins i (tcp e ∷ events) k = tally-joins i events k
tally-joins i (tick now ∷ events) k = tally-joins i events k
tally-joins i (store now m ∷ events) k = tally-joins i events k
tally-joins i (signal ∷ events) k = tally-joins i events k
tally-joins i (handle_dropped ∷ events) k = tally-joins i events k

tally_same : (i : ℕ) (events : List LifeEvent) (k : ℕ) → tally (λ n e. n) i events k ≡ k
unfolding tally
tally_same i [] k = refl
tally_same i (worker j e ∷ events) k = elim (Bool-cases (j == i)) [
  | inl mine ↦ rw mine (tally_same i events k)
  | inr other ↦ rw other (tally_same i events k)
]
tally_same i (tcp e ∷ events) k = tally_same i events k
tally_same i (tick now ∷ events) k = tally_same i events k
tally_same i (store now m ∷ events) k = tally_same i events k
tally_same i (signal ∷ events) k = tally_same i events k
tally_same i (handle_dropped ∷ events) k = tally_same i events k

-- What a worker goes through after the signal: it is told, its drain runs into its timeout, at least as
-- many tasks are joined as datagrams ever came in, and its set is empty. Between these, and between the
-- events of the others, anything happens.
pub record Drained (i earlier : ℕ) (events : List LifeEvent) : Type 0 where
  pub told : List LifeEvent
  pub waited : List LifeEvent
  pub joining : List LifeEvent
  pub rest : List LifeEvent
  pub order :
      events
      ≡ told
        ++ (worker i shutdown
            ∷ (waited ++ (worker i drain_timeout ∷ (joining ++ (worker i join_set_empty ∷ rest)))))
  pub enough : earlier + receives (own i told) ≤ joins (own i joining)

module _ (iter : Shard → Shard) (hash_one : List HashCall → ℕ) where
  pub live-append :
      (events later : List LifeEvent) (s : Life)
      → live iter hash_one (events ++ later) s
        ≡ live iter hash_one later (live iter hash_one events s)
  unfolding live
  live-append [] later s = refl
  live-append (e ∷ events) later s = live-append events later (react iter hash_one e s)

  signalled-react :
      (e : LifeEvent) (s : Life) → s.signalled ≡ true → (react iter hash_one e s).signalled ≡ true
  unfolding react
  signalled-react (worker i e) s h =
      if_both (λ (t : Life). t.signalled ≡ true) (hears s.signalled e) h h
  signalled-react (tcp e) s h =
      if_both (λ (t : Life). t.signalled ≡ true) (tcp_hears s.signalled e) h h
  signalled-react (tick now) s h = if_both (λ (t : Life). t.signalled ≡ true) s.reaping h h
  signalled-react (store now m) s h = h
  signalled-react signal s h = refl
  signalled-react handle_dropped s h = refl

  pub signalled-live :
      (events : List LifeEvent) (s : Life)
      → s.signalled ≡ true
      → (live iter hash_one events s).signalled ≡ true
  unfolding live
  signalled-live [] s h = h
  signalled-live (e ∷ events) s h = signalled-live events _ (signalled-react e s h)

  module _ (i : ℕ) where
    own_event :
        (P P' : Pool → Type 0) (e : Event) (s : Life)
        → hears s.signalled e ≡ true
        → ((n : ℕ) (p : Pool) → P p → P' (transition e n p).1)
        → Has P i s
        → Has P' i (react iter hash_one (worker i e) s)
    unfolding react
    own_event P P' e s heard moves (p, there, q) = rw heard (
      (transition e s.workers.permits p).1,
      step_own i e s.workers p there,
      moves s.workers.permits p q,
    )

    -- Each stage lasts however the server goes on.
    pub Pending-live :
        (events : List LifeEvent) (k : ℕ) (s : Life)
        → Has (Pending k) i s
        → Has (Pending (k + receives (own i events))) i (live iter hash_one events s)
    Pending-live events k s h =
        subst (λ (n : ℕ). Has (Pending n) i (live iter hash_one events s))
          (tally-receives i events k)
          (live-Has iter hash_one i Pending (λ n e. n + is_received e)
            (λ n p q. subst (λ (m : ℕ). Pending m p) (omega arith) q) Pending-transition events k s
            h)

    Closing-live :
        (events : List LifeEvent) (k : ℕ) (s : Life)
        → Has (Closing k) i s
        → Has (Closing k) i (live iter hash_one events s)
    Closing-live events k s h =
        subst (λ (n : ℕ). Has (Closing n) i (live iter hash_one events s)) (tally_same i events k)
          (live-Has iter hash_one i Closing (λ n e. n) (λ n p q. q) Closing-transition events k s h)

    Over-live :
        (events : List LifeEvent) (k : ℕ) (s : Life)
        → Has (Over k) i s
        → Has (Over (k - joins (own i events))) i (live iter hash_one events s)
    Over-live events k s h =
        subst (λ (n : ℕ). Has (Over n) i (live iter hash_one events s)) (tally-joins i events k)
          (live-Has iter hash_one i Over (λ n e. n - is_joined e)
            (λ n p q. subst (λ (m : ℕ). Over m p) (omega arith) q) Over-transition events k s h)

    Done-live :
        (events : List LifeEvent) (s : Life)
        → Has Done i s
        → Has Done i (live iter hash_one events s)
    Done-live events s h =
        live-Has iter hash_one i (λ n. Done) (λ n e. n) (λ n p q. q) (λ k. Done-transition) events 0
          s h

    pub worker_stops :
        (earlier : ℕ) (events : List LifeEvent) (s : Life)
        → s.signalled ≡ true
        → Has (Pending earlier) i s
        → Drained i earlier events
        → Has Done i (live iter hash_one events s)
    unfolding live
    worker_stops earlier events s signalled pending d =
        let k : ℕ = earlier + receives (own i d.told) in
        let s₁ : Life = live iter hash_one d.told s in
        let s₂ : Life = react iter hash_one (worker i shutdown) s₁ in
        let s₃ : Life = live iter hash_one d.waited s₂ in
        let s₄ : Life = react iter hash_one (worker i drain_timeout) s₃ in
        let s₅ : Life = live iter hash_one d.joining s₄ in
        let s₆ : Life = react iter hash_one (worker i join_set_empty) s₅ in
        let told : Has (Closing k) i s₂ =
          own_event (Pending k) (Closing k) shutdown s₁ (signalled-live d.told s signalled)
            (shutdown-Closing k) (Pending-live d.told earlier s pending) in
        let cut_off : Has (Over k) i s₄ =
          own_event (Closing k) (Over k) drain_timeout s₃ refl (drain_timeout-Over k)
            (Closing-live d.waited k s₂ told) in
        let joined_all : Has (Over 0) i s₅ =
          subst (λ (n : ℕ). Has (Over n) i s₅) (omega (arith, d.enough))
            (Over-live d.joining k s₄ cut_off) in
        let done : Has Done i s₆ =
          own_event (Over 0) Done join_set_empty s₅ refl join_set_empty-Done joined_all in
        let whole : live iter hash_one events s ≡ live iter hash_one d.rest s₆ =
          ap (λ (es : List LifeEvent). live iter hash_one es s) d.order
          ∙ live-append d.told _ s
          ∙ live-append d.waited _ s₂
          ∙ live-append d.joining _ s₄ in
        subst (Has Done i) (sym whole) (Done-live d.rest s₆ done)
