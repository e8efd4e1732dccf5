-- ===== src/Server/Life/Stages.antt =====
-- The stages of a worker that is shut down among the others.
use dnser.Base.{ℕ, ◌+◌, ◌-◌, ◌≤◌, ◌≡◌, Bool, true, false, List, [], ◌∷◌, ◌==◌, if◌then◌else◌, arith}
use dnser.Server.Life.{LifeEvent, worker, tcp, tick, store, signal, handle_dropped, is_stopped}
use dnser.Server.Tasks.{
  Mode, serving, stopped, Pool, Event, received, recv_error, task_ends, joined, shutdown,
  join_set_empty, drain_timeout, transition,
}
use dnser.Server.Tasks.Drain.{is_joined, is_over}

abbrev pub is_received : Event → ℕ
is_received received = 1
is_received _ = 0

-- How often a datagram comes in.
abbrev pub receives : List Event → ℕ
receives [] = 0
receives (e ∷ events) = is_received e + receives events

-- The events of worker `i`.
abbrev pub own : ℕ → List LifeEvent → List Event
own i [] = []
own i (worker j e ∷ events) = if j == i then e ∷ own i events else own i events
own i (tcp e ∷ events) = own i events
own i (tick now ∷ events) = own i events
own i (store now m ∷ events) = own i events
own i (signal ∷ events) = own i events
own i (handle_dropped ∷ events) = own i events

-- At most `k` tasks are to be joined, and none past the end.
pub record Pending (k : ℕ) (p : Pool) : Type 0 where
  pub few : p.running + p.ended ≤ k
  pub none_runs : (if is_over p.mode then p.running else 0) ≡ 0
  pub none_left : (if is_stopped p.mode then p.ended else 0) ≡ 0

abbrev pub is_serving : Mode → Bool
is_serving serving = true
is_serving _ = false

pub record Closing (k : ℕ) (p : Pool) : Type 0 where
  pub pending : Pending k p
  pub closed : is_serving p.mode ≡ false

pub record Over (k : ℕ) (p : Pool) : Type 0 where
  pub over : is_over p.mode ≡ true
  pub cut_off : p.running ≡ 0
  pub left : p.ended ≤ k
  pub joined_all : (if is_stopped p.mode then p.ended else 0) ≡ 0

pub record Done (p : Pool) : Type 0 where
  pub stops : p.mode ≡ stopped
  pub idle : p.running ≡ 0
  pub empty : p.ended ≡ 0

pub Pending-transition :
    (k n : ℕ) (e : Event) (p : Pool)
    → Pending k p
    → Pending (k + is_received e) (transition e n p).1
unfolding transition
Pending-transition k n received p h = ground (arith, h.few, h.none_runs, h.none_left)
Pending-transition k n recv_error p h = ground (arith, h.few, h.none_runs, h.none_left)
Pending-transition k n task_ends p h = ground (arith, h.few, h.none_runs, h.none_left)
Pending-transition k n joined p h = ground (arith, h.few, h.none_runs, h.none_left)
Pending-transition k n shutdown p h = ground (arith, h.few, h.none_runs, h.none_left)
Pending-transition k n join_set_empty p h = ground (arith, h.few, h.none_runs, h.none_left)
Pending-transition k n drain_timeout p h = ground (arith, h.few, h.none_runs, h.none_left)

pub Closing-transition :
    (k n : ℕ) (e : Event) (p : Pool) → Closing k p → Closing k (transition e n p).1
unfolding transition
Closing-transition k n received p h =
    ground (arith, h.pending.few, h.pending.none_runs, h.pending.none_left, h.closed)
Closing-transition k n recv_error p h =
    ground (arith, h.pending.few, h.pending.none_runs, h.pending.none_left, h.closed)
Closing-transition k n task_ends p h =
    ground (arith, h.pending.few, h.pending.none_runs, h.pending.none_left, h.closed)
Closing-transition k n joined p h =
    ground (arith, h.pending.few, h.pending.none_runs, h.pending.none_left, h.closed)
Closing-transition k n shutdown p h =
    ground (arith, h.pending.few, h.pending.none_runs, h.pending.none_left, h.closed)
Closing-transition k n join_set_empty p h =
    ground (arith, h.pending.few, h.pending.none_runs, h.pending.none_left, h.closed)
Closing-transition k n drain_timeout p h =
    ground (arith, h.pending.few, h.pending.none_runs, h.pending.none_left, h.closed)

pub Over-transition :
    (k n : ℕ) (e : Event) (p : Pool) → Over k p → Over (k - is_joined e) (transition e n p).1
unfolding transition
Over-transition k n received p h = ground (arith, h.over, h.cut_off, h.left, h.joined_all)
Over-transition k n recv_error p h = ground (arith, h.over, h.cut_off, h.left, h.joined_all)
Over-transition k n task_ends p h = ground (arith, h.over, h.cut_off, h.left, h.joined_all)
Over-transition k n joined p h = ground (arith, h.over, h.cut_off, h.left, h.joined_all)
Over-transition k n shutdown p h = ground (arith, h.over, h.cut_off, h.left, h.joined_all)
Over-transition k n join_set_empty p h = ground (arith, h.over, h.cut_off, h.left, h.joined_all)
Over-transition k n drain_timeout p h = ground (arith, h.over, h.cut_off, h.left, h.joined_all)

pub Done-transition : (n : ℕ) (e : Event) (p : Pool) → Done p → Done (transition e n p).1
unfolding transition
Done-transition n received p h = ground (arith, h.stops, h.idle, h.empty)
Done-transition n recv_error p h = ground (arith, h.stops, h.idle, h.empty)
Done-transition n task_ends p h = ground (arith, h.stops, h.idle, h.empty)
Done-transition n joined p h = ground (arith, h.stops, h.idle, h.empty)
Done-transition n shutdown p h = ground (arith, h.stops, h.idle, h.empty)
Done-transition n join_set_empty p h = ground (arith, h.stops, h.idle, h.empty)
Done-transition n drain_timeout p h = ground (arith, h.stops, h.idle, h.empty)

pub shutdown-Closing : (k n : ℕ) (p : Pool) → Pending k p → Closing k (transition shutdown n p).1
unfolding transition
shutdown-Closing k n p h = ground (arith, h.few, h.none_runs, h.none_left)

pub drain_timeout-Over :
    (k n : ℕ) (p : Pool) → Closing k p → Over k (transition drain_timeout n p).1
unfolding transition
drain_timeout-Over k n p h =
    ground (arith, h.pending.few, h.pending.none_runs, h.pending.none_left, h.closed)

pub join_set_empty-Done : (n : ℕ) (p : Pool) → Over 0 p → Done (transition join_set_empty n p).1
unfolding transition
join_set_empty-Done n p h = ground (arith, h.over, h.cut_off, h.left, h.joined_all)
