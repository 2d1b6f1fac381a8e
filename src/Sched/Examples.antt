-- ===== src/Sched/Examples.antt =====
-- Two processes of priority 0 in an otherwise empty scheduler, and the laws at that state.
use os_assignment.Base.{
  ℕ, ◌+◌, ◌%◌, ◌≤◌, ◌<◌, ◌≡◌, ◌⊎◌, inl, refl, ap, arith, [], ◌∷◌, length, none, some, true, false,
  replicate, set, get_or-replicate, All,
}
use os_assignment.Queue.{Queue, no_procs, empty, dequeue, enqueue}
use os_assignment.Queue.Array.{contents}
use os_assignment.Sched.{
  Sched, max_prio, level, scan, get_mlq_proc, put_mlq_proc, add_mlq_proc, init_scheduler,
  queue_empty, minus_one, one_found,
}
use os_assignment.Sched.Scan.{IsPassed}
use os_assignment.Sched.Busy.{procs, two_waiting, busy, busy-IsConsistent, others_empty}
use os_assignment.Sched.Invariant.{
  IsConsistent, get_mlq_proc-IsConsistent, enqueue_procs-IsConsistent,
}
use os_assignment.Sched.Init.{IsStatic, init_scheduler-IsConsistent}
use os_assignment.Sched.Laws.{
  IsServed, get_mlq_proc_lem, get_mlq_proc-retry, get_mlq_proc-exhausted,
}
use os_assignment.Sched.Enqueue.{
  IsQueued, IsAdded, add_mlq_proc_lem, put_mlq_proc_lem, queue_empty_lem,
}

serves_lowest : (get_mlq_proc procs (busy 3)).0 ≡ some 140
unfolding get_mlq_proc scan dequeue
serves_lowest = refl

get_mlq_proc_example :
    ((get_mlq_proc procs (busy 3) ≡ (none, busy 0))
      × ((d : ℕ) → d < max_prio → IsPassed (busy 3) d))
    ⊎ ((d : ℕ) × (d < max_prio)
        × ((e : ℕ) → e < d → IsPassed (busy 3) e)
        × ¬ IsPassed (busy 3) d
        × (p : ℕ) × ((get_mlq_proc procs (busy 3)).0 ≡ some p)
        × IsServed procs (busy 3) ((0 + d) % max_prio) p (get_mlq_proc procs (busy 3)).1)
get_mlq_proc_example = get_mlq_proc_lem procs (busy 3) (busy-IsConsistent 3 (omega arith))

get_mlq_proc-retry_example :
    ((p : ℕ) × ((get_mlq_proc procs (busy 140)).0 ≡ some p))
    ⊎ (((get_mlq_proc procs (busy 140)).0 ≡ none)
        × ((p : ℕ) × ((get_mlq_proc procs (get_mlq_proc procs (busy 140)).1).0 ≡ some p)))
unfolding empty
get_mlq_proc-retry_example =
    get_mlq_proc-retry procs (busy 140) 0 (busy-IsConsistent 140 (omega arith)) (omega arith) refl

get_mlq_proc-exhausted_example : get_mlq_proc procs (busy 140) ≡ (none, busy 0)
unfolding empty
get_mlq_proc-exhausted_example =
    get_mlq_proc-exhausted procs (busy 140) (busy-IsConsistent 140 (omega arith)) refl others_empty
      refl

get_mlq_proc-IsConsistent_example : IsConsistent (get_mlq_proc procs (busy 140)).1
get_mlq_proc-IsConsistent_example =
    get_mlq_proc-IsConsistent procs (busy 140) (busy-IsConsistent 140 (omega arith))

-- The state that `add_mlq_proc` of the process at 7 leaves.
abbrev seven_added : Sched
seven_added = record (busy 3) {
  mlq_ready_queue =
      set (two_waiting ∷ replicate 139 no_procs) 7 (record { proc = 7 ∷ replicate 49 0; size = 1 });
}

add_runs : add_mlq_proc procs 7 (busy 3) ≡ some seven_added
unfolding add_mlq_proc enqueue
add_runs = refl

enqueue_procs-IsConsistent_example : IsConsistent seven_added
enqueue_procs-IsConsistent_example =
    enqueue_procs-IsConsistent procs (busy 3) seven_added 7 (busy-IsConsistent 3 (omega arith))
      (inl add_runs)

add_mlq_proc_example :
    ((max_prio ≤ 7) × (add_mlq_proc procs 7 (busy 3) ≡ none))
    ⊎ ((7 < max_prio)
        × ((t : Sched) × (add_mlq_proc procs 7 (busy 3) ≡ some t)
            × IsQueued (busy 3) 7 7 t
            × (t.running_list ≡ no_procs)))
add_mlq_proc_example =
    add_mlq_proc_lem procs (busy 3) 7 (busy-IsConsistent 3 (omega arith)) (omega arith)

put_mlq_proc_example :
    ((max_prio ≤ 7) × (put_mlq_proc procs 7 (busy 3) ≡ none))
    ⊎ ((7 < max_prio)
        × ((t : Sched) × (put_mlq_proc procs 7 (busy 3) ≡ some t)
            × IsQueued (busy 3) 7 7 t
            × IsAdded no_procs 7 t.running_list))
put_mlq_proc_example =
    put_mlq_proc_lem procs (busy 3) 7 (busy-IsConsistent 3 (omega arith)) (omega arith)

queue_empty_test :
    ((queue_empty (busy 3) ≡ one_found) × All (λ q. empty q ≡ true) (busy 3).mlq_ready_queue)
    ⊎ ((queue_empty (busy 3) ≡ minus_one)
        × (i : ℕ) × (i < length (busy 3).mlq_ready_queue)
        × (empty (level (busy 3) i) ≡ false))
unfolding empty
queue_empty_test = queue_empty_lem (busy 3) refl refl

-- The scheduler before `main` calls `init_scheduler`.
abbrev at_start : Sched
at_start = record {
  mlq_ready_queue = replicate 140 no_procs;
  slot = replicate 140 0;
  cur_prio = 0;
  used_slot = 0;
  ready_queue = no_procs;
  run_queue = no_procs;
  running_list = no_procs;
  krnl_linked = false;
}

at_start-IsStatic : IsStatic at_start
at_start-IsStatic = record {
  levels = refl;
  slots = refl;
  arrays = λ i. ap (λ (q : Queue). length q.proc) (get_or-replicate 140 no_procs i);
  current = refl;
  used = refl;
  ready = refl;
  waiting = refl;
  running = refl;
}

init_scheduler_example :
    IsConsistent (init_scheduler at_start)
    × ((i : ℕ) → i < max_prio → contents (level (init_scheduler at_start) i) ≡ [])
    × (contents (init_scheduler at_start).running_list ≡ [])
init_scheduler_example = init_scheduler-IsConsistent at_start at_start-IsStatic
