-- ===== src/Sched/Enqueue.antt =====
-- What `put_mlq_proc` and `add_mlq_proc` do to the queues, and the result of `queue_empty`.
use os_assignment.Base.{
  ℕ, ◌≤◌, ◌<◌, ◌≡◌, ◌≢◌, ◌⊎◌, inl, inr, refl, arith, List, [], ◌∷◌, ◌++◌, length, none, some, true,
  false, ltb, Bool-cases, All, get_or, set, suc,
}
use os_assignment.Process.{Store}
use os_assignment.Queue.{Queue, no_procs, empty, enqueue, max_queue_size}
use os_assignment.Queue.Array.{contents, IsValid}
use os_assignment.Queue.Laws.{contents-enqueue}
use os_assignment.Sched.{
  Sched, max_prio, level, enqueue_level, put_mlq_proc, add_mlq_proc, levels_empty, queue_empty,
  minus_one, one_found,
}
use os_assignment.Sched.Levels.{level-set_self, level-set_ne}
use os_assignment.Sched.Invariant.{IsConsistent, link-IsConsistent, list-IsConsistent}

-- How a process is added to a queue: at the end, unless 50 processes are there.
abbrev pub IsAdded : Queue → ℕ → Queue → Type 0
IsAdded q proc r =
    ((q.size ≡ max_queue_size) × (r ≡ q))
    ⊎ ((q.size < max_queue_size) × (contents r ≡ contents q ++ proc ∷ []))

enqueue-IsAdded : (q : Queue) (proc : ℕ) → IsValid q → proc ≢ 0 → IsAdded q proc (enqueue q proc)
enqueue-IsAdded q proc v real = elim (contents-enqueue q proc v).1 [
  | inl (inl null, same) ↦ absurd (real null)
  | inl (inr full, same) ↦ inl (full, same)
  | inr (given, free, added) ↦ inr (free, added)
]

-- The process is added to the level of priority `prio`, and the other levels and the position of
-- `get_mlq_proc` stay; the pointers of the kernel structure are set.
pub record IsQueued (s : Sched) (prio proc : ℕ) (t : Sched) : Type 0 where
  pub added : IsAdded (level s prio) proc (level t prio)
  pub others : (j : ℕ) → prio ≢ j → level t j ≡ level s j
  pub current : (t.cur_prio ≡ s.cur_prio) × (t.used_slot ≡ s.used_slot)
  pub linked : t.krnl_linked ≡ true

-- The result of `enqueue_level` at a state whose queues are those of `s`.
enqueue_level-IsQueued :
    (s : Sched) (prio proc : ℕ)
    → IsConsistent s
    → proc ≢ 0
    → s.krnl_linked ≡ true
    → ((max_prio ≤ prio) × (enqueue_level s prio proc ≡ none))
      ⊎ ((prio < max_prio)
          × ((t : Sched) × (enqueue_level s prio proc ≡ some t)
              × IsQueued s prio proc t
              × (t.running_list ≡ s.running_list)))
unfolding enqueue_level
enqueue_level-IsQueued s prio proc v real linked = elim (Bool-cases (ltb prio max_prio)) [
  | inr outside ↦ inl (ground arith, rw outside)
  | inl inside ↦
      let q = enqueue (level s prio) proc in
      let at = level-set_self s q prio (ground (arith, v.levels)) in
      inr (
        ground arith,
        (
          record s { mlq_ready_queue = set s.mlq_ready_queue prio q },
          rw inside,
          record {
            added = rw at (enqueue-IsAdded (level s prio) proc (v.queues prio) real);
            others = level-set_ne s q prio;
            current = (refl, refl);
            linked = linked;
          },
          refl,
        ),
      )
]

-- With the invariant and a process that is not NULL: `add_mlq_proc` writes outside the array of
-- queues exactly if the priority is 140 or more; otherwise the process goes to the end of its
-- level, or is dropped if 50 processes are there, and the running list stays.
pub add_mlq_proc_lem :
    (procs : Store) (s : Sched) (proc : ℕ)
    → IsConsistent s
    → proc ≢ 0
    → ((max_prio ≤ (procs proc).prio) × (add_mlq_proc procs proc s ≡ none))
      ⊎ (((procs proc).prio < max_prio)
          × ((t : Sched) × (add_mlq_proc procs proc s ≡ some t)
              × IsQueued s (procs proc).prio proc t
              × (t.running_list ≡ s.running_list)))
unfolding add_mlq_proc
add_mlq_proc_lem procs s proc v real =
    elim (enqueue_level-IsQueued (record s { krnl_linked = true }) (procs proc).prio proc
      (link-IsConsistent s v) real refl) [
        | inl outside ↦ inl outside
        | inr (inside, (t, e, queued, running)) ↦ inr (
          inside,
          (
            t,
            e,
            record {
              added = queued.added;
              others = queued.others;
              current = queued.current;
              linked = queued.linked;
            },
            running,
          ),
        )
      ]

-- With the invariant and a process that is not NULL: `put_mlq_proc` writes outside the array of
-- queues exactly if the priority is 140 or more; otherwise the process goes to the end of its
-- level and to the end of the running list, each time unless 50 processes are there.
pub put_mlq_proc_lem :
    (procs : Store) (s : Sched) (proc : ℕ)
    → IsConsistent s
    → proc ≢ 0
    → ((max_prio ≤ (procs proc).prio) × (put_mlq_proc procs proc s ≡ none))
      ⊎ (((procs proc).prio < max_prio)
          × ((t : Sched) × (put_mlq_proc procs proc s ≡ some t)
              × IsQueued s (procs proc).prio proc t
              × IsAdded s.running_list proc t.running_list))
unfolding put_mlq_proc
put_mlq_proc_lem procs s proc v real =
    let linked = record s { krnl_linked = true } in
    let listed = record linked { running_list = enqueue linked.running_list proc } in
    elim (enqueue_level-IsQueued listed (procs proc).prio proc
      (list-IsConsistent linked proc (link-IsConsistent s v)) real refl) [
        | inl outside ↦ inl outside
        | inr (inside, (t, e, queued, running)) ↦ inr (
          inside,
          (
            t,
            e,
            record {
              added = queued.added;
              others = queued.others;
              current = queued.current;
              linked = queued.linked;
            },
            rw running (enqueue-IsAdded s.running_list proc v.running real),
          ),
        )
      ]

levels_empty_lem :
    (s : List Queue)
    → ((levels_empty s ≡ true) × All (λ q. empty q ≡ true) s)
      ⊎ ((levels_empty s ≡ false)
          × (i : ℕ) × (i < length s)
          × (empty (get_or s i no_procs) ≡ false))
unfolding levels_empty
levels_empty_lem [] = inl (refl, tt)
levels_empty_lem (q ∷ qs) = elim (Bool-cases (empty q)) [
  | inr full ↦ inr (rw full, 0, omega arith, full)
  | inl is_empty ↦ elim (levels_empty_lem qs) [
    | inl (e, all) ↦ inl (rw (is_empty, e), (is_empty, all))
    | inr (e, i, lt, full) ↦ inr (rw (is_empty, e), suc i, omega arith, full)
  ]
]

-- While the two queues that the multi-level scheduler does not use are empty, `queue_empty` never
-- returns 0: it returns 1 if all ready queues are empty, and -1, which C takes for true as well, if
-- some process waits.
pub queue_empty_lem :
    (s : Sched)
    → empty s.ready_queue ≡ true
    → empty s.run_queue ≡ true
    → ((queue_empty s ≡ one_found) × All (λ q. empty q ≡ true) s.mlq_ready_queue)
      ⊎ ((queue_empty s ≡ minus_one)
          × (i : ℕ) × (i < length s.mlq_ready_queue)
          × (empty (level s i) ≡ false))
unfolding queue_empty
queue_empty_lem s ready run = elim (levels_empty_lem s.mlq_ready_queue) [
  | inl (e, all) ↦ inl (rw (e, ready, run), all)
  | inr (e, i, lt, full) ↦ inr (rw e, i, lt, full)
]
