-- ===== src/Sched/Invariant.antt =====
-- The invariant of the scheduler, and that every operation keeps it.
use os_assignment.Base.{
  ℕ, zero, suc, ◌-◌, ◌≤◌, ◌<◌, ◌≡◌, ◌⊎◌, inl, inr, sym, subst, ◌∙◌, arith, length, set, Option,
  none, some, true, get_or, ltb, Bool-cases, length-set, some-inj, none-ne-some,
}
use native.Mathlib.Decide.{ℕ_discrete}
use os_assignment.Process.{Store}
use os_assignment.Queue.{Queue, enqueue}
use os_assignment.Queue.Array.{IsValid}
use os_assignment.Queue.Laws.{contents-enqueue, contents-dequeue}
use os_assignment.Sched.{
  Sched, max_prio, level, serve, scan, finish_scan, get_mlq_proc, enqueue_level, put_mlq_proc,
  add_mlq_proc,
}
use os_assignment.Sched.Levels.{level-set_self, level-set_ne}
use os_assignment.Sched.Scan.{moved, HasSlots, IsReady, scan-Scans}

-- There are 140 valid queues; priority i has 140 - i slots; the current priority is one of the
-- 140, and no more slots of it are used than it has.
pub record IsConsistent (s : Sched) : Type 0 where
  pub levels : length s.mlq_ready_queue ≡ max_prio
  pub queues : (i : ℕ) → IsValid (level s i)
  pub slots : (i : ℕ) → i < max_prio → get_or s.slot i 0 ≡ max_prio - i
  pub current : s.cur_prio < max_prio
  pub within : s.used_slot ≤ max_prio - s.cur_prio
  pub ready : IsValid s.ready_queue
  pub waiting : IsValid s.run_queue
  pub running : IsValid s.running_list

pub IsConsistent-HasSlots : (s : Sched) → IsConsistent s → HasSlots s
IsConsistent-HasSlots s v i h = omega (arith, v.slots i h)

pub moved-IsConsistent : (s : Sched) (d : ℕ) → IsConsistent s → IsConsistent (moved s d)
moved-IsConsistent s zero v = v
moved-IsConsistent s (suc d) v = record {
  levels = v.levels;
  queues = v.queues;
  slots = v.slots;
  current = omega arith;
  within = omega arith;
  ready = v.ready;
  waiting = v.waiting;
  running = v.running;
}

-- A write of a valid queue to a level keeps all levels valid.
set-queues :
    (s : Sched) (q : Queue) (i : ℕ)
    → IsConsistent s
    → IsValid q
    → i < max_prio
    → (j : ℕ) → IsValid (level (record s { mlq_ready_queue = set s.mlq_ready_queue i q }) j)
set-queues s q i v valid h j = elim (ℕ_discrete i j) [
  | yes same ↦
      subst (λ k. IsValid (level (record s { mlq_ready_queue = set s.mlq_ready_queue i q }) k)) same
        (subst IsValid (sym (level-set_self s q i (omega (arith, v.levels)))) valid)
  | no other ↦ subst IsValid (sym (level-set_ne s q i j other)) (v.queues j)
]

serve-IsConsistent :
    (procs : Store) (s : Sched) → IsConsistent s → IsReady s → IsConsistent (serve procs s).1
unfolding serve
serve-IsConsistent procs s v ready = record {
  levels = length-set s.mlq_ready_queue s.cur_prio _ ∙ v.levels;
  queues =
      set-queues s _ s.cur_prio v
        (contents-dequeue procs (level s s.cur_prio) (v.queues s.cur_prio)).0 v.current;
  slots = v.slots;
  current = v.current;
  within = omega (arith, v.slots s.cur_prio v.current, ready.1);
  ready = v.ready;
  waiting = v.waiting;
  running = v.running;
}

scan-IsConsistent :
    (procs : Store) (s : Sched) → IsConsistent s → IsConsistent (scan procs max_prio s).1
scan-IsConsistent procs s v =
    elim (scan-Scans procs max_prio s (IsConsistent-HasSlots s v) v.current) [
      | inl (e, all) ↦ rw e (moved-IsConsistent s max_prio v)
      | inr (d, lt, e, ready, before) ↦
          rw e (serve-IsConsistent procs (moved s d) (moved-IsConsistent s d v) ready)
    ]

finish-IsConsistent : (r : Option ℕ × Sched) → IsConsistent r.1 → IsConsistent (finish_scan r).1
finish-IsConsistent (none, s) v = record {
  levels = v.levels;
  queues = v.queues;
  slots = v.slots;
  current = v.current;
  within = omega arith;
  ready = v.ready;
  waiting = v.waiting;
  running = v.running;
}
finish-IsConsistent (some p, s) v = v

-- `get_mlq_proc` keeps the invariant.
pub get_mlq_proc-IsConsistent :
    (procs : Store) (s : Sched) → IsConsistent s → IsConsistent (get_mlq_proc procs s).1
unfolding get_mlq_proc
get_mlq_proc-IsConsistent procs s v = finish-IsConsistent _ (scan-IsConsistent procs s v)

enqueue_level-IsConsistent :
    (s : Sched) (prio proc : ℕ) (t : Sched)
    → IsConsistent s
    → enqueue_level s prio proc ≡ some t
    → IsConsistent t
unfolding enqueue_level
enqueue_level-IsConsistent s prio proc t v e = elim (Bool-cases (ltb prio max_prio)) [
  | inl inside ↦
      let q = enqueue (level s prio) proc in
      let same : some (record s { mlq_ready_queue = set s.mlq_ready_queue prio q }) ≡ some t =
        rw inside at e in
      subst IsConsistent (some-inj same) (record {
        levels = length-set s.mlq_ready_queue prio q ∙ v.levels;
        queues =
            set-queues s q prio v (contents-enqueue (level s prio) proc (v.queues prio)).0
              (ground arith);
        slots = v.slots;
        current = v.current;
        within = v.within;
        ready = v.ready;
        waiting = v.waiting;
        running = v.running;
      })
  | inr outside ↦ absurd (let bad : none ≡ some t = rw outside at e in none-ne-some bad)
]

pub link-IsConsistent :
    (s : Sched) → IsConsistent s → IsConsistent (record s { krnl_linked = true })
link-IsConsistent s v = record {
  levels = v.levels;
  queues = v.queues;
  slots = v.slots;
  current = v.current;
  within = v.within;
  ready = v.ready;
  waiting = v.waiting;
  running = v.running;
}

pub list-IsConsistent :
    (s : Sched) (proc : ℕ)
    → IsConsistent s
    → IsConsistent (record s { running_list = enqueue s.running_list proc })
list-IsConsistent s proc v = record {
  levels = v.levels;
  queues = v.queues;
  slots = v.slots;
  current = v.current;
  within = v.within;
  ready = v.ready;
  waiting = v.waiting;
  running = (contents-enqueue s.running_list proc v.running).0;
}

-- `add_mlq_proc` and `put_mlq_proc` keep the invariant whenever they do not leave the array of
-- queues.
pub enqueue_procs-IsConsistent :
    (procs : Store) (s t : Sched) (proc : ℕ)
    → IsConsistent s
    → (add_mlq_proc procs proc s ≡ some t) ⊎ (put_mlq_proc procs proc s ≡ some t)
    → IsConsistent t
unfolding add_mlq_proc put_mlq_proc
enqueue_procs-IsConsistent procs s t proc v (inl e) =
    enqueue_level-IsConsistent _ _ proc t (link-IsConsistent s v) e
enqueue_procs-IsConsistent procs s t proc v (inr e) =
    enqueue_level-IsConsistent _ _ proc t (list-IsConsistent _ proc (link-IsConsistent s v)) e
