-- ===== src/Sched/Init.antt =====
-- `init_scheduler` establishes the invariant and empties every queue.
use native.Mathlib.Decide.{ℕ_discrete, dec_lt}
use os_assignment.Base.{
  ℕ, zero, suc, ◌+◌, ◌-◌, ◌<◌, ◌≡◌, ◌≢◌, refl, sym, ap, subst, ◌∙◌, arith, [], length, set, get_or,
  length-set, get_or-set_self, get_or-set_ne, get_or-outside, take,
}
use os_assignment.Queue.{Queue, no_procs, max_queue_size}
use os_assignment.Queue.Laws.{no_procs-IsValid}
use os_assignment.Queue.Array.{contents, IsValid}
use os_assignment.Sched.{Sched, max_prio, level, init_levels, init_scheduler}
use os_assignment.Sched.Levels.{level-set_self, level-set_ne}
use os_assignment.Sched.Invariant.{IsConsistent}

-- The static arrays have their declared lengths, and the static counters of `get_mlq_proc` are 0,
-- as at the start of the program.
pub record IsStatic (s : Sched) : Type 0 where
  pub levels : length s.mlq_ready_queue ≡ max_prio
  pub slots : length s.slot ≡ max_prio
  pub arrays : (i : ℕ) → length (level s i).proc ≡ max_queue_size
  pub current : s.cur_prio ≡ 0
  pub used : s.used_slot ≡ 0
  pub ready : length s.ready_queue.proc ≡ max_queue_size
  pub waiting : length s.run_queue.proc ≡ max_queue_size
  pub running : length s.running_list.proc ≡ max_queue_size

-- The state of the loop when the priorities below `n` are done.
record IsCleared (n : ℕ) (s : Sched) : Type 0 where
  static : IsStatic s
  sizes : (i : ℕ) → i < n → (level s i).size ≡ 0
  counts : (i : ℕ) → i < n → get_or s.slot i 0 ≡ max_prio - i

clear : Sched → ℕ → Sched
clear s i = record s {
  mlq_ready_queue = set s.mlq_ready_queue i (record (level s i) { size = 0 });
  slot = set s.slot i (max_prio - i);
}

level-clear_self :
    (s : Sched) (i : ℕ)
    → IsStatic s
    → i < max_prio
    → level (clear s i) i ≡ record (level s i) { size = 0 }
unfolding clear
level-clear_self s i v h = level-set_self s _ i (omega (arith, v.levels))

level-clear_ne : (s : Sched) (i j : ℕ) → i ≢ j → level (clear s i) j ≡ level s j
unfolding clear
level-clear_ne s i j h = level-set_ne s _ i j h

clear-IsStatic : (s : Sched) (i : ℕ) → IsStatic s → i < max_prio → IsStatic (clear s i)
unfolding clear
clear-IsStatic s i v h = record {
  levels = length-set s.mlq_ready_queue i _ ∙ v.levels;
  slots = length-set s.slot i _ ∙ v.slots;
  arrays = λ j. elim (ℕ_discrete i j) [
    | yes same ↦
        ap (λ (q : Queue). length q.proc)
          (ap (level (clear s i)) (sym same) ∙ level-clear_self s i v h)
        ∙ v.arrays i
    | no other ↦ ap (λ (q : Queue). length q.proc) (level-clear_ne s i j other) ∙ v.arrays j
  ];
  current = v.current;
  used = v.used;
  ready = v.ready;
  waiting = v.waiting;
  running = v.running;
}

clear-IsCleared : (s : Sched) (i : ℕ) → IsCleared i s → i < max_prio → IsCleared (i + 1) (clear s i)
unfolding clear
clear-IsCleared s i v h = record {
  static = clear-IsStatic s i v.static h;
  sizes = λ j l. elim (ℕ_discrete i j) [
    | yes same ↦
        ap (λ (q : Queue). q.size)
          (ap (level (clear s i)) (sym same) ∙ level-clear_self s i v.static h)
    | no other ↦ ap (λ (q : Queue). q.size) (level-clear_ne s i j other) ∙ v.sizes j (omega arith)
  ];
  counts = λ j l. elim (ℕ_discrete i j) [
    | yes same ↦
        ap (λ k. get_or (set s.slot i (max_prio - i)) k 0) (sym same)
        ∙ get_or-set_self s.slot i _ 0 (omega (arith, v.static.slots))
        ∙ ap (λ k. max_prio - k) same
    | no other ↦ get_or-set_ne s.slot i j _ 0 other ∙ v.counts j (omega arith)
  ];
}

init_levels-IsCleared :
    (left i : ℕ) (s : Sched)
    → i + left ≡ max_prio
    → IsCleared i s
    → IsCleared max_prio (init_levels left i s)
unfolding init_levels clear
init_levels-IsCleared zero i s e v = subst (λ n. IsCleared n s) (omega arith) v
init_levels-IsCleared (suc left) i s e v =
    init_levels-IsCleared left (i + 1) (clear s i) (omega arith)
      (clear-IsCleared s i v (omega arith))

emptied-IsValid : (q : Queue) → length q.proc ≡ max_queue_size → IsValid (record q { size = 0 })
emptied-IsValid q h = record { slots = h; bounded = omega arith }

level-IsValid : (s : Sched) (i : ℕ) → IsCleared max_prio s → IsValid (level s i)
level-IsValid s i v = elim (dec_lt i max_prio) [
  | yes inside ↦ record { slots = v.static.arrays i; bounded = omega (arith, v.sizes i inside) }
  | no outside ↦
      subst IsValid
        (sym (get_or-outside s.mlq_ready_queue i no_procs (omega (arith, v.static.levels))))
        no_procs-IsValid
]

-- From the static state at the start of the program, `init_scheduler` establishes the invariant,
-- and all 140 ready queues and the running list are empty.
pub init_scheduler-IsConsistent :
    (s : Sched)
    → IsStatic s
    → IsConsistent (init_scheduler s)
      × ((i : ℕ) → i < max_prio → contents (level (init_scheduler s) i) ≡ [])
      × (contents (init_scheduler s).running_list ≡ [])
unfolding init_scheduler
init_scheduler-IsConsistent s v =
    let done =
      init_levels-IsCleared max_prio 0 s (omega arith)
        (record { static = v; sizes = λ i l. elim l [ ]; counts = λ i l. elim l [ ] }) in
    (
      record {
        levels = done.static.levels;
        queues = λ i. level-IsValid (init_levels max_prio 0 s) i done;
        slots = done.counts;
        current = omega (arith, done.static.current);
        within = omega (arith, done.static.used);
        ready = emptied-IsValid (init_levels max_prio 0 s).ready_queue done.static.ready;
        waiting = emptied-IsValid (init_levels max_prio 0 s).run_queue done.static.waiting;
        running = emptied-IsValid (init_levels max_prio 0 s).running_list done.static.running;
      },
      λ i h. ap (λ n. take n (level (init_levels max_prio 0 s) i).proc) (done.sizes i h),
      refl,
    )
