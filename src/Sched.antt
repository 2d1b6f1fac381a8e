-- ===== src/Sched.antt =====
-- The scheduler of src/sched.c in the build's configuration (MLQ_SCHED): one ready queue for each
-- of the 140 priorities. The calls that get, put and add a process hold `queue_lock` while they use
-- the queues, so each of them is one step of the state; the static variables of `get_mlq_proc` are
-- fields of the state.
pub mod Levels
pub mod Scan
pub mod Laws
pub mod Invariant
pub mod Init
pub mod Enqueue
pub mod Busy
mod Examples
use os_assignment.Base.{
  ℕ, zero, suc, ◌+◌, ◌-◌, ◌%◌, List, [], ◌∷◌, Option, none, some, Bool, true, false, not, ◌&&◌,
  get_or, get_elem?, set, length, ltb, if◌then◌else◌,
}
use os_assignment.Process.{Store}
use os_assignment.Queue.{Queue, no_procs, empty, enqueue, dequeue}

abbrev pub max_prio : ℕ
max_prio = 140

-- `krnl_linked` says that the queue pointers of the kernel structure, which start as NULL, have
-- been set to the static queues; every process shares the one kernel structure `os`.
pub record Sched : Type 0 where
  pub mlq_ready_queue : List Queue
  pub slot : List ℕ
  pub cur_prio : ℕ
  pub used_slot : ℕ
  pub ready_queue : Queue
  pub run_queue : Queue
  pub running_list : Queue
  pub krnl_linked : Bool

-- &mlq_ready_queue[prio].
abbrev pub level : Sched → ℕ → Queue
level s prio = get_or s.mlq_ready_queue prio no_procs

-- The results of `queue_empty`: -1, 0 and 1.
pub data QueueEmpty : Type 0 where
  minus_one naught one_found : QueueEmpty

-- The loop of `queue_empty`, true when it runs through.
unfoldable pub levels_empty : List Queue → Bool
levels_empty [] = true
levels_empty (q ∷ qs) = empty q && levels_empty qs

unfoldable pub queue_empty : Sched → QueueEmpty
unfolding levels_empty empty
queue_empty s =
    if levels_empty s.mlq_ready_queue
    then (if empty s.ready_queue && empty s.run_queue then one_found else naught)
    else minus_one

-- The loop of `init_scheduler`, with the rounds that are left.
unfoldable pub init_levels : ℕ → ℕ → Sched → Sched
init_levels zero i s = s
init_levels (suc left) i s = init_levels left (i + 1) (record s {
  mlq_ready_queue = set s.mlq_ready_queue i (record (level s i) { size = 0 });
  slot = set s.slot i (max_prio - i);
})

unfoldable pub init_scheduler : Sched → Sched
unfolding init_levels
init_scheduler s =
    let s' = init_levels max_prio 0 s in
    record s' {
      ready_queue = record s'.ready_queue { size = 0 };
      run_queue = record s'.run_queue { size = 0 };
      running_list = record s'.running_list { size = 0 };
    }

-- Moving on to the next priority.
abbrev pub next_level : Sched → Sched
next_level s = record s { used_slot = 0; cur_prio = (s.cur_prio + 1) % max_prio }

-- Taking a process at the current priority.
unfoldable pub serve : Store → Sched → Option ℕ × Sched
serve procs s =
    let taken = dequeue procs (level s s.cur_prio) in
    (
      taken.0,
      record s {
        mlq_ready_queue = set s.mlq_ready_queue s.cur_prio taken.1;
        used_slot = s.used_slot + 1;
      },
    )

-- The loop of `get_mlq_proc`, with `MAX_PRIO - scanned` rounds left.
unfoldable pub scan : Store → ℕ → Sched → Option ℕ × Sched
unfolding empty serve
scan procs zero s = (none, s)
scan procs (suc left) s =
    let rest = scan procs left (next_level s) in
    if empty (level s s.cur_prio)
    then rest
    else (if ltb s.used_slot (get_or s.slot s.cur_prio 0) then serve procs s else rest)

-- If no process was found, the count starts again.
abbrev pub finish_scan : Option ℕ × Sched → Option ℕ × Sched
finish_scan (none, s) = (none, record s { used_slot = 0 })
finish_scan (some p, s) = (some p, s)

unfoldable pub get_mlq_proc : Store → Sched → Option ℕ × Sched
get_mlq_proc procs s = finish_scan (scan procs max_prio s)

-- enqueue(&mlq_ready_queue[proc->prio], proc); `none` is an index out of the array.
unfoldable pub enqueue_level : Sched → ℕ → ℕ → Option Sched
enqueue_level s prio proc =
    if ltb prio max_prio
    then (some
        (record s { mlq_ready_queue = set s.mlq_ready_queue prio (enqueue (level s prio) proc) }))
    else none

-- `proc` is not NULL.
unfoldable pub put_mlq_proc : Store → ℕ → Sched → Option Sched
unfolding enqueue_level
put_mlq_proc procs proc s =
    let linked = record s { krnl_linked = true } in
    let listed = record linked { running_list = enqueue linked.running_list proc } in
    enqueue_level listed (procs proc).prio proc

unfoldable pub add_mlq_proc : Store → ℕ → Sched → Option Sched
unfolding enqueue_level
add_mlq_proc procs proc s =
    let linked = record s { krnl_linked = true } in enqueue_level linked (procs proc).prio proc

-- The names that the rest of the program calls.
abbrev pub get_proc : Store → Sched → Option ℕ × Sched
get_proc = get_mlq_proc

abbrev pub put_proc : Store → ℕ → Sched → Option Sched
put_proc = put_mlq_proc

abbrev pub add_proc : Store → ℕ → Sched → Option Sched
add_proc = add_mlq_proc
