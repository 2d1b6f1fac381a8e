-- ===== src/Syscall/Laws.antt =====
-- Which processes a system call finds.
use os_assignment.Base.{
  ℕ, zero, suc, ◌+◌, ◌<◌, ◌≡◌, ◌≢◌, ◌⊎◌, inl, inr, refl, sym, ap, subst, arith, ◌∙◌, List, Option,
  none, some, some-inj, none-ne-some, Bool, true, false, ltb, Bool-cases, get_or, get_or,
  if◌then◌else◌,
}
use os_assignment.Process.{Store}
use os_assignment.Queue.{Queue, empty}
use os_assignment.Sched.{
  Sched, max_prio, level, next_level, serve, scan, finish_scan, get_mlq_proc, enqueue_level,
  add_mlq_proc,
}
use os_assignment.Syscall.{is_process, find_from, find_proc, find_caller}

-- `p` is the first process with this `pid` in the slots from `i` on, or NULL if there is none.
abbrev pub IsFound : Store → List ℕ → ℕ → ℕ → ℕ → ℕ → Type 0
IsFound procs arr left i pid p =
    ((p ≡ 0) × ((k : ℕ) → k < left → is_process procs pid (get_or arr (i + k) 0) ≡ false))
    ⊎ ((p ≢ 0)
        × ((procs p).pid ≡ pid)
        × ((k : ℕ) × (k < left)
            × (get_or arr (i + k) 0 ≡ p)
            × ((j : ℕ) → j < k → is_process procs pid (get_or arr (i + j) 0) ≡ false)))

from_next :
    (procs : Store) (arr : List ℕ) (i n pid : ℕ)
    → is_process procs pid (get_or arr i 0) ≡ false
    → ((k : ℕ) → k < n → is_process procs pid (get_or arr (i + 1 + k) 0) ≡ false)
    → (k : ℕ) → k < suc n
    → is_process procs pid (get_or arr (i + k) 0) ≡ false
from_next procs arr i n pid here later zero h =
    ap (λ j. is_process procs pid (get_or arr j 0)) (omega arith) ∙ here
from_next procs arr i n pid here later (suc k) h =
    ap (λ j. is_process procs pid (get_or arr j 0)) (omega arith) ∙ later k (omega arith)

find_from-IsFound :
    (procs : Store) (arr : List ℕ) (left i pid : ℕ)
    → IsFound procs arr left i pid (find_from procs arr left i pid)
unfolding find_from
find_from-IsFound procs arr zero i pid = inl (refl, λ k h. absurd (omega arith))
find_from-IsFound procs arr (suc left) i pid =
    elim (Bool-cases (is_process procs pid (get_or arr i 0))) [
      | inl here ↦ rw here (
          inr (
            ground arith,
            ground arith,
            (0, omega arith, ap (λ j. get_or arr j 0) (omega arith), λ j h. absurd (omega arith)),
          ))
      | inr other ↦ rw other (elim (find_from-IsFound procs arr left (i + 1) pid) [
        | inl (null, later) ↦ inl (null, from_next procs arr i left pid other later)
        | inr (real, same, (k, inside, at, before)) ↦ inr (
          real,
          same,
          (
            suc k,
            omega arith,
            ap (λ j. get_or arr j 0) (omega arith) ∙ at,
            λ j h. from_next procs arr i k pid other before j (omega arith),
          ),
        )
      ])
    ]

-- The search of a queue gives the first process with this `pid` among the slots in use, and NULL
-- exactly if none of them has it.
pub find_proc-IsFound :
    (procs : Store) (q : Queue) (pid : ℕ)
    → IsFound procs q.proc q.size 0 pid (find_proc procs q pid)
unfolding find_proc
find_proc-IsFound procs q pid = find_from-IsFound procs q.proc q.size 0 pid

-- Sequences of calls that add new processes and take processes for the CPUs.
pub data Dispatches (procs : Store) : Sched → Sched → Type 0 where
  at_start : {s : Sched} → Dispatches procs s s
  added :
      {s u : Sched} (t : Sched) (p : ℕ)
      → Dispatches procs s t
      → add_mlq_proc procs p t ≡ some u
      → Dispatches procs s u
  taken :
      {s u : Sched} (t : Sched)
      → Dispatches procs s t
      → (get_mlq_proc procs t).1 ≡ u
      → Dispatches procs s u

-- No process stands in the two queues that a system call looks at.
abbrev pub IsUnlisted : Sched → Type 0
IsUnlisted s = (s.ready_queue.size ≡ 0) × (s.running_list.size ≡ 0)

scan-IsUnlisted :
    (procs : Store) (left : ℕ) (s : Sched) → IsUnlisted s → IsUnlisted (scan procs left s).1
unfolding scan serve
scan-IsUnlisted procs zero s u = u
scan-IsUnlisted procs (suc left) s u = elim (Bool-cases (empty (level s s.cur_prio))) [
  | inl e ↦ rw e (scan-IsUnlisted procs left (next_level s) u)
  | inr e ↦ elim (Bool-cases (ltb s.used_slot (get_or s.slot s.cur_prio 0))) [
    | inl f ↦ rw (e, f) u
    | inr f ↦ rw (e, f) (scan-IsUnlisted procs left (next_level s) u)
  ]
]

finish_scan-IsUnlisted : (r : Option ℕ × Sched) → IsUnlisted r.1 → IsUnlisted (finish_scan r).1
finish_scan-IsUnlisted (none, s) u = u
finish_scan-IsUnlisted (some p, s) u = u

if-some : (b : Bool) (s t : Sched) → (if b then some s else none) ≡ some t → s ≡ t
if-some true s t e = some-inj e
if-some false s t e = absurd (none-ne-some e)

add_mlq_proc-IsUnlisted :
    (procs : Store) (p : ℕ) (s t : Sched)
    → IsUnlisted s
    → add_mlq_proc procs p s ≡ some t
    → IsUnlisted t
unfolding add_mlq_proc enqueue_level
add_mlq_proc-IsUnlisted procs p s t u e =
    let e' = if-some (ltb (procs p).prio max_prio) _ t e in
    (
      sym (ap (λ (r : Sched). r.ready_queue.size) e') ∙ u.0,
      sym (ap (λ (r : Sched). r.running_list.size) e') ∙ u.1,
    )

Dispatches-IsUnlisted :
    (procs : Store) {s t : Sched} → Dispatches procs s t → IsUnlisted s → IsUnlisted t
unfolding get_mlq_proc
Dispatches-IsUnlisted procs at_start u = u
Dispatches-IsUnlisted procs (added {u = v} t p d e) u =
    add_mlq_proc-IsUnlisted procs p t v (Dispatches-IsUnlisted procs d u) e
Dispatches-IsUnlisted procs (taken {u = v} t d e) u = subst IsUnlisted e (
    finish_scan-IsUnlisted (scan procs max_prio t)
      (scan-IsUnlisted procs max_prio t (Dispatches-IsUnlisted procs d u)))

-- From a state whose ready queue and running list are empty, as `init_scheduler` leaves it, and
-- after any calls of `add_mlq_proc` and `get_mlq_proc`: a system call finds no caller, whatever its
-- `pid`. So it fails for a process in its first time slice, until some process was put back.
pub find_caller-unlisted :
    (procs : Store) (s t : Sched) (pid : ℕ)
    → Dispatches procs s t
    → IsUnlisted s
    → find_caller procs t pid ≡ 0
unfolding find_caller find_proc find_from
find_caller-unlisted procs s t pid d u =
    let (waiting, running) = Dispatches-IsUnlisted procs d u in
    rw (waiting, running)
      (elim (Bool-cases t.krnl_linked) [ inl e ↦ rw e refl | inr e ↦ rw e refl ])
