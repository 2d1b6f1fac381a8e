-- ===== src/Sched/Scan.antt =====
-- The loop of `get_mlq_proc`: which priorities it passes over, and where it stops.
use os_assignment.Base.{
  ℕ, zero, suc, ◌+◌, ◌%◌, ◌≤◌, ◌<◌, ◌≡◌, ◌⊎◌, inl, inr, refl, sym, ap, subst, ◌∙◌, arith, Option,
  none, true, false, get_or, ltb, Bool-cases,
}
use os_assignment.Process.{Store}
use os_assignment.Queue.{empty}
use os_assignment.Sched.{Sched, max_prio, level, next_level, serve, scan}

-- The state after `d` moves to the next priority.
abbrev pub moved : Sched → ℕ → Sched
moved s zero = s
moved s (suc d) = record s { cur_prio = (s.cur_prio + suc d) % max_prio; used_slot = 0 }

-- The priority `d` moves on cannot be served: its queue is empty, or `d` is 0 and its slots are
-- used up.
abbrev pub IsPassed : Sched → ℕ → Type 0
IsPassed s d =
    (empty (level s ((s.cur_prio + d) % max_prio)) ≡ true)
    ⊎ ((d ≡ 0) × (get_or s.slot s.cur_prio 0 ≤ s.used_slot))

-- Every priority has a slot.
abbrev pub HasSlots : Sched → Type 0
HasSlots s = (i : ℕ) → i < max_prio → 0 < get_or s.slot i 0

-- The current priority can be served.
abbrev pub IsReady : Sched → Type 0
IsReady s = (empty (level s s.cur_prio) ≡ false) × (s.used_slot < get_or s.slot s.cur_prio 0)

-- How the loop ends after at most `left` rounds.
abbrev pub Scans : Store → ℕ → Sched → Option ℕ × Sched → Type 0
Scans procs left s r =
    ((r ≡ (none, moved s left)) × ((d : ℕ) → d < left → IsPassed s d))
    ⊎ ((d : ℕ) × (d < left)
        × (r ≡ serve procs (moved s d))
        × IsReady (moved s d)
        × ((e : ℕ) → e < d → IsPassed s e))

moved-next : (s : Sched) (d : ℕ) → moved (next_level s) d ≡ moved s (suc d)
moved-next s zero = refl
moved-next s (suc d) = ap (λ (c : ℕ). record s { cur_prio = c; used_slot = 0 }) (omega arith)

IsPassed-next :
    (s : Sched)
    → HasSlots s
    → IsPassed s 0
    → (d : ℕ) → ((e : ℕ) → e < d → IsPassed (next_level s) e)
    → (e : ℕ) → e < suc d
    → IsPassed s e
IsPassed-next s slots here d rest zero h = here
IsPassed-next s slots here d rest (suc e) h = elim (rest e (omega arith)) [
  | inl is_empty ↦
      let same : ((s.cur_prio + 1) % max_prio + e) % max_prio ≡ (s.cur_prio + suc e) % max_prio =
        omega arith in
      inl (ap (λ i. empty (level s i)) (sym same) ∙ is_empty)
  | inr (first, used) ↦ absurd (omega (arith, slots ((s.cur_prio + 1) % max_prio) (omega arith)))
]

Scans-next :
    (procs : Store) (left : ℕ) (s : Sched) (r : Option ℕ × Sched)
    → HasSlots s
    → IsPassed s 0
    → Scans procs left (next_level s) r
    → Scans procs (suc left) s r
Scans-next procs left s r slots here (inl (e, all)) =
    inl (e ∙ ap (λ t. (none, t)) (moved-next s left), IsPassed-next s slots here left all)
Scans-next procs left s r slots here (inr (d, lt, e, ready, before)) = inr (
  suc d,
  omega arith,
  e ∙ ap (serve procs) (moved-next s d),
  subst IsReady (moved-next s d) ready,
  IsPassed-next s slots here d before,
)

-- The loop passes over priorities until the first one that can be served.
pub scan-Scans :
    (procs : Store) (left : ℕ) (s : Sched)
    → HasSlots s
    → s.cur_prio < max_prio
    → Scans procs left s (scan procs left s)
unfolding scan
scan-Scans procs zero s slots h = inl (refl, λ d lt. elim lt [ ])
scan-Scans procs (suc left) s slots h =
    let here : (s.cur_prio + 0) % max_prio ≡ s.cur_prio = omega arith in
    let rest = scan-Scans procs left (next_level s) slots (omega arith) in
    elim (Bool-cases (empty (level s s.cur_prio))) [
      | inl is_empty ↦
          rw is_empty (
            Scans-next procs left s _ slots (inl (ap (λ i. empty (level s i)) here ∙ is_empty))
              rest)
      | inr not_empty ↦ elim (Bool-cases (ltb s.used_slot (get_or s.slot s.cur_prio 0))) [
        | inl free ↦
            rw (not_empty, free)
              (inr (0, omega arith, refl, (not_empty, ground arith), λ e lt. elim lt [ ]))
        | inr used ↦
            rw (not_empty, used) (Scans-next procs left s _ slots (inr (refl, ground arith)) rest)
      ]
    ]
