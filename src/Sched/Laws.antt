-- ===== src/Sched/Laws.antt =====
-- What `get_mlq_proc`, `put_mlq_proc` and `add_mlq_proc` do: who is served, and when nobody is.
use os_assignment.Base.{
  ℕ, zero, suc, ◌+◌, ◌-◌, ◌%◌, ◌<◌, ◌≡◌, ◌≢◌, ◌⊎◌, inl, inr, refl, sym, ap, subst, ◌∙◌, arith, List,
  [], ◌++◌, length, Option, none, some, true, false, none-ne-some,
}
use os_assignment.Process.{Store}
use os_assignment.Queue.{Queue, empty, dequeue}
use os_assignment.Queue.Array.{contents, IsValid, slots-eq}
use os_assignment.Queue.Choice.{IsChosen}
use os_assignment.Queue.Laws.{contents-dequeue}
use os_assignment.Sched.{Sched, max_prio, level, serve, scan, finish_scan, get_mlq_proc}
use os_assignment.Sched.Levels.{level-set_self, level-set_ne}
use os_assignment.Sched.Scan.{moved, IsPassed, IsReady, scan-Scans}
use os_assignment.Sched.Invariant.{IsConsistent, IsConsistent-HasSlots, moved-IsConsistent}

-- `p` is taken from the level of priority `i` with the rule of `dequeue`; the other levels and the
-- other queues stay.
pub record IsServed (procs : Store) (s : Sched) (i p : ℕ) (t : Sched) : Type 0 where
  pub front : List ℕ
  pub back : List ℕ
  pub chosen : IsChosen procs (contents (level s i)) front p back
  pub left : contents (level t i) ≡ front ++ back
  pub others : (j : ℕ) → i ≢ j → level t j ≡ level s j
  pub current : t.cur_prio ≡ i
  pub running : t.running_list ≡ s.running_list

not-empty-contents : (q : Queue) → IsValid q → empty q ≡ false → contents q ≢ []
unfolding empty
not-empty-contents q v h e =
    let (rest, slots, count) = slots-eq q v in ground (arith, ap (λ (l : List ℕ). length l) e)

serve-IsServed :
    (procs : Store) (s : Sched)
    → IsConsistent s
    → IsReady s
    → (p : ℕ) × ((serve procs s).0 ≡ some p) × IsServed procs s s.cur_prio p (serve procs s).1
unfolding serve
serve-IsServed procs s v ready =
    let q = level s s.cur_prio in
    let inside : s.cur_prio < length s.mlq_ready_queue = omega (arith, v.levels, v.current) in
    elim (contents-dequeue procs q (v.queues s.cur_prio)).1 [
      | inl (none_there, e) ↦ absurd (not-empty-contents q (v.queues s.cur_prio) ready.0 none_there)
      | inr (xs, p, ys, chosen, taken, rest, fewer) ↦ (
        p,
        taken,
        record {
          front = xs;
          back = ys;
          chosen = chosen;
          left = ap contents (level-set_self s (dequeue procs q).1 s.cur_prio inside) ∙ rest;
          others = level-set_ne s (dequeue procs q).1 s.cur_prio;
          current = refl;
          running = refl;
        },
      )
    ]

IsServed-moved :
    (procs : Store) (s : Sched) (d p : ℕ) (t : Sched)
    → s.cur_prio < max_prio
    → IsServed procs (moved s d) (moved s d).cur_prio p t
    → IsServed procs s ((s.cur_prio + d) % max_prio) p t
IsServed-moved procs s zero p t h v =
    let same : s.cur_prio ≡ (s.cur_prio + 0) % max_prio = omega arith in
    subst (λ i. IsServed procs s i p t) same v
IsServed-moved procs s (suc d) p t h v = record {
  front = v.front;
  back = v.back;
  chosen = v.chosen;
  left = v.left;
  others = v.others;
  current = v.current;
  running = v.running;
}

IsReady-not-IsPassed :
    (s : Sched) (d : ℕ) → s.cur_prio < max_prio → IsReady (moved s d) → ¬ IsPassed s d
IsReady-not-IsPassed s zero h (full, free) (inl is_empty) =
    let same : (s.cur_prio + 0) % max_prio ≡ s.cur_prio = omega arith in
    let bad = ap (λ i. empty (level s i)) same in cc
IsReady-not-IsPassed s zero h (full, free) (inr (first, used)) = absurd (omega arith)
IsReady-not-IsPassed s (suc d) h (full, free) (inl is_empty) = cc
IsReady-not-IsPassed s (suc d) h (full, free) (inr (first, used)) = absurd (omega arith)

finish_scan-some : (r : Option ℕ × Sched) (p : ℕ) → r.0 ≡ some p → finish_scan r ≡ r
finish_scan-some (none, s) p e = absurd (none-ne-some e)
finish_scan-some (some q, s) p e = refl

-- With the invariant, a call of `get_mlq_proc` ends in one of two ways. It returns NULL, every
-- priority is passed over (its queue is empty, or it is the current one and its slots are used
-- up), and only `used_slot` changes, to 0. Or it returns a process of the first priority, in
-- cyclic order from the current one, that is not passed over: the first process of the lowest
-- `priority` there, which is taken out of that queue while all other queues stay.
pub get_mlq_proc_lem :
    (procs : Store) (s : Sched)
    → IsConsistent s
    → ((get_mlq_proc procs s ≡ (none, record s { used_slot = 0 }))
        × ((d : ℕ) → d < max_prio → IsPassed s d))
      ⊎ ((d : ℕ) × (d < max_prio)
          × ((e : ℕ) → e < d → IsPassed s e)
          × ¬ IsPassed s d
          × (p : ℕ) × ((get_mlq_proc procs s).0 ≡ some p)
          × IsServed procs s ((s.cur_prio + d) % max_prio) p (get_mlq_proc procs s).1)
unfolding get_mlq_proc
get_mlq_proc_lem procs s v =
    elim (scan-Scans procs max_prio s (IsConsistent-HasSlots s v) v.current) [
      | inl (e, all) ↦
          let back : (s.cur_prio + max_prio) % max_prio ≡ s.cur_prio = omega (arith, v.current) in
          inl (
            ap finish_scan e ∙ ap (λ c. (none, record s { cur_prio = c; used_slot = 0 })) back,
            all,
          )
      | inr (d, lt, e, ready, before) ↦
          let (p, taken, served) =
            serve-IsServed procs (moved s d) (moved-IsConsistent s d v) ready in
          let result : finish_scan (scan procs max_prio s) ≡ serve procs (moved s d) =
            ap finish_scan e ∙ finish_scan-some (serve procs (moved s d)) p taken in
          inr (
            d,
            lt,
            before,
            IsReady-not-IsPassed s d v.current ready,
            p,
            ap (λ (r : Option ℕ × Sched). r.0) result ∙ taken,
            subst (λ (r : Option ℕ × Sched). IsServed procs s ((s.cur_prio + d) % max_prio) p r.1)
                (sym result) (IsServed-moved procs s d p _ v.current served),
          )
    ]

pub reset-IsConsistent : (s : Sched) → IsConsistent s → IsConsistent (record s { used_slot = 0 })
reset-IsConsistent s v = record {
  levels = v.levels;
  queues = v.queues;
  slots = v.slots;
  current = v.current;
  within = omega arith;
  ready = v.ready;
  waiting = v.waiting;
  running = v.running;
}

-- If the level of some priority is not empty and no slot is used, not every priority is passed.
not-all-IsPassed :
    (s : Sched) (i : ℕ)
    → IsConsistent s
    → i < max_prio
    → empty (level s i) ≡ false
    → s.used_slot ≡ 0
    → ¬ ((d : ℕ) → d < max_prio → IsPassed s d)
not-all-IsPassed s i v h full fresh all =
    let d : ℕ = (i + max_prio - s.cur_prio) % max_prio in
    let at : (s.cur_prio + d) % max_prio ≡ i = omega (arith, v.current) in
    elim (all d (omega arith)) [
      | inl is_empty ↦ let bad = ap (λ k. empty (level s k)) at in cc
      | inr (first, used) ↦ absurd (omega (arith, v.slots s.cur_prio v.current, v.current))
    ]

-- With the invariant, while some process waits, at the latest the second of two calls of
-- `get_mlq_proc` in a row returns a process.
pub get_mlq_proc-retry :
    (procs : Store) (s : Sched) (i : ℕ)
    → IsConsistent s
    → i < max_prio
    → empty (level s i) ≡ false
    → ((p : ℕ) × ((get_mlq_proc procs s).0 ≡ some p))
      ⊎ (((get_mlq_proc procs s).0 ≡ none)
          × ((p : ℕ) × ((get_mlq_proc procs (get_mlq_proc procs s).1).0 ≡ some p)))
get_mlq_proc-retry procs s i v h full = elim (get_mlq_proc_lem procs s v) [
  | inr (d, lt, before, free, p, taken, served) ↦ inl (p, taken)
  | inl (e, all) ↦
      let again = record s { used_slot = 0 } in
      elim (get_mlq_proc_lem procs again (reset-IsConsistent s v)) [
        | inr (d, lt, before, free, p, taken, served) ↦ inr (
          ap (λ (r : Option ℕ × Sched). r.0) e,
          (p, ap (λ (r : Option ℕ × Sched). (get_mlq_proc procs r.1).0) e ∙ taken),
        )
        | inl (e', all') ↦
            absurd (not-all-IsPassed again i (reset-IsConsistent s v) h full refl all')
      ]
]

-- With the invariant: if processes wait at the current priority only and its slots are used up,
-- `get_mlq_proc` returns NULL although they wait, and only `used_slot` changes, to 0.
pub get_mlq_proc-exhausted :
    (procs : Store) (s : Sched)
    → IsConsistent s
    → empty (level s s.cur_prio) ≡ false
    → ((j : ℕ) → j < max_prio → j ≢ s.cur_prio → empty (level s j) ≡ true)
    → s.used_slot ≡ max_prio - s.cur_prio
    → get_mlq_proc procs s ≡ (none, record s { used_slot = 0 })
get_mlq_proc-exhausted procs s v full alone used = elim (get_mlq_proc_lem procs s v) [
  | inl (e, all) ↦ e
  | inr (zero, lt, before, free, p, taken, served) ↦
      absurd (free (inr (refl, omega (arith, v.slots s.cur_prio v.current))))
  | inr (suc d, lt, before, free, p, taken, served) ↦ absurd (
      free (inl (alone ((s.cur_prio + suc d) % max_prio) (omega arith) (omega (arith, v.current)))))
]
