-- ===== src/Timer/Ending.antt =====
-- The timer ends only after every device, or when it is stopped.
use os_assignment.Base.{
  ℕ, ◌+◌, ◌≤◌, ◌<◌, ◌≡◌, ◌⊎◌, inl, inr, refl, sym, ap, subst, ◌∙◌, arith, true, false, Bool-cases,
  if◌then◌else◌,
}
use native.Mathlib.Decide.{ℕ_discrete}
use os_assignment.Timer.{
  Device, Phase, tests, stops, frees, enters, leaves, collects, releases, over, Timer, start_timer,
  put_device, call_next_slot, leave_next_slot, detach_event, Step, calls_next_slot,
  leaves_next_slot, detaches, sees, ticks, lets_continue, goes_on, ends, Reaches, here, later,
  attached,
}
use os_assignment.Timer.Barrier.{put_device-cases}

-- The first `n` devices are detached.
abbrev pub Detached : Timer → ℕ → Type 0
Detached t n = (j : ℕ) → j < n → (t.devs j).fsh ≡ true

-- `fsh` of the `n` devices seen were detached.
abbrev Counts : Timer → ℕ → ℕ → ℕ → Type 0
Counts t n fsh event = (event ≡ n) × (fsh ≤ event) × (fsh ≡ event → Detached t n)

abbrev HasCounted : Timer → Phase → Type 0
HasCounted t (collects i fsh event) = Counts t i fsh event
HasCounted t (releases i fsh event) = Counts t t.count fsh event
HasCounted t over = (t.timer_stop ≡ true) ⊎ Detached t t.count
HasCounted t tests = Unit

-- Devices stay detached.
abbrev StayDetached : Timer → Timer → Type 0
StayDetached t u = (j : ℕ) → (t.devs j).fsh ≡ true → (u.devs j).fsh ≡ true

put_device-StayDetached :
    (t : Timer) (i : ℕ) (d : Device)
    → ((t.devs i).fsh ≡ true → d.fsh ≡ true)
    → StayDetached t (put_device t i d)
put_device-StayDetached t i d h j gone = elim (put_device-cases t i j d) [
  | inl (e, same) ↦ ap (λ (k : Device). k.fsh) same ∙ h (subst (λ k. (t.devs k).fsh ≡ true) e gone)
  | inr (ne, same) ↦ ap (λ (k : Device). k.fsh) same ∙ gone
]

HasCounted-stays :
    (t u : Timer) (phase : Phase)
    → u.count ≡ t.count
    → (t.timer_stop ≡ true → u.timer_stop ≡ true)
    → StayDetached t u
    → HasCounted t phase
    → HasCounted u phase
HasCounted-stays t u (collects i fsh event) size stop stay (count, less, all) =
    (count, less, λ e j lt. stay j (all e j lt))
HasCounted-stays t u (releases i fsh event) size stop stay (count, less, all) =
    (count ∙ sym size, less, λ e j lt. stay j (all e j (subst (λ n. j < n) size lt)))
HasCounted-stays t u over size stop stay (inl stopped) = inl (stop stopped)
HasCounted-stays t u over size stop stay (inr all) =
    inr (λ j lt. stay j (all j (subst (λ n. j < n) size lt)))
HasCounted-stays t u tests size stop stay all = tt

put_device-HasCounted :
    (t : Timer) (i : ℕ) (d : Device)
    → ((t.devs i).fsh ≡ true → d.fsh ≡ true)
    → HasCounted t t.phase
    → HasCounted (put_device t i d) t.phase
unfolding put_device
put_device-HasCounted t i d h v =
    HasCounted-stays t (put_device t i d) t.phase refl (λ e. e) (put_device-StayDetached t i d h) v

counted : (t : Timer) (phase : Phase) → t.phase ≡ phase → HasCounted t t.phase → HasCounted t phase
counted t phase e v = subst (HasCounted t) e v

sees-Counts :
    (t : Timer) (i fsh event : ℕ)
    → Counts t i fsh event
    → Counts t (i + 1) (if (t.devs i).fsh then fsh + 1 else fsh) (event + 1)
sees-Counts t i fsh event (count, less, all) = elim (Bool-cases (t.devs i).fsh) [
  | inl gone ↦ rw gone (
    omega arith,
    omega arith,
    λ e j lt. elim (ℕ_discrete j i) [
      | yes same ↦ ap (λ k. (t.devs k).fsh) same ∙ gone
      | no other ↦ all (omega arith) j (omega arith)
    ],
  )
  | inr still ↦ rw still (omega arith, omega arith, λ e. absurd (omega arith))
]

Step-HasCounted : {t u : Timer} → Step t u → HasCounted t t.phase → HasCounted u u.phase
unfolding put_device
Step-HasCounted {t} (calls_next_slot i lt works) v =
    put_device-HasCounted t i (call_next_slot (t.devs i)) (λ e. e) v
Step-HasCounted {t} (leaves_next_slot i lt asleep free) v =
    put_device-HasCounted t i (leave_next_slot (t.devs i)) (λ e. e) v
Step-HasCounted {t} (detaches i lt works) v =
    put_device-HasCounted t i (detach_event (t.devs i)) (λ e. refl) v
Step-HasCounted {t} (sees i fsh event e lt seen) v =
    sees-Counts t i fsh event (counted t (collects i fsh event) e v)
Step-HasCounted {t} (ticks fsh event e) v = counted t (collects t.count fsh event) e v
Step-HasCounted {t} (lets_continue i fsh event e lt) v =
    HasCounted-stays t (put_device t i (record (t.devs i) { done = false }))
      (releases (i + 1) fsh event) refl (λ e. e)
      (put_device-StayDetached t i (record (t.devs i) { done = false }) (λ gone. gone))
      (counted t (releases i fsh event) e v)
Step-HasCounted {t} (goes_on fsh event e ne) v = tt
Step-HasCounted {t} (ends fsh event e same) v =
    inr ((counted t (releases t.count fsh event) e v).2 same)
Step-HasCounted {t} stops v =
    HasCounted-stays t (record t { timer_stop = true }) t.phase refl (λ e. refl) (λ j gone. gone) v
Step-HasCounted {t} (frees e stop) v =
    subst (HasCounted (record t { count = 0 })) (sym e) (inl stop)
Step-HasCounted {t} (enters e go) v = (refl, omega arith, λ e j lt. absurd (omega arith))
Step-HasCounted {t} (leaves e stop) v = inl stop

Reaches-HasCounted : {t u : Timer} → Reaches t u → HasCounted t t.phase → HasCounted u u.phase
Reaches-HasCounted here v = v
Reaches-HasCounted (later r s) v = Step-HasCounted s (Reaches-HasCounted r v)

-- From the start with `n` devices, however the steps of the timer, of the devices and of `stop_timer`
-- follow each other, `timer_routine` is behind its loop only when `stop_timer` was called or every
-- device is detached.
pub Reaches-ending :
    (n : ℕ) (t : Timer)
    → Reaches (start_timer (attached n)) t
    → t.phase ≡ over
    → (t.timer_stop ≡ true) ⊎ Detached t t.count
unfolding start_timer
Reaches-ending n t r e = counted t over e (Reaches-HasCounted r tt)
