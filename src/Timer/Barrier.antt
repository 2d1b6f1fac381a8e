-- ===== src/Timer/Barrier.antt =====
-- The time slots keep the devices together.
use os_assignment.Base.{
  ℕ, ◌+◌, ◌≤◌, ◌<◌, ◌≡◌, ◌≢◌, ◌⊎◌, inl, inr, refl, sym, ap, subst, ◌∙◌, arith, true, false, ◌==◌,
  ◌||◌, Bool-cases,
}
use native.Mathlib.Decide.{ℕ_discrete}
use os_assignment.Timer.{
  Device, Phase, tests, stops, frees, enters, leaves, collects, releases, over, Timer, start_timer,
  put_device, call_next_slot, leave_next_slot, detach_event, Step, calls_next_slot,
  leaves_next_slot, detaches, sees, ticks, lets_continue, goes_on, ends, Reaches, here, later,
  attached,
}

-- The device has done its job in slot `time` and waits, or has not done it yet.
abbrev pub InSlot : ℕ → Device → Type 0
InSlot time d =
    ((d.done ≡ true) × (d.asleep ≡ true) × (d.calls ≡ time + 1))
    ⊎ ((d.done ≡ false) × (d.calls ≡ time))

-- The device has done its job in the slot before `time` and was not let on yet.
abbrev pub IsHeld : ℕ → Device → Type 0
IsHeld time d = (d.done ≡ true) × (d.asleep ≡ true) × (d.calls ≡ time)

abbrev pub InPhase : Phase → ℕ → ℕ → Device → Type 0
InPhase (collects i fsh event) time j d = InSlot time d × (j < i → d.done ≡ true)
InPhase (releases i fsh event) time j d = (j < i → InSlot time d) × (i ≤ j → IsHeld time d)
InPhase over time j d = InSlot time d
InPhase tests time j d = InSlot time d

-- Every device that is not detached is where the phase of the timer lets it be.
abbrev pub IsInStep : Timer → Type 0
IsInStep t = (j : ℕ) → j < t.count → (t.devs j).fsh ≡ false → InPhase t.phase t.time j (t.devs j)

called-InSlot :
    (time : ℕ) (d : Device) → d.asleep ≡ false → InSlot time d → InSlot time (call_next_slot d)
called-InSlot time d awake (inl (done, asleep, count)) = absurd (let e = sym awake ∙ asleep in cc)
called-InSlot time d awake (inr (working, count)) = inl (refl, refl, ap (λ n. n + 1) count)

called-InPhase :
    (phase : Phase) (time j : ℕ) (d : Device)
    → d.asleep ≡ false
    → InPhase phase time j d
    → InPhase phase time j (call_next_slot d)
called-InPhase (collects i f e) time j d awake (slot, seen) =
    (called-InSlot time d awake slot, λ lt. refl)
called-InPhase (releases i f e) time j d awake (let_on, held) = (
  (λ lt. called-InSlot time d awake (let_on lt)),
  (λ le. absurd (let e = sym awake ∙ (held le).1 in cc)),
)
called-InPhase over time j d awake slot = called-InSlot time d awake slot
called-InPhase tests time j d awake slot = called-InSlot time d awake slot

left-InSlot :
    (time : ℕ) (d : Device) → d.done ≡ false → InSlot time d → InSlot time (leave_next_slot d)
left-InSlot time d free (inl (done, asleep, count)) = absurd (let e = sym free ∙ done in cc)
left-InSlot time d free (inr (working, count)) = inr (working, count)

left-InPhase :
    (phase : Phase) (time j : ℕ) (d : Device)
    → d.done ≡ false
    → InPhase phase time j d
    → InPhase phase time j (leave_next_slot d)
left-InPhase (collects i f e) time j d free (slot, seen) = (left-InSlot time d free slot, seen)
left-InPhase (releases i f e) time j d free (let_on, held) = (
  (λ lt. left-InSlot time d free (let_on lt)),
  (λ le. absurd (let e = sym free ∙ (held le).0 in cc)),
)
left-InPhase over time j d free slot = left-InSlot time d free slot
left-InPhase tests time j d free slot = left-InSlot time d free slot

-- A changed device, or another one.
pub put_device-cases :
    (t : Timer) (i j : ℕ) (d : Device)
    → ((j ≡ i) × ((put_device t i d).devs j ≡ d))
      ⊎ ((j ≢ i) × ((put_device t i d).devs j ≡ t.devs j))
unfolding put_device
put_device-cases t i j d = elim (ℕ_discrete j i) [
  | yes e ↦ let same : (j == i) ≡ true = ground arith in inl (e, rw same refl)
  | no ne ↦ let other : (j == i) ≡ false = ground arith in inr (ne, rw other refl)
]

-- One device changes, and the others stay.
put_device-IsInStep :
    (t : Timer) (i : ℕ) (d : Device)
    → IsInStep t
    → (i < t.count → d.fsh ≡ false → InPhase t.phase t.time i d)
    → IsInStep (put_device t i d)
unfolding put_device
put_device-IsInStep t i d v h j lt attached_still = elim (put_device-cases t i j d) [
  | inl (e, same) ↦ subst (InPhase t.phase t.time j) (sym same) (
      subst (λ k. InPhase t.phase t.time k d) (sym e)
        (h (subst (λ k. k < t.count) e lt)
          (sym (ap (λ (k : Device). k.fsh) same) ∙ attached_still)))
  | inr (ne, same) ↦
      subst (InPhase t.phase t.time j) (sym same)
        (v j lt (sym (ap (λ (k : Device). k.fsh) same) ∙ attached_still))
]

-- What the invariant says at the phase of the timer.
at_phase :
    (t : Timer) (phase : Phase)
    → t.phase ≡ phase
    → IsInStep t
    → (j : ℕ) → j < t.count
    → (t.devs j).fsh ≡ false
    → InPhase phase t.time j (t.devs j)
at_phase t phase e v j lt attached_still =
    subst (λ p. InPhase p t.time j (t.devs j)) e (v j lt attached_still)

seen-done : (d : Device) → (d.done || d.fsh) ≡ true → d.fsh ≡ false → d.done ≡ true
seen-done d e attached_still = elim (Bool-cases d.done) [
  | inl done ↦ done
  | inr working ↦ absurd (
      let e' : (false || false) ≡ true =
        subst (λ b. (b || false) ≡ true) working
          (subst (λ b. (d.done || b) ≡ true) attached_still e) in
      cc)
]

released-InSlot : (time : ℕ) (d : Device) → IsHeld time d → InSlot time (record d { done = false })
released-InSlot time d (done, asleep, count) = inr (refl, count)

done-IsHeld : (time : ℕ) (d : Device) → d.done ≡ true → InSlot time d → IsHeld (time + 1) d
done-IsHeld time d done (inl slot) = slot
done-IsHeld time d done (inr (working, count)) = absurd (let e = sym working ∙ done in cc)

Step-IsInStep : {t u : Timer} → Step t u → IsInStep t → IsInStep u
unfolding put_device
Step-IsInStep {t} (calls_next_slot i lt (awake, here_still)) v =
    put_device-IsInStep t i (call_next_slot (t.devs i)) v
      (λ lt' f. called-InPhase t.phase t.time i (t.devs i) awake (v i lt' f))
Step-IsInStep {t} (leaves_next_slot i lt asleep free) v =
    put_device-IsInStep t i (leave_next_slot (t.devs i)) v
      (λ lt' f. left-InPhase t.phase t.time i (t.devs i) free (v i lt' f))
Step-IsInStep {t} (detaches i lt works) v =
    put_device-IsInStep t i (detach_event (t.devs i)) v (λ lt' f. absurd (let e = f in cc))
Step-IsInStep {t} (sees i fsh event e lt seen) v = λ j lt' f.
    let (slot, before) = at_phase t (collects i fsh event) e v j lt' f in
    (
      slot,
      λ less. elim (ℕ_discrete j i) [
        | yes same ↦
            seen-done (t.devs j)
              (subst (λ k. ((t.devs k).done || (t.devs k).fsh) ≡ true) (sym same) seen) f
        | no other ↦ before (omega arith)
      ],
    )
Step-IsInStep {t} (ticks fsh event e) v = λ j lt f.
    let (slot, before) = at_phase t (collects t.count fsh event) e v j lt f in
    ((λ less. absurd (omega arith)), (λ le. done-IsHeld t.time (t.devs j) (before lt) slot))
Step-IsInStep {t} (lets_continue i fsh event e lt) v = λ j lt' f.
    let released = record (t.devs i) { done = false } in
    elim (put_device-cases t i j released) [
      | inl (same, there) ↦ subst (InPhase (releases (i + 1) fsh event) t.time j) (sym there) (
        (λ less. released-InSlot t.time (t.devs i) (
            (at_phase t (releases i fsh event) e v i lt
                (sym (ap (λ (k : Device). k.fsh) there) ∙ f)).1
              (omega arith))),
        (λ le. absurd (omega arith)),
      )
      | inr (other, there) ↦
          let (let_on, held) =
            at_phase t (releases i fsh event) e v j lt'
              (sym (ap (λ (k : Device). k.fsh) there) ∙ f) in
          subst (InPhase (releases (i + 1) fsh event) t.time j) (sym there)
            ((λ less. let_on (omega arith)), (λ le. held (omega arith)))
    ]
Step-IsInStep {t} (goes_on fsh event e ne) v =
    λ j lt f. (at_phase t (releases t.count fsh event) e v j lt f).0 lt
Step-IsInStep stops v = v
Step-IsInStep (frees e stop) v = λ j lt f. absurd (omega arith)
Step-IsInStep {t} (enters e go) v =
    λ j lt f. (at_phase t tests e v j lt f, λ less. absurd (omega arith))
Step-IsInStep {t} (leaves e stop) v = λ j lt f. at_phase t tests e v j lt f
Step-IsInStep {t} (ends fsh event e same) v =
    λ j lt f. (at_phase t (releases t.count fsh event) e v j lt f).0 lt

Reaches-IsInStep : {t u : Timer} → Reaches t u → IsInStep t → IsInStep u
Reaches-IsInStep here v = v
Reaches-IsInStep (later r s) v = Step-IsInStep s (Reaches-IsInStep r v)

started-IsInStep : (n : ℕ) → IsInStep (start_timer (attached n))
unfolding start_timer
started-IsInStep n j lt f = inr (refl, refl)

InSlot-calls : (time : ℕ) (d : Device) → InSlot time d → (time ≤ d.calls) × (d.calls ≤ time + 1)
InSlot-calls time d (inl (done, asleep, count)) = (omega arith, omega arith)
InSlot-calls time d (inr (working, count)) = (omega arith, omega arith)

lt_or_ge : (a b : ℕ) → (a < b) ⊎ (b ≤ a)
lt_or_ge a b = ground arith

InPhase-calls :
    (phase : Phase) (time j : ℕ) (d : Device)
    → InPhase phase time j d
    → (time ≤ d.calls) × (d.calls ≤ time + 1)
InPhase-calls (collects i f e) time j d (slot, seen) = InSlot-calls time d slot
InPhase-calls (releases i f e) time j d (let_on, held) = elim (lt_or_ge j i) [
  | inl less ↦ InSlot-calls time d (let_on less)
  | inr ge ↦ let count = (held ge).2 in omega arith
]
InPhase-calls over time j d slot = InSlot-calls time d slot
InPhase-calls tests time j d slot = InSlot-calls time d slot

-- The time slots are a barrier: from the start with `n` devices, however the steps of the timer, of
-- the devices and of `stop_timer` follow each other, a device that is not detached has called
-- `next_slot` as often as the time says, or once more; so of two such devices none is ahead of the
-- other by more than one slot.
pub Reaches-barrier :
    (n : ℕ) (t : Timer)
    → Reaches (start_timer (attached n)) t
    → (j k : ℕ) → j < t.count
    → k < t.count
    → (t.devs j).fsh ≡ false
    → (t.devs k).fsh ≡ false
    → (t.time ≤ (t.devs j).calls)
      × ((t.devs j).calls ≤ t.time + 1)
      × ((t.devs j).calls ≤ (t.devs k).calls + 1)
Reaches-barrier n t r j k ltj ltk fj fk =
    let v = Reaches-IsInStep r (started-IsInStep n) in
    let a = InPhase-calls t.phase t.time j (t.devs j) (v j ltj fj) in
    let b = InPhase-calls t.phase t.time k (t.devs k) (v k ltk fk) in
    (a.0, a.1, omega (arith, a, b))
