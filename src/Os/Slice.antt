-- ===== src/Os/Slice.antt =====
-- A dispatched process keeps the CPU for its time slot.
use os_assignment.Base.{
  ℕ, zero, suc, ◌+◌, ◌-◌, ◌%◌, ◌^◌, ◌≤◌, ◌<◌, ◌≡◌, ◌≢◌, ◌⊎◌, inl, inr, refl, ap, subst, ◌∙◌, arith,
  none, some, ◌==◌, Bool, false,
}
use os_assignment.Machine.{Machine, bind-run, bind-none}
use os_assignment.Cpu.{Stat, run, returned}
use os_assignment.Cpu.Laws.{
  pc_of, size_of, IsAdvanced, IsAdvanced-refl, IsAdvanced-trans, advanced-pc, run_lem, Executed,
  nothing_left, executes,
}
use os_assignment.Os.{CpuState, next_slot, run_turn, recheck, cpu_turn, cpu_turns}

-- The CPU runs `proc`, with `left` turns of its time slot to go.
abbrev pub running : ℕ → ℕ → CpuState
running proc left = record { proc = some proc; time_left = left }

-- In its time slot an unfinished process is run.
cpu_turn-runs :
    (time_slot : ℕ) (finished : Bool) (proc left : ℕ) (s : Machine)
    → pc_of s proc < size_of s proc
    → left ≢ 0
    → cpu_turn time_slot finished (running proc left) s ≡ run_turn time_slot proc left s
unfolding cpu_turn recheck
cpu_turn-runs time_slot finished proc left s before some_left =
    let going : (pc_of s proc == size_of s proc) ≡ false = ground arith in
    let more : (left == 0) ≡ false = ground arith in rw (cpu_turn, going, more, recheck) refl

run_turn-run :
    (time_slot proc left : ℕ) (s : Machine) (stat : Stat) (s' : Machine)
    → left ≢ 0
    → left < 2 ^ 32
    → run proc s ≡ some (stat, s')
    → run_turn time_slot proc left s ≡ some (next_slot (running proc (left - 1)), s')
unfolding run_turn
run_turn-run time_slot proc left s stat s' some_left word e =
    let more : (left == 0) ≡ false = ground arith in
    let count : (left + 2 ^ 32 - 1) % 2 ^ 32 ≡ left - 1 = omega arith in
    bind-run (run proc) _ s stat s' e
    ∙ rw more (ap (λ (k : ℕ). some (next_slot (running proc k), s')) count)

run_turn-none :
    (time_slot proc left : ℕ) (s : Machine)
    → run proc s ≡ none
    → run_turn time_slot proc left s ≡ none
unfolding run_turn
run_turn-none time_slot proc left s e = bind-none (run proc) _ s e

pub cpu_turns-some :
    (n time_slot : ℕ) (finished : Bool) (cpu cpu' : CpuState) (s s' : Machine)
    → cpu_turn time_slot finished cpu s ≡ some (next_slot cpu', s')
    → cpu_turns (suc n) time_slot finished cpu s ≡ cpu_turns n time_slot finished cpu' s'
unfolding cpu_turns
cpu_turns-some n time_slot finished cpu cpu' s s' e = rw (cpu_turns, e) refl

cpu_turns-none :
    (n time_slot : ℕ) (finished : Bool) (cpu : CpuState) (s : Machine)
    → cpu_turn time_slot finished cpu s ≡ none
    → cpu_turns (suc n) time_slot finished cpu s ≡ none
unfolding cpu_turns
cpu_turns-none n time_slot finished cpu s e = rw (cpu_turns, e) refl

-- A process with `left` < 2 ^ 32 turns to go and at least `n` ≤ `left` instructions to go keeps the CPU for
-- `n` turns: each executes its next instruction, moves the program counter and takes one from the
-- turns to go, whether the loader is done or not, and no other process and no queue of the scheduler changes; unless an
-- instruction makes an access that C leaves undefined.
pub cpu_turns-slice :
    (n time_slot : ℕ) (finished : Bool) (proc left : ℕ) (s : Machine)
    → left < 2 ^ 32
    → n ≤ left
    → pc_of s proc + n ≤ size_of s proc
    → (cpu_turns n time_slot finished (running proc left) s ≡ none)
      ⊎ ((s' : Machine) × (cpu_turns n time_slot finished (running proc left) s
            ≡ some (next_slot (running proc (left - n)), s'))
          × Executed proc n s s'
          × IsAdvanced s proc n s')
unfolding cpu_turns
cpu_turns-slice zero time_slot finished proc left s word turns code = inr (
  s,
  ap (λ (k : ℕ). some (next_slot (running proc k), s)) (omega arith),
  nothing_left,
  IsAdvanced-refl s proc,
)
cpu_turns-slice (suc n) time_slot finished proc left s word turns code =
    let turn = cpu_turn-runs time_slot finished proc left s (omega arith) (λ e. omega arith) in
    elim (run_lem proc s) [
      | inl (over, e) ↦ absurd (omega arith)
      | inr (before, (ins, here, inl (ex, bad))) ↦ inl (
          cpu_turns-none n time_slot finished (running proc left) s
            (turn ∙ run_turn-none time_slot proc left s bad))
      | inr (before, (ins, here, inr (stat, s1, ex, e, a))) ↦
          let step =
            cpu_turns-some n time_slot finished (running proc left) (running proc (left - 1)) s s1 (
              turn
              ∙ run_turn-run time_slot proc left s (returned stat) s1 (λ z. omega arith) word e) in
          let (pc, size) = advanced-pc s proc 1 s1 a in
          elim (cpu_turns-slice n time_slot finished proc (left - 1) s1 (omega arith) (omega arith)
            (omega arith)) [
              | inl bad ↦ inl (step ∙ bad)
              | inr (s2, e', done, b) ↦ inr (
                s2,
                step ∙ e' ∙ ap (λ (k : ℕ). some (next_slot (running proc k), s2)) (omega arith),
                executes ins stat here ex done,
                subst (λ k. IsAdvanced s proc k s2) (omega arith)
                    (IsAdvanced-trans s s1 s2 proc 1 n a b),
              )
            ]
    ]
