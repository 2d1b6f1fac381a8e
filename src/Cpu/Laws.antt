-- ===== src/Cpu/Laws.antt =====
-- The program counter: `run` moves it by one, and a process ends behind its last instruction.
use os_assignment.Base.{
  ℕ, zero, suc, ◌+◌, ◌-◌, ◌≤◌, ◌<◌, ◌≡◌, ◌≢◌, ◌⊎◌, inl, inr, refl, ap, subst, min, ◌∙◌, arith,
  Option, none, some, ◌==◌, ltb, Bool-cases, length, get_elem?, get_elem?-none, get_elem?-eq-get_or,
  get_or, true, false,
}
use os_assignment.Process.{Pcb, Inst, calc}
use os_assignment.Region.{Code}
use os_assignment.Machine.{Machine}
use os_assignment.Machine.Keeps.{SameProcs, Keeps}
use os_assignment.Cpu.{Stat, stat_one, returned, execute, put_pc, run, runs}
use os_assignment.Cpu.Steps.{execute-Keeps}

abbrev pub pc_of : Machine → ℕ → ℕ
pc_of s proc = (s.procs proc).pc

abbrev pub size_of : Machine → ℕ → ℕ
size_of s proc = length (s.procs proc).code

-- In `s'` the program counter of `proc` is `n` further; no other field of its control block, no other
-- process and no queue of the scheduler has changed.
pub record IsAdvanced (s : Machine) (proc n : ℕ) (s' : Machine) : Type 0 where
  pub counter : s'.procs proc ≡ record (s.procs proc) { pc = pc_of s proc + n }
  pub others : (p : ℕ) → p ≢ proc → s'.procs p ≡ s.procs p
  pub queues : s'.sched ≡ s.sched

pub IsAdvanced-refl : (s : Machine) (proc : ℕ) → IsAdvanced s proc 0 s
IsAdvanced-refl s proc = record {
  counter = ap (λ (c : ℕ). record (s.procs proc) { pc = c }) (omega arith);
  others = λ p ne. refl;
  queues = refl;
}

pub IsAdvanced-trans :
    (s s1 s2 : Machine) (proc m n : ℕ)
    → IsAdvanced s proc m s1
    → IsAdvanced s1 proc n s2
    → IsAdvanced s proc (m + n) s2
IsAdvanced-trans s s1 s2 proc m n a b = record {
  counter =
      b.counter
      ∙ ap (λ (k : Pcb). record k { pc = k.pc + n }) a.counter
      ∙ ap (λ (c : ℕ). record (s.procs proc) { pc = c }) (omega arith);
  others = λ p ne. b.others p ne ∙ a.others p ne;
  queues = b.queues ∙ a.queues;
}

put_pc_self :
    (s : Machine) (proc c : ℕ) → (put_pc s proc c).procs proc ≡ record (s.procs proc) { pc = c }
put_pc_self s proc c = let self : (proc == proc) ≡ true = ground arith in rw self

put_pc-others : (s : Machine) (proc c p : ℕ) → p ≢ proc → (put_pc s proc c).procs p ≡ s.procs p
put_pc-others s proc c p ne = let other : (p == proc) ≡ false = ground arith in rw other

put_pc-IsAdvanced :
    (s : Machine) (proc : ℕ) (s' : Machine)
    → SameProcs (put_pc s proc (pc_of s proc + 1)) s'
    → IsAdvanced s proc 1 s'
put_pc-IsAdvanced s proc s' (same, queues) = record {
  counter = ap (λ f. f proc) same ∙ put_pc_self s proc (pc_of s proc + 1);
  others = λ p ne. ap (λ f. f p) same ∙ put_pc-others s proc (pc_of s proc + 1) p ne;
  queues = queues;
}

-- The instruction that `run` fetches, and the state in which it executes it.
abbrev pub Fetches : Machine → ℕ → Inst → Type 0
Fetches s proc ins = get_elem? (s.procs proc).code (pc_of s proc) ≡ some ins

abbrev pub fetched : Machine → ℕ → Machine
fetched s proc = put_pc s proc (pc_of s proc + 1)

-- `Executed proc n s s'`: from `s` to `s'` the next `n` instructions of `proc` are executed.
pub data Executed (proc : ℕ) : ℕ → Machine → Machine → Type 0 where
  nothing_left : {s : Machine} → Executed proc 0 s s
  executes :
      {n : ℕ} {s s1 s' : Machine} (ins : Inst) (code : Code)
      → Fetches s proc ins
      → execute proc ins (fetched s proc) ≡ some (code, s1)
      → Executed proc n s1 s'
      → Executed proc (suc n) s s'

-- After fewer than `n` instructions there is one that makes an access that C leaves undefined.
abbrev pub IsBroken : Machine → ℕ → ℕ → Type 0
IsBroken s proc n =
    (k : ℕ) × (s' : Machine) × (ins : Inst) × (k < n)
    × Executed proc k s s'
    × Fetches s' proc ins
    × (execute proc ins (fetched s' proc) ≡ none)

-- Behind the last instruction `run` returns 1 and changes nothing. Before that it executes the
-- instruction at the program counter, which it moves by one.
abbrev pub RunCases : Machine → ℕ → Type 0
RunCases s proc =
    ((size_of s proc ≤ pc_of s proc) × (run proc s ≡ some (stat_one, s)))
    ⊎ ((pc_of s proc < size_of s proc)
        × ((ins : Inst) × Fetches s proc ins
            × (((execute proc ins (fetched s proc) ≡ none) × (run proc s ≡ none))
                ⊎ ((code : Code) × (s' : Machine) × (execute proc ins (fetched s proc)
                      ≡ some (code, s'))
                    × (run proc s ≡ some (returned code, s'))
                    × IsAdvanced s proc 1 s'))))

pub run_lem : (proc : ℕ) (s : Machine) → RunCases s proc
unfolding run
run_lem proc s = elim (Bool-cases (ltb (pc_of s proc) (size_of s proc))) [
  | inr over ↦
      let outside = get_elem?-none (s.procs proc).code (pc_of s proc) (ground arith) in
      inl (ground arith, rw (run, outside) refl)
  | inl before ↦
      let ins : Inst = get_or (s.procs proc).code (pc_of s proc) nop in
      let inside = get_elem?-eq-get_or (s.procs proc).code (pc_of s proc) nop (ground arith) in
      inr (
        ground arith,
        (
          ins,
          inside,
          step ins inside (execute proc ins (fetched s proc)) refl
              (execute-Keeps proc ins (fetched s proc)),
        ),
      )
]
  where
    nop : Inst
    nop = record { opcode = calc; arg_0 = 0; arg_1 = 0; arg_2 = 0; arg_3 = 0 }

    step :
        (ins : Inst)
        → Fetches s proc ins
        → (r : Option (Code × Machine)) → execute proc ins (fetched s proc) ≡ r
        → Keeps (fetched s proc) r
        → ((execute proc ins (fetched s proc) ≡ none) × (run proc s ≡ none))
          ⊎ ((code : Code) × (s' : Machine) × (execute proc ins (fetched s proc) ≡ some (code, s'))
              × (run proc s ≡ some (returned code, s'))
              × IsAdvanced s proc 1 s')
    step ins here none e k = inl (e, rw (run, here, e) refl)
    step ins here (some (code, s')) e k =
        inr (code, s', e, rw (run, here, e) refl, put_pc-IsAdvanced s proc s' k)

pub advanced-pc :
    (s : Machine) (proc n : ℕ) (s' : Machine)
    → IsAdvanced s proc n s'
    → (pc_of s' proc ≡ pc_of s proc + n) × (size_of s' proc ≡ size_of s proc)
advanced-pc s proc n s' a =
    (ap (λ (k : Pcb). k.pc) a.counter, ap (λ (k : Pcb). length k.code) a.counter)

runs-some :
    (n proc : ℕ) (s : Machine) (stat : Stat) (s' : Machine)
    → run proc s ≡ some (stat, s')
    → runs (suc n) proc s ≡ runs n proc s'
unfolding runs
runs-some n proc s stat s' e = rw (runs, e) refl

runs-none : (n proc : ℕ) (s : Machine) → run proc s ≡ none → runs (suc n) proc s ≡ none
unfolding runs
runs-none n proc s e = rw (runs, e) refl

-- What `n` calls of `run` come to, if `m` instructions are executed.
abbrev pub RunsCases : Machine → ℕ → ℕ → ℕ → Type 0
RunsCases s proc n m =
    ((runs n proc s ≡ none) × IsBroken s proc m)
    ⊎ ((s' : Machine) × (runs n proc s ≡ some (tt, s'))
        × Executed proc m s s'
        × IsAdvanced s proc m s')

runs-over :
    (n proc m : ℕ) (s : Machine)
    → run proc s ≡ some (stat_one, s)
    → RunsCases s proc n m
    → RunsCases s proc (suc n) m
runs-over n proc m s e (inl (bad, broken)) = inl (runs-some n proc s stat_one s e ∙ bad, broken)
runs-over n proc m s e (inr (s', good, done, b)) =
    inr (s', runs-some n proc s stat_one s e ∙ good, done, b)

runs-step :
    (n proc m : ℕ) (s : Machine) (ins : Inst) (code : Code) (s1 : Machine)
    → Fetches s proc ins
    → execute proc ins (fetched s proc) ≡ some (code, s1)
    → run proc s ≡ some (returned code, s1)
    → IsAdvanced s proc 1 s1
    → RunsCases s1 proc n m
    → RunsCases s proc (suc n) (suc m)
runs-step n proc m s ins code s1 here e ran a (inl (bad, (k, s', ins', less, done, there, rest))) =
    inl (
      runs-some n proc s (returned code) s1 ran ∙ bad,
      (suc k, s', ins', omega arith, executes ins code here e done, there, rest),
    )
runs-step n proc m s ins code s1 here e ran a (inr (s', good, done, b)) = inr (
  s',
  runs-some n proc s (returned code) s1 ran ∙ good,
  executes ins code here e done,
  (let one_more : 1 + m ≡ suc m = omega arith in
      subst (λ k. IsAdvanced s proc k s') one_more (IsAdvanced-trans s s1 s' proc 1 m a b)),
)

-- A process ends: `n` calls of `run` in a row execute its instructions in their order, each one
-- once, with the program counter moved before it, until `n` are executed or the counter is behind
-- the last one, and the remaining calls change nothing; or one of these instructions makes an access
-- that C leaves undefined. No other process, no other field of the control block and no queue of the
-- scheduler changes.
pub runs-IsAdvanced :
    (n proc : ℕ) (s : Machine) → RunsCases s proc n (min n (size_of s proc - pc_of s proc))
unfolding runs
runs-IsAdvanced zero proc s =
    let none_left : 0 ≡ min 0 (size_of s proc - pc_of s proc) = omega arith in
    subst (RunsCases s proc 0) none_left (inr (s, refl, nothing_left, IsAdvanced-refl s proc))
runs-IsAdvanced (suc n) proc s = elim (run_lem proc s) [
  | inl (over, e) ↦
      let same : min n (size_of s proc - pc_of s proc)
          ≡ min (suc n) (size_of s proc - pc_of s proc) =
        omega arith in
      subst (RunsCases s proc (suc n)) same
        (runs-over n proc (min n (size_of s proc - pc_of s proc)) s e (runs-IsAdvanced n proc s))
  | inr (before, (ins, here, inl (e, bad))) ↦
      inl (runs-none n proc s bad, (0, s, ins, omega arith, nothing_left, here, e))
  | inr (before, (ins, here, inr (code, s1, e, ran, a))) ↦
      let (pc, size) = advanced-pc s proc 1 s1 a in
      let count : suc (min n (size_of s1 proc - pc_of s1 proc))
          ≡ min (suc n) (size_of s proc - pc_of s proc) =
        omega arith in
      subst (RunsCases s proc (suc n)) count (
        runs-step n proc (min n (size_of s1 proc - pc_of s1 proc)) s ins code s1 here e ran a
          (runs-IsAdvanced n proc s1))
]
