-- ===== src/Queue/Examples.antt =====
-- A queue of three processes, run through the operations, and the laws at it.
use os_assignment.Base.{
  ℕ, ◌+◌, ◌%◌, ◌<◌, ◌≡◌, ◌≢◌, ◌⊎◌, refl, arith, List, [], ◌∷◌, ◌++◌, none, some, replicate,
}
use os_assignment.Process.{Store}
use os_assignment.Queue.{Queue, max_queue_size, enqueue, dequeue, purgequeue, remove_at}
use os_assignment.Queue.Array.{contents, IsValid}
use os_assignment.Queue.Choice.{IsChosen}
use os_assignment.Queue.Laws.{Purges, contents-enqueue, contents-dequeue, contents-purgequeue}

-- The process at address p has priority p % 10.
abbrev procs : Store
procs p = record {
  pid = p;
  priority = p % 10;
  code = [];
  regs = [];
  pc = 0;
  prio = 0;
  bp = 0;
  mm = 0;
}

abbrev three : Queue
three = record { proc = 15 ∷ 12 ∷ 22 ∷ replicate 47 0; size = 3 }

three-IsValid : IsValid three
three-IsValid = record { slots = refl; bounded = omega arith }

enqueue_runs : contents (enqueue three 31) ≡ 15 ∷ 12 ∷ 22 ∷ 31 ∷ []
unfolding enqueue
enqueue_runs = refl

dequeue_runs :
    ((dequeue procs three).0 ≡ some 12) × (contents (dequeue procs three).1 ≡ 15 ∷ 22 ∷ [])
unfolding dequeue remove_at
dequeue_runs = (refl, refl)

purgequeue_runs :
    ((purgequeue three 22).0 ≡ some 22) × (contents (purgequeue three 22).1 ≡ 15 ∷ 12 ∷ [])
unfolding purgequeue remove_at
purgequeue_runs = (refl, refl)

contents-enqueue_test :
    IsValid (enqueue three 31)
    × ((((◌≡◌ {A = ℕ} 31 0) ⊎ (three.size ≡ max_queue_size)) × (enqueue three 31 ≡ three))
        ⊎ ((◌≢◌ {A = ℕ} 31 0)
            × (three.size < max_queue_size)
            × (contents (enqueue three 31) ≡ contents three ++ 31 ∷ [])))
contents-enqueue_test = contents-enqueue three 31 three-IsValid

contents-dequeue_example :
    IsValid (dequeue procs three).1
    × (((contents three ≡ []) × (dequeue procs three ≡ (none, three)))
        ⊎ ((xs : List ℕ) × (p : ℕ) × (ys : List ℕ) × IsChosen procs (contents three) xs p ys
            × ((dequeue procs three).0 ≡ some p)
            × (contents (dequeue procs three).1 ≡ xs ++ ys)
            × ((dequeue procs three).1.size + 1 ≡ three.size)))
contents-dequeue_example = contents-dequeue procs three three-IsValid

contents-purgequeue_test :
    ((◌≡◌ {A = ℕ} 12 0) × (purgequeue three 12 ≡ (none, three)))
    ⊎ Purges three 12 (purgequeue three 12)
contents-purgequeue_test = contents-purgequeue three 12 three-IsValid
