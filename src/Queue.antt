-- ===== src/Queue.antt =====
-- The process queue of include/queue.h and src/queue.c: an array of 50 addresses of which the
-- first `size` are in use. The queue itself is never NULL here: every caller in the scheduler
-- passes the address of a static queue.
pub mod Array
pub mod Choice
pub mod Laws
mod Examples
use os_assignment.Base.{
  ℕ, zero, suc, ◌+◌, ◌-◌, List, [], ◌∷◌, Option, none, some, Bool, true, false, get_or, set,
  replicate, ltb, leb, ◌==◌, ◌||◌, if◌then◌else◌,
}
use os_assignment.Process.{Store}

abbrev pub max_queue_size : ℕ
max_queue_size = 50

pub record Queue : Type 0 where
  pub proc : List ℕ
  pub size : ℕ

unfoldable pub empty : Queue → Bool
empty q = q.size == 0

-- A static queue after `size = 0`.
abbrev pub no_procs : Queue
no_procs = record { proc = replicate 50 0; size = 0 }

unfoldable pub enqueue : Queue → ℕ → Queue
enqueue q proc =
    if proc == 0 || leb max_queue_size q.size
    then q
    else record { proc = set q.proc q.size proc; size = q.size + 1 }

-- for (j = ...; j < size; j++) proc[j - 1] = proc[j], with the rounds that are left.
unfoldable pub shift_down : ℕ → ℕ → List ℕ → List ℕ
shift_down zero j arr = arr
shift_down (suc left) j arr = shift_down left (j + 1) (set arr (j - 1) (get_or arr j 0))

-- The search of `dequeue` for the lowest `priority`, from index `i` with `left` rounds to go.
unfoldable pub find_best : Store → List ℕ → ℕ → ℕ → ℕ → ℕ
find_best procs arr zero i best = best
find_best procs arr (suc left) i best =
    find_best procs arr left (i + 1) (
      if ltb (procs (get_or arr i 0)).priority (procs (get_or arr best 0)).priority
      then i
      else best)

-- What both removals do at an index: shift the rest down and take one off the size.
unfoldable pub remove_at : Queue → ℕ → Queue
unfolding shift_down
remove_at q i = record { proc = shift_down (q.size - (i + 1)) (i + 1) q.proc; size = q.size - 1 }

-- `none` is NULL.
unfoldable pub dequeue : Store → Queue → Option ℕ × Queue
unfolding empty find_best
dequeue procs q =
    let best = find_best procs q.proc (q.size - 1) 1 0 in
    if empty q then (none, q) else (some (get_or q.proc best 0), remove_at q best)

-- The loop of `purgequeue` from index `i`.
unfoldable pub purge_from : Queue → ℕ → ℕ → ℕ → Option ℕ × Queue
purge_from q zero i proc = (none, q)
purge_from q (suc left) i proc =
    let rest = purge_from q left (i + 1) proc in
    if get_or q.proc i 0 == proc then (some (get_or q.proc i 0), remove_at q i) else rest

unfoldable pub purgequeue : Queue → ℕ → Option ℕ × Queue
unfolding empty purge_from
purgequeue q proc = if empty q || proc == 0 then (none, q) else purge_from q q.size 0 proc
