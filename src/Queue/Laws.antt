-- ===== src/Queue/Laws.antt =====
-- What the queue operations do to the contents of a valid queue.
use os_assignment.Base.{
  ℕ, zero, suc, ◌+◌, ◌<◌, ◌≡◌, ◌≢◌, ◌⊎◌, inl, inr, refl, sym, ap, ◌∙◌, List, [], ◌∷◌, ◌++◌, arith,
  subst, length, get_or, get_or-middle, set, take, length-append, length-set, length-replicate,
  set-middle, take-append, All, Option, none, some, true, false, leb, ◌==◌, ◌||◌, Bool-cases,
  ==_iff,
}
use mathlib.Core.List.{append_assoc, append-nil}
use os_assignment.Process.{Store}
use os_assignment.Queue.{
  Queue, max_queue_size, no_procs, empty, enqueue, dequeue, purgequeue, purge_from, remove_at,
}
use os_assignment.Queue.Array.{contents, IsValid, slots-eq, contents-remove_at, get_or-contents}
use os_assignment.Queue.Choice.{IsChosen, find_best-IsChosen}

pub no_procs-IsValid : IsValid no_procs
no_procs-IsValid = record { slots = length-replicate {A = ℕ} 50 0; bounded = omega arith }

-- Writing the first free slot and counting it in adds to the end.
take-set :
    (xs rest : List ℕ) (n proc : ℕ)
    → n ≡ length xs
    → 0 < length rest
    → take (n + 1) (set (xs ++ rest) n proc) ≡ xs ++ proc ∷ []
take-set xs [] n proc e h = elim h [ ]
take-set xs (r ∷ rest) n proc e h =
    ap (take (n + 1)) (set-middle xs r proc rest n e ∙ sym (append_assoc xs (proc ∷ []) rest))
    ∙ take-append (xs ++ proc ∷ []) rest (n + 1) (omega (arith, length-append xs (proc ∷ [])))

contents-set :
    (q : Queue) (proc : ℕ)
    → IsValid q
    → q.size < max_queue_size
    → take (q.size + 1) (set q.proc q.size proc) ≡ contents q ++ proc ∷ []
contents-set q proc v h =
    let (rest, slots, count) = slots-eq q v in
    let total : length q.proc ≡ length (contents q) + length rest =
      ap (λ (l : List ℕ). length l) slots ∙ length-append (contents q) rest in
    ap (λ (l : List ℕ). take (q.size + 1) (set l q.size proc)) slots
    ∙ take-set (contents q) rest q.size proc (sym count) (omega (arith, v.slots))

-- On a valid queue: NULL and a full queue leave it as it is; any other process is added at the end.
-- The queue stays valid.
pub contents-enqueue :
    (q : Queue) (proc : ℕ)
    → IsValid q
    → IsValid (enqueue q proc)
      × ((((proc ≡ 0) ⊎ (q.size ≡ max_queue_size)) × (enqueue q proc ≡ q))
          ⊎ ((proc ≢ 0)
              × (q.size < max_queue_size)
              × (contents (enqueue q proc) ≡ contents q ++ proc ∷ [])))
unfolding enqueue
contents-enqueue q proc v = elim (Bool-cases (proc == 0 || leb max_queue_size q.size)) [
  | inl refused ↦ rw refused (v, inl (ground (arith, v.bounded), refl))
  | inr taken ↦ rw taken (
    record { slots = length-set q.proc q.size proc ∙ v.slots; bounded = ground arith },
    inr (ground arith, ground arith, contents-set q proc v (ground arith)),
  )
]

size-pos : (q : Queue) → empty q ≡ false → 0 < q.size
unfolding empty
size-pos q h = ground arith

size-remove_at : (q : Queue) (i : ℕ) → 0 < q.size → (remove_at q i).size + 1 ≡ q.size
unfolding remove_at
size-remove_at q i h = omega arith

contents-empty : (q : Queue) → IsValid q → empty q ≡ true → contents q ≡ []
unfolding empty
contents-empty q v h =
    let none_used : q.size ≡ 0 = ground arith in ap (λ n. take n q.proc) none_used

-- On a valid queue, `dequeue` returns NULL and keeps the queue if it is empty; otherwise it returns
-- the first process of the lowest `priority` and takes just that one out, so the others keep their
-- order. The queue stays valid.
pub contents-dequeue :
    (procs : Store) (q : Queue)
    → IsValid q
    → IsValid (dequeue procs q).1
      × (((contents q ≡ []) × (dequeue procs q ≡ (none, q)))
          ⊎ ((xs : List ℕ) × (p : ℕ) × (ys : List ℕ) × IsChosen procs (contents q) xs p ys
              × ((dequeue procs q).0 ≡ some p)
              × (contents (dequeue procs q).1 ≡ xs ++ ys)
              × ((dequeue procs q).1.size + 1 ≡ q.size)))
unfolding dequeue
contents-dequeue procs q v = elim (Bool-cases (empty q)) [
  | inl is_empty ↦ rw is_empty (v, inl (contents-empty q v is_empty, refl))
  | inr not_empty ↦
      let (xs, p, ys, chosen, len, at) = find_best-IsChosen procs q v (size-pos q not_empty) in
      let (left, valid) = contents-remove_at q xs p ys v chosen.parts in
      rw not_empty (
        subst (λ i. IsValid (remove_at q i)) len valid,
        inr (
          xs,
          p,
          ys,
          chosen,
          ap some at,
          subst (λ i. contents (remove_at q i) ≡ xs ++ ys) len left,
          size-remove_at q _ (size-pos q not_empty),
        ),
      )
]

-- The process does not stand in the list.
abbrev pub IsAbsent : ℕ → List ℕ → Type 0
IsAbsent proc = All (λ x. x ≢ proc)

IsAbsent-snoc :
    (proc : ℕ) (xs : List ℕ) (x : ℕ) → x ≢ proc → IsAbsent proc xs → IsAbsent proc (xs ++ x ∷ [])
IsAbsent-snoc proc [] x h a = (h, tt)
IsAbsent-snoc proc (y ∷ xs) x h a = (a.0, IsAbsent-snoc proc xs x h a.1)

-- How a removal of `proc` from `q` may end.
abbrev pub Purges : Queue → ℕ → Option ℕ × Queue → Type 0
Purges q proc r =
    (IsAbsent proc (contents q) × (r ≡ (none, q)))
    ⊎ ((xs : List ℕ) × (ys : List ℕ) × (contents q ≡ xs ++ proc ∷ ys)
        × IsAbsent proc xs
        × (r.0 ≡ some proc)
        × (contents r.1 ≡ xs ++ ys)
        × IsValid r.1)

purge_from-Purges :
    (q : Queue) (proc left i : ℕ) (xs zs : List ℕ)
    → IsValid q
    → contents q ≡ xs ++ zs
    → length xs ≡ i
    → length zs ≡ left
    → IsAbsent proc xs
    → Purges q proc (purge_from q left i proc)
unfolding purge_from
purge_from-Purges q proc zero i xs [] v e l n a = inl (rw (e, append-nil) a, refl)
purge_from-Purges q proc zero i xs (z ∷ zs) v e l n a = absurd (omega arith)
purge_from-Purges q proc (suc left) i xs [] v e l n a = absurd (omega arith)
purge_from-Purges q proc (suc left) i xs (z ∷ zs) v e l n a =
    let (rest, slots, count) = slots-eq q v in
    let whole : length (contents q) ≡ length xs + suc (length zs) =
      ap (λ (t : List ℕ). length t) e ∙ length-append xs (z ∷ zs) in
    let here : get_or q.proc i 0 ≡ z =
      get_or-contents q i v (omega arith)
      ∙ ap (λ (t : List ℕ). get_or t i 0) e
      ∙ get_or-middle xs z zs i 0 (sym l) in
    elim (Bool-cases (get_or q.proc i 0 == proc)) [
      | inl found ↦
          let same : z ≡ proc = sym here ∙ (==_iff _ _).0 found in
          let e' : contents q ≡ xs ++ proc ∷ zs = e ∙ ap (λ t. xs ++ t ∷ zs) same in
          let (left, valid) = contents-remove_at q xs proc zs v e' in
          rw found (
            inr (
              xs,
              zs,
              e',
              a,
              ap some (here ∙ same),
              subst (λ k. contents (remove_at q k) ≡ xs ++ zs) l left,
              subst (λ k. IsValid (remove_at q k)) l valid,
            ))
      | inr other ↦ rw other (
          purge_from-Purges q proc left (i + 1) (xs ++ z ∷ []) zs v
            (e ∙ sym (append_assoc xs (z ∷ []) zs)) (omega (arith, length-append xs (z ∷ [])))
            (omega arith) (IsAbsent-snoc proc xs z (ground arith) a))
    ]

-- On a valid queue, `purgequeue` of a process returns NULL and keeps the queue if the process is
-- not in it; otherwise it returns the process and takes its first occurrence out, and the queue
-- stays valid. A process that is NULL is not searched for.
pub contents-purgequeue :
    (q : Queue) (proc : ℕ)
    → IsValid q
    → ((proc ≡ 0) × (purgequeue q proc ≡ (none, q))) ⊎ Purges q proc (purgequeue q proc)
unfolding purgequeue
contents-purgequeue q proc v = elim (Bool-cases (proc == 0)) [
  | inl null ↦ inl (ground arith, ground arith)
  | inr real ↦ inr (elim (Bool-cases (empty q)) [
    | inl is_empty ↦ rw is_empty (inl (rw (contents-empty q v is_empty) tt, refl))
    | inr not_empty ↦
        let (rest, slots, count) = slots-eq q v in
        rw (not_empty, real)
          (purge_from-Purges q proc q.size 0 [] (contents q) v refl refl count tt)
  ])
]
