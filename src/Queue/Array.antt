-- ===== src/Queue/Array.antt =====
-- The array loops, on a queue that is written as a list of its slots.
use os_assignment.Base.{
  ℕ, zero, suc, ◌+◌, ◌-◌, ◌≤◌, ◌<◌, ◌≡◌, refl, sym, ap, ◌∙◌, List, [], ◌∷◌, ◌++◌, arith, length,
  get_or, set, take, length-append, get_or-append, length-set, get_or-middle, set-middle,
  take-append, take-split,
}
use mathlib.Core.List.{append_assoc}
use os_assignment.Queue.{Queue, max_queue_size, shift_down, remove_at}

-- The processes in the queue, oldest first.
abbrev pub contents : Queue → List ℕ
contents q = take q.size q.proc

-- The array has its 50 slots and `size` is within it.
pub record IsValid (q : Queue) : Type 0 where
  pub slots : length q.proc ≡ max_queue_size
  pub bounded : q.size ≤ max_queue_size

snoc_append : (xs : List ℕ) (y : ℕ) (zs : List ℕ) → (xs ++ y ∷ []) ++ zs ≡ xs ++ y ∷ zs
snoc_append [] y zs = refl
snoc_append (x ∷ xs) y zs = ap (◌∷◌ x) (snoc_append xs y zs)

get_or-second :
    (xs : List ℕ) (p y : ℕ) (ys : List ℕ) (j : ℕ)
    → j ≡ length xs + 1
    → get_or (xs ++ p ∷ y ∷ ys) j 0 ≡ y
get_or-second xs p y ys j e =
    rw (← snoc_append xs p (y ∷ ys))
      (get_or-middle (xs ++ p ∷ []) y ys j 0 (omega (arith, length-append xs (p ∷ []))))

-- Shifting takes the element before index `j` out; what is left behind the list does not matter.
shift_down_lem :
    (ys xs : List ℕ) (p : ℕ) (rest : List ℕ) (n j : ℕ)
    → n ≡ length ys
    → j ≡ length xs + 1
    → (z : ℕ) × (shift_down n j (xs ++ p ∷ (ys ++ rest)) ≡ xs ++ (ys ++ z ∷ rest))
unfolding shift_down
shift_down_lem [] xs p rest zero j e f = (p, refl)
shift_down_lem [] xs p rest (suc n) j e f = absurd (omega arith)
shift_down_lem (y ∷ ys) xs p rest zero j e f = absurd (omega arith)
shift_down_lem (y ∷ ys) xs p rest (suc n) j e f =
    let (z, ih) =
      shift_down_lem ys (xs ++ y ∷ []) y rest n (j + 1) (omega arith)
        (omega (arith, length-append xs (y ∷ []))) in
    (
      z,
      rw
          (
            get_or-second xs p y (ys ++ rest) j f,
            set-middle xs p y (y ∷ (ys ++ rest)) (j - 1) (omega arith),
            ← snoc_append xs y (y ∷ (ys ++ rest)),
          )
          (ih ∙ snoc_append xs y (ys ++ z ∷ rest)),
    )

length-shift_down : (n j : ℕ) (arr : List ℕ) → length (shift_down n j arr) ≡ length arr
unfolding shift_down
length-shift_down zero j arr = refl
length-shift_down (suc n) j arr =
    length-shift_down n (j + 1) (set arr (j - 1) (get_or arr j 0))
    ∙ length-set arr (j - 1) (get_or arr j 0)

-- The array of a valid queue is its contents and the slots that are free.
pub slots-eq :
    (q : Queue)
    → IsValid q
    → (rest : List ℕ) × (q.proc ≡ contents q ++ rest) × (length (contents q) ≡ q.size)
slots-eq q v =
    let (used, rest, e, l, t) = take-split q.size q.proc (omega (arith, v.slots, v.bounded)) in
    (rest, rw t e, rw t l)

-- Removing at an index inside the queue takes that process out and keeps the order of the others.
pub contents-remove_at :
    (q : Queue) (xs : List ℕ) (p : ℕ) (ys : List ℕ)
    → IsValid q
    → contents q ≡ xs ++ p ∷ ys
    → (contents (remove_at q (length xs)) ≡ xs ++ ys) × IsValid (remove_at q (length xs))
unfolding remove_at
contents-remove_at q xs p ys v e =
    let (rest, slots, count) = slots-eq q v in
    let size : q.size ≡ length xs + suc (length ys) =
      sym count ∙ ap (λ (l : List ℕ). length l) e ∙ length-append xs (p ∷ ys) in
    let arr : q.proc ≡ xs ++ p ∷ (ys ++ rest) =
      slots ∙ ap (λ (l : List ℕ). l ++ rest) e ∙ append_assoc xs (p ∷ ys) rest in
    let (z, shifted) =
      shift_down_lem ys xs p rest (q.size - (length xs + 1)) (length xs + 1) (omega arith) refl in
    let after : shift_down (q.size - (length xs + 1)) (length xs + 1) q.proc
        ≡ (xs ++ ys) ++ z ∷ rest =
      ap (shift_down (q.size - (length xs + 1)) (length xs + 1)) arr
      ∙ shifted
      ∙ sym (append_assoc xs ys (z ∷ rest)) in
    (
      ap (take (q.size - 1)) after
          ∙ take-append (xs ++ ys) (z ∷ rest) (q.size - 1) (omega (arith, length-append xs ys)),
      record {
        slots = length-shift_down (q.size - (length xs + 1)) (length xs + 1) q.proc ∙ v.slots;
        bounded = omega (arith, v.bounded);
      },
    )

-- A slot inside the queue is an element of its contents.
pub get_or-contents :
    (q : Queue) (i : ℕ) → IsValid q → i < q.size → get_or q.proc i 0 ≡ get_or (contents q) i 0
get_or-contents q i v h =
    let (rest, slots, count) = slots-eq q v in
    ap (λ (l : List ℕ). get_or l i 0) slots ∙ get_or-append (contents q) rest i 0 (omega arith)
