-- ===== src/Queue/Choice.antt =====
-- The search of `dequeue`: the first process of the lowest `priority`.
use os_assignment.Base.{
  ℕ, zero, suc, ◌+◌, ◌-◌, ◌≤◌, ◌<◌, ◌≡◌, refl, sym, ap, ◌∙◌, List, [], ◌∷◌, ◌++◌, arith, length,
  get_or, get_or-middle, length-append, split_at, All, ltb, Bool-cases, inl, inr,
}
use os_assignment.Process.{Store}
use os_assignment.Queue.{Queue, find_best}
use os_assignment.Queue.Array.{contents, IsValid, slots-eq, get_or-contents}

abbrev pub priority_at : Store → List ℕ → ℕ → ℕ
priority_at procs arr i = (procs (get_or arr i 0)).priority

-- Among the first `n` slots, `b` is the first with the lowest priority.
record IsFirstBest (procs : Store) (arr : List ℕ) (n b : ℕ) : Type 0 where
  inside : b < n
  least : (k : ℕ) → k < n → priority_at procs arr b ≤ priority_at procs arr k
  first : (k : ℕ) → k < b → priority_at procs arr b < priority_at procs arr k

module _ (procs : Store) (arr : List ℕ) where
  IsFirstBest-keep :
      (i best : ℕ)
      → IsFirstBest procs arr i best
      → priority_at procs arr best ≤ priority_at procs arr i
      → IsFirstBest procs arr (i + 1) best
  IsFirstBest-keep i best b h = record {
    inside = omega (arith, b.inside);
    least = λ k l. elim (Bool-cases (ltb k i)) [
      | inl e ↦ b.least k (ground arith)
      | inr e ↦ let here : k ≡ i = ground arith in rw here h
    ];
    first = b.first;
  }

  IsFirstBest-change :
      (i best : ℕ)
      → IsFirstBest procs arr i best
      → priority_at procs arr i < priority_at procs arr best
      → IsFirstBest procs arr (i + 1) i
  IsFirstBest-change i best b h = record {
    inside = omega arith;
    least = λ k l. elim (Bool-cases (ltb k i)) [
      | inl e ↦ omega (arith, b.least k (ground arith))
      | inr e ↦ let here : k ≡ i = ground arith in rw here (omega arith)
    ];
    first = λ k l. omega (arith, b.least k l);
  }

  find_best-IsFirstBest :
      (left i n best : ℕ)
      → i + left ≡ n
      → IsFirstBest procs arr i best
      → IsFirstBest procs arr n (find_best procs arr left i best)
  unfolding find_best
  find_best-IsFirstBest zero i n best e b = let same : i ≡ n = omega arith in rw (← same) b
  find_best-IsFirstBest (suc left) i n best e b =
      elim (Bool-cases (ltb (priority_at procs arr i) (priority_at procs arr best))) [
        | inl lower ↦ rw lower (
            find_best-IsFirstBest left (i + 1) n i (omega arith)
              (IsFirstBest-change i best b (ground arith)))
        | inr not_lower ↦ rw not_lower (
            find_best-IsFirstBest left (i + 1) n best (omega arith)
              (IsFirstBest-keep i best b (ground arith)))
      ]

All-get_or :
    (P : ℕ → Type 0) (xs : List ℕ) → ((k : ℕ) → k < length xs → P (get_or xs k 0)) → All P xs
All-get_or P [] h = tt
All-get_or P (x ∷ xs) h = (h 0 (omega arith), All-get_or P xs (λ k l. h (suc k) (omega arith)))

get_or-left : (xs ys : List ℕ) (k : ℕ) → k < length xs → get_or (xs ++ ys) k 0 ≡ get_or xs k 0
get_or-left [] ys k l = elim l [ ]
get_or-left (x ∷ xs) ys zero l = refl
get_or-left (x ∷ xs) ys (suc k) l = get_or-left xs ys k (omega arith)

get_or-right :
    (xs : List ℕ) (p : ℕ) (ys : List ℕ) (k i : ℕ)
    → i ≡ suc (length xs + k)
    → get_or (xs ++ p ∷ ys) i 0 ≡ get_or ys k 0
get_or-right [] p ys k zero e = absurd (omega arith)
get_or-right [] p ys k (suc i) e = let same : i ≡ k = omega arith in rw same
get_or-right (x ∷ xs) p ys k zero e = absurd (omega arith)
get_or-right (x ∷ xs) p ys k (suc i) e = get_or-right xs p ys k i (omega arith)

-- A list is split at its first process of the lowest priority.
pub record IsChosen (procs : Store) (l xs : List ℕ) (p : ℕ) (ys : List ℕ) : Type 0 where
  pub parts : l ≡ xs ++ p ∷ ys
  pub before : All (λ x. (procs p).priority < (procs x).priority) xs
  pub behind : All (λ y. (procs p).priority ≤ (procs y).priority) ys

split-IsChosen :
    (procs : Store) (xs : List ℕ) (p : ℕ) (ys : List ℕ) (n b : ℕ)
    → n ≡ length (xs ++ p ∷ ys)
    → b ≡ length xs
    → IsFirstBest procs (xs ++ p ∷ ys) n b
    → IsChosen procs (xs ++ p ∷ ys) xs p ys
split-IsChosen procs xs p ys n b e f v = record {
  parts = refl;
  before = All-get_or _ xs λ k l.
      let there = ap (λ t. (procs t).priority) (get_or-left xs (p ∷ ys) k l) in
      omega (arith, here, v.first k (omega arith));
  behind = All-get_or _ ys λ k l.
      let i = suc (length xs + k) in
      let there = ap (λ t. (procs t).priority) (get_or-right xs p ys k i refl) in
      omega (arith, here, v.least i (omega (arith, length-append xs (p ∷ ys))));
}
  where
    here : priority_at procs (xs ++ p ∷ ys) b ≡ (procs p).priority
    here = ap (λ t. (procs t).priority) (get_or-middle xs p ys b 0 f)

IsFirstBest-IsChosen :
    (procs : Store) (l xs : List ℕ) (p : ℕ) (ys : List ℕ) (n b : ℕ)
    → l ≡ xs ++ p ∷ ys
    → n ≡ length l
    → b ≡ length xs
    → IsFirstBest procs l n b
    → IsChosen procs l xs p ys
IsFirstBest-IsChosen procs l xs p ys n b parts e f v =
    rw parts
      (split-IsChosen procs xs p ys n b (e ∙ ap (λ (t : List ℕ). length t) parts) f (rw parts at v))

IsFirstBest-contents :
    (procs : Store) (q : Queue) (b : ℕ)
    → IsValid q
    → IsFirstBest procs q.proc q.size b
    → IsFirstBest procs (contents q) q.size b
IsFirstBest-contents procs q b valid v = record {
  inside = v.inside;
  least = λ k l. omega (arith, v.least k l, same k l, same b v.inside);
  first = λ k l.
      omega (arith, v.first k l, v.inside, same k (omega (arith, v.inside)), same b v.inside);
}
  where
    same : (k : ℕ) → k < q.size → priority_at procs q.proc k ≡ priority_at procs (contents q) k
    same k l = ap (λ t. (procs t).priority) (get_or-contents q k valid l)

-- The search finds the first process of the lowest priority of a queue that is not empty.
pub find_best-IsChosen :
    (procs : Store) (q : Queue)
    → IsValid q
    → 0 < q.size
    → let b = find_best procs q.proc (q.size - 1) 1 0 in
      (xs : List ℕ) × (p : ℕ) × (ys : List ℕ) × IsChosen procs (contents q) xs p ys
      × (length xs ≡ b)
      × (get_or q.proc b 0 ≡ p)
find_best-IsChosen procs q valid h =
    let b = find_best procs q.proc (q.size - 1) 1 0 in
    let v = find_best-IsFirstBest procs q.proc (q.size - 1) 1 q.size 0 (omega arith) (record {
      inside = omega arith;
      least = λ k l. let zeroth : k ≡ 0 = omega arith in rw zeroth (omega arith);
      first = λ k l. absurd (omega arith);
    }) in
    let (rest, slots, count) = slots-eq q valid in
    let (xs, p, ys, parts, len) = split_at (contents q) b (omega (arith, v.inside)) in
    (
      xs,
      p,
      ys,
      IsFirstBest-IsChosen procs (contents q) xs p ys q.size b parts (sym count) (sym len)
          (IsFirstBest-contents procs q b valid v),
      len,
      get_or-contents q b valid v.inside
          ∙ ap (λ (t : List ℕ). get_or t b 0) parts
          ∙ get_or-middle xs p ys b 0 (sym len),
    )
