-- ===== src/Libmem/Running.antt =====
-- The process that paging works for: it is found by its identifier, and the pages in its queue are
-- in RAM.
use os_assignment.Base.{
  ℕ, suc, arith, ◌+◌, ◌^◌, ◌<◌, ◌≡◌, ◌≢◌, ◌⊎◌, inl, inr, refl, sym, ap, subst, ◌∙◌, List, [], ◌∷◌,
  ◌++◌, Bool, true, All,
}
use os_assignment.Paging.Directory.Descent.{HasRoom, HasRoom-fewer}
use os_assignment.Region.{Mm}
use os_assignment.Syscall.{find_caller}
use os_assignment.Machine.{Machine, mm_of, pgd_of}
use os_assignment.Libmem.Evict.{with_fifo, with_fifo-pgd}
use os_assignment.Libmem.Layout.{
  Place, byte, in_ram, in_swap, nowhere, Memory, at, Avoids, Distinct, IsConsistent, IsLoose,
}
use os_assignment.Libmem.Move.{Stays}

abbrev pub memory : Machine → Memory
memory s = record { heap = s.heap; mram = s.mram; mswp = s.mswp }

-- The page has a frame of RAM.
abbrev pub IsResident : Machine → ℕ → ℕ → Type 0
IsResident s pgd pgn = (pgn < 2 ^ 45) × ((f : ℕ) × (at s.heap pgd pgn ≡ in_ram f))

pub record IsRunning (s : Machine) (live : ℕ → Bool) (caller : ℕ) : Type 0 where
  pub known : find_caller s.procs s.sched (s.procs caller).pid ≡ caller
  pub real : caller ≢ 0
  pub owner : live (pgd_of s caller) ≡ true
  pub queued : All (λ q. IsResident s (pgd_of s caller) q) (mm_of s caller).fifo_pgn
  pub once : Distinct (mm_of s caller).fifo_pgn

-- The state with other tables, other devices and another queue of the caller.
abbrev pub changed : Machine → ℕ → List ℕ → Memory → Machine
changed s caller fifo_pgn m = record (with_fifo s caller fifo_pgn) {
  heap = m.heap;
  mram = m.mram;
  mswp = m.mswp;
}

pub changed-IsRunning :
    (s : Machine) (live : ℕ → Bool) (caller : ℕ) (fifo_pgn : List ℕ) (m : Memory)
    → IsRunning s live caller
    → All (λ q. IsResident (changed s caller fifo_pgn m) (pgd_of s caller) q) fifo_pgn
    → Distinct fifo_pgn
    → IsRunning (changed s caller fifo_pgn m) live caller
changed-IsRunning s live caller fifo_pgn m run residents once =
    let same = sym (with_fifo-pgd s caller fifo_pgn) in
    record {
      known = run.known;
      real = run.real;
      owner = subst (λ (mm : Mm). live mm.pgd ≡ true) same run.owner;
      queued =
          subst
            (λ (mm : Mm). All (λ q. IsResident (changed s caller fifo_pgn m) mm.pgd q) mm.fifo_pgn)
            same residents;
      once = subst (λ (mm : Mm). Distinct mm.fifo_pgn) same once;
    }

pub changed-mm :
    (s : Machine) (caller : ℕ) (fifo_pgn : List ℕ) (m : Memory)
    → mm_of (changed s caller fifo_pgn m) caller
      ≡ record (mm_of s caller) { fifo_pgn = (mm_of (changed s caller fifo_pgn m) caller).fifo_pgn }
changed-mm s caller fifo_pgn m =
    let same = with_fifo-pgd s caller fifo_pgn in
    same
    ∙ ap (λ l. record (mm_of s caller) { fifo_pgn = l }) (sym (ap (λ (mm : Mm). mm.fifo_pgn) same))

-- `s'` is a good state of the tables, the devices and the caller, with every page as in `s`, and
-- with room for `n` more tables.
pub record IsKept (s : Machine) (live : ℕ → Bool) (caller n : ℕ) (s' : Machine) : Type 0 where
  pub homes : ℕ → List ℕ
  pub consistent : IsConsistent (memory s') homes live
  pub stays : Stays (memory s) live (memory s')
  pub running : IsRunning s' live caller
  pub same_procs : s'.procs ≡ s.procs
  pub same_krnl : s'.krnl ≡ s.krnl
  pub same_pgd : pgd_of s' caller ≡ pgd_of s caller
  pub same_mm : mm_of s' caller ≡ record (mm_of s caller) { fifo_pgn = (mm_of s' caller).fifo_pgn }
  pub room : HasRoom s'.heap.calloc n s'.heap.blocks

-- Frame `f` of RAM is ready to take a page of the caller; pages that are swapped out stay so.
pub record HasFrame (s : Machine) (live : ℕ → Bool) (caller n f : ℕ) (s' : Machine) : Type 0 where
  pub kept : IsKept s live caller n s'
  pub loose : IsLoose (memory s') live (in_ram f)
  pub swapped :
      (q h : ℕ)
      → q < 2 ^ 45
      → at s.heap (pgd_of s caller) q ≡ in_swap h
      → at s'.heap (pgd_of s caller) q ≡ in_swap h

-- A change of the free frames changes no byte.
pub Stays-frames :
    (m : Memory) (live : ℕ → Bool) (ram swap : List ℕ)
    → Stays m live (record m {
      mram = record m.mram { free_fp_list = ram };
      mswp = record m.mswp { free_fp_list = swap };
    })
Stays-frames m live ram swap r q i p small = same (at m.heap r q)
  where
    same :
        (x : Place)
        → byte
            (record m {
              mram = record m.mram { free_fp_list = ram };
              mswp = record m.mswp { free_fp_list = swap };
            })
            x
            i
          ≡ byte m x i
    same (in_ram f) = refl
    same (in_swap f) = refl
    same nowhere = refl

pub Stays-trans :
    (m m' m'' : Memory) (live : ℕ → Bool) → Stays m live m' → Stays m' live m'' → Stays m live m''
Stays-trans m m' m'' live a b r q i p small = b r q i p small ∙ a r q i p small

-- A list is empty, or has a last element.
pub last-cases : (xs : List ℕ) → (xs ≡ []) ⊎ ((ys : List ℕ) × (y : ℕ) × (xs ≡ ys ++ y ∷ []))
last-cases [] = inl refl
last-cases (x ∷ xs) = elim (last-cases xs) [
  | inl e ↦ inr ([], x, ap (λ l. x ∷ l) e)
  | inr (ys, y, e) ↦ inr (x ∷ ys, y, ap (λ l. x ∷ l) e)
]

pub free-cases : (xs : List ℕ) → (xs ≡ []) ⊎ ((x : ℕ) × (ys : List ℕ) × (xs ≡ x ∷ ys))
free-cases [] = inl refl
free-cases (x ∷ xs) = inr (x, xs, refl)

pub HasRoom-less :
    (calloc : List ℕ → ℕ) (n : ℕ) (bs : List ℕ) → HasRoom calloc (4 + n) bs → HasRoom calloc n bs
HasRoom-less calloc n bs room =
    let count : 4 + n ≡ suc (suc (suc (suc n))) = omega arith in
    HasRoom-fewer calloc n bs (
      HasRoom-fewer calloc (suc n) bs (
        HasRoom-fewer calloc (suc (suc n)) bs (
          HasRoom-fewer calloc (suc (suc (suc n))) bs
            (subst (λ k. HasRoom calloc k bs) count room))))

Avoids-before : (xs : List ℕ) (y x : ℕ) → Avoids (xs ++ y ∷ []) x → Avoids xs x × (x ≢ y)
Avoids-before [] y x (h, t) = (tt, h)
Avoids-before (z ∷ xs) y x (h, t) =
    let (later, other) = Avoids-before xs y x t in ((h, later), other)

-- In a list without repetition the last element is not among the others.
pub Distinct-before :
    (xs : List ℕ) (y : ℕ) → Distinct (xs ++ y ∷ []) → Distinct xs × All (λ x. x ≢ y) xs
Distinct-before [] y d = (tt, tt)
Distinct-before (x ∷ xs) y (h, d) =
    let (avoids, other) = Avoids-before xs y x h in
    let (once, apart) = Distinct-before xs y d in ((avoids, once), (other, apart))

pub All-last : (P : ℕ → Type 0) (xs : List ℕ) (y : ℕ) → All P (xs ++ y ∷ []) → All P xs × P y
All-last P [] y (h, t) = (tt, h)
All-last P (x ∷ xs) y (h, t) = let (before, last) = All-last P xs y t in ((h, before), last)

pub All-with :
    (P Q R : ℕ → Type 0) (xs : List ℕ)
    → ((x : ℕ) → P x → Q x → R x)
    → All P xs
    → All Q xs
    → All R xs
All-with P Q R [] f p q = tt
All-with P Q R (x ∷ xs) f (p, ps) (q, qs) = (f x p q, All-with P Q R xs f ps qs)
