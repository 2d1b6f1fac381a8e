-- ===== src/Paging/Directory/Bare.antt =====
-- One page directory at address 7, with nothing below it, and a `calloc` that gives the address
-- above all that are in use: tables to try the operations of src/mm64.c on.
use os_assignment.Base.{
  ℕ, zero, suc, some, true, ◌+◌, ◌^◌, ◌<◌, ◌≡◌, inl, inr, refl, arith, max, List, [], ◌∷◌, false,
  ◌==◌, ltb, Bool-cases, if◌then◌else◌,
}
use os_assignment.Paging.Directory.{Heap, contains, is_present64, lookup_entry, pte_get_entry}
use os_assignment.Paging.Directory.Descent.{HasRoom}
use os_assignment.Paging.Directory.Forest.{IsForest, IsCalloc, IsRoot, is_present64-zero}

abbrev top : List ℕ → ℕ
top [] = 0
top (b ∷ bs) = max b (top bs)

abbrev above_all : List ℕ → ℕ
above_all bs = if ltb (top bs + 1) (2 ^ 48) then top bs + 1 else 0

top-fresh : (bs : List ℕ) (a : ℕ) → top bs < a → contains bs a ≡ false
unfolding contains
top-fresh [] a h = refl
top-fresh (b ∷ bs) a h =
    let e : (b == a) ≡ false = ground arith in rw (e, top-fresh bs a (omega arith))

above_all-IsCalloc : IsCalloc above_all
above_all-IsCalloc bs = elim (Bool-cases (ltb (top bs + 1) (2 ^ 48))) [
  | inl e ↦ rw e (inr (top-fresh bs (top bs + 1) (omega arith), ground arith))
  | inr e ↦ inl (rw e)
]

abbrev pub bare : Heap
bare = record { calloc = above_all; blocks = 7 ∷ []; cell = λ a i. 0 }

abbrev pub self : ℕ → List ℕ
self a = a ∷ []

pub bare-IsForest : IsForest bare self
unfolding contains
bare-IsForest = record {
  calloc = above_all-IsCalloc;
  not_null = refl;
  children = λ a i l d p. absurd (let e = is_present64-zero in cc);
}

pub bare-IsRoot : IsRoot bare self 7
unfolding contains
bare-IsRoot = (refl, refl)

above_all-HasRoom : (n : ℕ) (bs : List ℕ) → top bs + n < 2 ^ 48 → HasRoom above_all n bs
above_all-HasRoom zero bs h = tt
above_all-HasRoom (suc n) bs h =
    let next : ltb (top bs + 1) (2 ^ 48) ≡ true = ground arith in
    (
      (λ e. let same : above_all bs ≡ top bs + 1 = rw next refl in omega arith),
      above_all-HasRoom n (above_all bs ∷ bs)
          (let same : above_all bs ≡ top bs + 1 = rw next refl in omega arith),
    )

pub bare-room : (n : ℕ) → n < 2 ^ 32 → HasRoom bare.calloc n bare.blocks
bare-room n h = above_all-HasRoom n bare.blocks (omega arith)

pub bare-entry : (q : ℕ) → pte_get_entry bare 7 q ≡ some 0
unfolding pte_get_entry lookup_entry contains is_present64
bare-entry q = refl
