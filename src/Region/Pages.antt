-- ===== src/Region/Pages.antt =====
-- The page queue, and the lookups of areas and symbols.
use os_assignment.Base.{
  ℕ, zero, suc, ◌+◌, ◌≤◌, ◌<◌, ◌≡◌, ◌≢◌, ◌⊎◌, inl, inr, refl, sym, ap, arith, ◌∙◌, List, [], ◌∷◌,
  ◌++◌, length, none, some, get_or, get_elem?-eq-get_or, get_elem?-none, ltb, Bool-cases, All,
}
use mathlib.Core.List.{append_assoc}
use os_assignment.Region.{
  Rg, Vma, Mm, Search, found, null_list, fault, vma_from, get_vma_by_num, enlist_pgn_node,
  take_last, find_victim_page, entry, null_symbol, behind_table, get_symrg_byid,
}

take_last-append :
    (page : ℕ) (xs : List ℕ) (oldest : ℕ) → take_last page (xs ++ oldest ∷ []) ≡ (oldest, page ∷ xs)
unfolding take_last
take_last-append page [] oldest = refl
take_last-append page (x ∷ xs) oldest =
    ap (λ (r : ℕ × List ℕ). (r.0, page ∷ r.1)) (take_last-append x xs oldest)

-- The victims of `n` calls in a row, and the pages that stay; it ends early on an empty list.
abbrev pub victims : ℕ → List ℕ → List ℕ × List ℕ
victims zero fifo_pgn = ([], fifo_pgn)
victims (suc n) fifo_pgn = elim (find_victim_page fifo_pgn) [
  | none ↦ ([], fifo_pgn)
  | some (pgn, rest) ↦ let later = victims n rest in (pgn ∷ later.0, later.1)
]

-- The list after the pages were enlisted, the first of the list first.
abbrev pub enlist_all : List ℕ → List ℕ → List ℕ
enlist_all [] fifo_pgn = fifo_pgn
enlist_all (pgn ∷ pgns) fifo_pgn = enlist_all pgns (enlist_pgn_node fifo_pgn pgn)

pub find_victim_page-oldest :
    (xs : List ℕ) (oldest : ℕ) → find_victim_page (xs ++ oldest ∷ []) ≡ some (oldest, xs)
unfolding find_victim_page take_last
find_victim_page-oldest [] oldest = refl
find_victim_page-oldest (x ∷ xs) oldest = ap some (take_last-append x xs oldest)

enlist_all-append :
    (pgns fifo_pgn : List ℕ) → enlist_all pgns fifo_pgn ≡ enlist_all pgns [] ++ fifo_pgn
unfolding enlist_pgn_node
enlist_all-append [] fifo_pgn = refl
enlist_all-append (pgn ∷ pgns) fifo_pgn =
    enlist_all-append pgns (pgn ∷ fifo_pgn)
    ∙ sym (append_assoc (enlist_all pgns []) (pgn ∷ []) fifo_pgn)
    ∙ ap (λ (l : List ℕ). l ++ fifo_pgn) (sym (enlist_all-append pgns (pgn ∷ [])))

victims-step :
    (n : ℕ) (fifo_pgn : List ℕ) (pgn : ℕ) (rest : List ℕ)
    → find_victim_page fifo_pgn ≡ some (pgn, rest)
    → victims (suc n) fifo_pgn ≡ (pgn ∷ (victims n rest).0, (victims n rest).1)
victims-step n fifo_pgn pgn rest e = rw (e, victims)

victims-in_order : (pgns : List ℕ) → victims (length pgns) (enlist_all pgns []) ≡ (pgns, [])
unfolding enlist_pgn_node
victims-in_order [] = refl
victims-in_order (pgn ∷ pgns) =
    ap (victims (suc (length pgns))) (enlist_all-append pgns (pgn ∷ []))
    ∙ victims-step (length pgns) (enlist_all pgns [] ++ pgn ∷ []) pgn (enlist_all pgns [])
        (find_victim_page-oldest (enlist_all pgns []) pgn)
    ∙ ap (λ (r : List ℕ × List ℕ). (pgn ∷ r.0, r.1)) (victims-in_order pgns)

-- The page queue is first in, first out: from the pages enlisted in any order, as many calls of
-- `find_victim_page` as there are pages take out all of them in the order in which they came, and
-- on the empty list the call finds none.
pub victims-enlist_all :
    (pgns : List ℕ)
    → (victims (length pgns) (enlist_all pgns []) ≡ (pgns, [])) × (find_victim_page [] ≡ none)
unfolding find_victim_page
victims-enlist_all pgns = (victims-in_order pgns, refl)

-- What the walk along the areas finds: the first one whose identifier is not less than `vmaid`.
abbrev pub SearchCases : List Vma → ℕ → ℕ → Search → Type 0
SearchCases vmas pos vmaid result =
    ((before : List Vma) × (vma : Vma) × (behind : List Vma) × (vmas ≡ before ++ vma ∷ behind)
      × All (λ v. v.vm_id < vmaid) before
      × (vmaid ≤ vma.vm_id)
      × (result ≡ found (pos + length before)))
    ⊎ (All (λ v. v.vm_id < vmaid) vmas × (result ≡ fault))

vma_from-cases :
    (vmas : List Vma) (pos vmaid : ℕ) → SearchCases vmas pos vmaid (vma_from vmas pos vmaid)
unfolding vma_from
vma_from-cases [] pos vmaid = inr (tt, refl)
vma_from-cases (vma ∷ rest) pos vmaid = elim (Bool-cases (ltb vma.vm_id vmaid)) [
  | inr here ↦ inl ([], vma, rest, refl, tt, ground arith, rw here (ap found (omega arith)))
  | inl less ↦ elim (vma_from-cases rest (pos + 1) vmaid) [
    | inl (before, v, behind, e, all, ge, r) ↦ inl (
      vma ∷ before,
      v,
      behind,
      ap (◌∷◌ vma) e,
      (ground arith, all),
      ge,
      rw less (r ∙ ap found (omega arith)),
    )
    | inr (all, r) ↦ inr ((ground arith, all), rw less r)
  ]
]

-- `get_vma_by_num` gives NULL for an empty list of areas; otherwise it finds the first area whose
-- identifier is at least the one asked for, whether or not it is equal, and follows a NULL pointer
-- if every area has a smaller identifier.
pub get_vma_by_num_lem :
    (mm : Mm) (vmaid : ℕ)
    → ((mm.mmap ≡ []) × (get_vma_by_num mm vmaid ≡ null_list))
      ⊎ ((mm.mmap ≢ []) × SearchCases mm.mmap 0 vmaid (get_vma_by_num mm vmaid))
unfolding get_vma_by_num
get_vma_by_num_lem mm vmaid = cases mm.mmap
  where
    cases :
        (vmas : List Vma)
        → ((vmas ≡ [])
            × ((elim vmas [ [] ↦ null_list | vma ∷ rest ↦ vma_from (vma ∷ rest) 0 vmaid ])
                ≡ null_list))
          ⊎ ((vmas ≢ [])
              × SearchCases vmas 0 vmaid
                  (elim vmas [ [] ↦ null_list | vma ∷ rest ↦ vma_from (vma ∷ rest) 0 vmaid ]))
    cases [] = inl (refl, refl)
    cases (vma ∷ rest) = inr (λ e. cc, vma_from-cases (vma ∷ rest) 0 vmaid)

-- For a symbol table of 30 entries, `get_symrg_byid` gives the entry of every identifier below 30
-- and NULL above 30; for 30 itself it gives an address behind the table.
pub get_symrg_byid_lem :
    (mm : Mm) (rgid : ℕ) (unset : Rg)
    → length mm.symrgtbl ≡ 30
    → ((rgid < 30) × (get_symrg_byid mm rgid ≡ entry (get_or mm.symrgtbl rgid unset)))
      ⊎ (((30 < rgid) × (get_symrg_byid mm rgid ≡ null_symbol))
          ⊎ ((rgid ≡ 30) × (get_symrg_byid mm rgid ≡ behind_table)))
unfolding get_symrg_byid
get_symrg_byid_lem mm rgid unset size = elim (Bool-cases (ltb 30 rgid)) [
  | inl above ↦ inr (inl (ground arith, rw above))
  | inr le ↦ elim (Bool-cases (ltb rgid 30)) [
    | inl below ↦
        inl (ground arith, rw (le, get_elem?-eq-get_or mm.symrgtbl rgid unset (ground arith)))
    | inr at ↦ inr (inr (ground arith, rw (le, get_elem?-none mm.symrgtbl rgid (ground arith))))
  ]
]
