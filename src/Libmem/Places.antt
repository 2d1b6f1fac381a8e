-- ===== src/Libmem/Places.antt =====
-- The place of a page, from its page table entry.
use os_assignment.Base.{ℕ, ◌≡◌, ◌≢◌, inl, inr, refl, sym, ap, ◌∙◌, some, true, false, Bool-cases}
use os_assignment.Paging.Pte.{is_present, is_swapped, paging_fpn, paging_swp}
use os_assignment.Paging.Directory.{Heap, pte_get_entry}
use os_assignment.Libmem.Layout.{in_ram, in_swap, nowhere, place, place_or_nowhere, at}

pub in_ram-inj : {f g : ℕ} → in_ram f ≡ in_ram g → f ≡ g
in_ram-inj e = cc

pub in_swap-inj : {f g : ℕ} → in_swap f ≡ in_swap g → f ≡ g
in_swap-inj e = cc

pub in_ram-ne-nowhere : {f : ℕ} → in_ram f ≢ nowhere
in_ram-ne-nowhere e = cc

pub in_swap-ne-nowhere : {f : ℕ} → in_swap f ≢ nowhere
in_swap-ne-nowhere e = cc

pub in_ram-ne-in_swap : {f g : ℕ} → in_ram f ≢ in_swap g
in_ram-ne-in_swap e = cc

pub at-entry :
    (heap : Heap) (r q pte : ℕ) → pte_get_entry heap r q ≡ some pte → at heap r q ≡ place pte
unfolding at
at-entry heap r q pte e = ap place_or_nowhere e

pub place-swapped : (pte : ℕ) → is_swapped pte ≡ true → place pte ≡ in_swap (paging_swp pte)
place-swapped pte out = rw out

pub place-present :
    (pte : ℕ) → is_swapped pte ≡ false → is_present pte ≡ true → place pte ≡ in_ram (paging_fpn pte)
place-present pte out there = rw (out, there)

pub place-absent : (pte : ℕ) → is_swapped pte ≡ false → is_present pte ≡ false → place pte ≡ nowhere
place-absent pte out gone = rw (out, gone)

-- The frame of a page in RAM is what its entry says.
pub entry-in_ram : (pte f : ℕ) → place pte ≡ in_ram f → (paging_fpn pte ≡ f)
entry-in_ram pte f e = elim (Bool-cases (is_swapped pte)) [
  | inl out ↦ absurd (let e' = sym (place-swapped pte out) ∙ e in cc)
  | inr out ↦ elim (Bool-cases (is_present pte)) [
    | inl there ↦ in_ram-inj (sym (place-present pte out there) ∙ e)
    | inr gone ↦ absurd (let e' : nowhere ≡ in_ram f = sym (place-absent pte out gone) ∙ e in cc)
  ]
]

pub place-zero : place 0 ≡ nowhere
unfolding is_present is_swapped
place-zero = refl
