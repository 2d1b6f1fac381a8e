-- ===== src/Paging/Address/Laws.antt =====
-- The five indices are a number of five digits in base 512.
use os_assignment.Base.{ℕ, ◌+◌, ◌*◌, ◌/◌, ◌%◌, ◌^◌, ◌<◌, ◌≡◌, sym, ap, ◌∙◌, arith}
use os_assignment.Base.Masks.{bit_and_field}
use os_assignment.Paging.{paging_pgn, paging_offst, paging_pagesz}
use os_assignment.Paging.Address.{Indices, get_pd_from_address, get_pd_from_pagenum, paging64_pgn}

module _ (addr : ℕ) where
  pgd-eq : (get_pd_from_address addr).pgd ≡ addr / 2 ^ 48 % 512
  unfolding get_pd_from_address
  pgd-eq = omega (arith, bit_and_field 48 9 addr)

  p4d-eq : (get_pd_from_address addr).p4d ≡ addr / 2 ^ 39 % 512
  unfolding get_pd_from_address
  p4d-eq = omega (arith, bit_and_field 39 9 addr)

  pud-eq : (get_pd_from_address addr).pud ≡ addr / 2 ^ 30 % 512
  unfolding get_pd_from_address
  pud-eq = omega (arith, bit_and_field 30 9 addr)

  pmd-eq : (get_pd_from_address addr).pmd ≡ addr / 2 ^ 21 % 512
  unfolding get_pd_from_address
  pmd-eq = omega (arith, bit_and_field 21 9 addr)

  pt-eq : (get_pd_from_address addr).pt ≡ addr / 2 ^ 12 % 512
  unfolding get_pd_from_address
  pt-eq = omega (arith, bit_and_field 12 9 addr)

-- The page number that the indices stand for.
abbrev pub page_of : Indices → ℕ
page_of i = (((i.pgd * 512 + i.p4d) * 512 + i.pud) * 512 + i.pmd) * 512 + i.pt

-- Each index is below 512, the number of entries of a table.
abbrev pub InTables : Indices → Type 0
InTables i = (i.pgd < 512) × (i.p4d < 512) × (i.pud < 512) × (i.pmd < 512) × (i.pt < 512)

-- Every address is split into indices below 512, and they give back its page number, modulo the
-- 45 bits of the five levels.
pub get_pd_from_address_lem :
    (addr : ℕ)
    → InTables (get_pd_from_address addr)
      × (page_of (get_pd_from_address addr) ≡ paging64_pgn addr % 2 ^ 45)
get_pd_from_address_lem addr =
    omega (arith, pgd-eq addr, p4d-eq addr, pud-eq addr, pmd-eq addr, pt-eq addr)

-- Every page number below 2 ^ 45 is split into indices below 512 that give it back.
pub get_pd_from_pagenum_lem :
    (pgn : ℕ)
    → pgn < 2 ^ 45
    → InTables (get_pd_from_pagenum pgn) × (page_of (get_pd_from_pagenum pgn) ≡ pgn)
unfolding get_pd_from_pagenum
get_pd_from_pagenum_lem pgn h = omega (arith, get_pd_from_address_lem (pgn * 2 ^ 12 % 2 ^ 64))

-- So two page numbers below 2 ^ 45 with the same indices are the same.
pub get_pd_from_pagenum-injective :
    (p q : ℕ) → p < 2 ^ 45 → q < 2 ^ 45 → get_pd_from_pagenum p ≡ get_pd_from_pagenum q → p ≡ q
get_pd_from_pagenum-injective p q h k e =
    sym (get_pd_from_pagenum_lem p h).1 ∙ ap (λ i. page_of i) e ∙ (get_pd_from_pagenum_lem q k).1

-- PAGING_PGN and PAGING_OFFST split every address below 2 ^ 22 into a 14-bit page number and an
-- offset inside a page of 256 bytes; the split can be undone, and the page number uses only the
-- two lowest levels of the page directory.
pub paging_pgn_lem :
    (addr : ℕ)
    → addr < 2 ^ 22
    → (paging_pgn addr * paging_pagesz + paging_offst addr ≡ addr)
      × (paging_offst addr < paging_pagesz)
      × (paging_pgn addr < 2 ^ 14)
      × ((get_pd_from_pagenum (paging_pgn addr)).pgd ≡ 0)
      × ((get_pd_from_pagenum (paging_pgn addr)).p4d ≡ 0)
      × ((get_pd_from_pagenum (paging_pgn addr)).pud ≡ 0)
unfolding get_pd_from_pagenum
paging_pgn_lem addr h =
    let pgn = bit_and_field 8 14 addr in
    let off = bit_and_field 0 8 addr in
    let page : paging_pgn addr ≡ addr / 256 = omega arith in
    (
      omega arith,
      omega arith,
      omega arith,
      omega (arith, pgd-eq (paging_pgn addr * 2 ^ 12 % 2 ^ 64)),
      omega (arith, p4d-eq (paging_pgn addr * 2 ^ 12 % 2 ^ 64)),
      omega (arith, pud-eq (paging_pgn addr * 2 ^ 12 % 2 ^ 64)),
    )
