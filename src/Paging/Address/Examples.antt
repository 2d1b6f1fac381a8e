-- ===== src/Paging/Address/Examples.antt =====
-- Addresses split by the code, and the laws at one of them.
use os_assignment.Base.{◌+◌, ◌*◌, ◌^◌, ◌<◌, ◌≡◌, refl, arith}
use os_assignment.Paging.{paging_pgn, paging_offst, paging_pagesz}
use os_assignment.Paging.Address.{get_pd_from_address, get_pd_from_pagenum}
use os_assignment.Paging.Address.Laws.{
  InTables, page_of, get_pd_from_pagenum_lem, get_pd_from_address_lem, paging_pgn_lem,
}
use os_assignment.Paging.Address.{paging64_pgn}
use os_assignment.Base.{◌%◌}

split_address :
    get_pd_from_address 0x123456789abcdef
    ≡ record { pgd = 291; p4d = 138; pud = 414; pmd = 77; pt = 188 }
unfolding get_pd_from_address
split_address = refl

get_pd_from_address_test :
    InTables (get_pd_from_address 0x3fffff)
    × (page_of (get_pd_from_address 0x3fffff) ≡ paging64_pgn 0x3fffff % 2 ^ 45)
get_pd_from_address_test = get_pd_from_address_lem 0x3fffff

get_pd_from_pagenum_test :
    InTables (get_pd_from_pagenum 5000) × (page_of (get_pd_from_pagenum 5000) ≡ 5000)
get_pd_from_pagenum_test = get_pd_from_pagenum_lem 5000 (omega arith)

paging_pgn_test :
    (paging_pgn 1000 * paging_pagesz + paging_offst 1000 ≡ 1000)
    × (paging_offst 1000 < paging_pagesz)
    × (paging_pgn 1000 < 2 ^ 14)
    × ((get_pd_from_pagenum (paging_pgn 1000)).pgd ≡ 0)
    × ((get_pd_from_pagenum (paging_pgn 1000)).p4d ≡ 0)
    × ((get_pd_from_pagenum (paging_pgn 1000)).pud ≡ 0)
paging_pgn_test = paging_pgn_lem 1000 (omega arith)
