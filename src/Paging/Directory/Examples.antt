-- ===== src/Paging/Directory/Examples.antt =====
-- Updates of an entry below a page directory that has no other tables yet.
use os_assignment.Base.{◌+◌, ◌≡◌, refl, arith, some}
use os_assignment.Paging.Address.{get_pd_from_pagenum, get_pd_from_address}
use os_assignment.Paging.Directory.{
  Heap, contains, is_present64, update_entry, pte_set_fpn, pte_set_swap, pte_get_entry,
  lookup_entry,
}
use os_assignment.Paging.Directory.Descent.{HasRoom}
use os_assignment.Paging.Directory.Bare.{bare, self, bare-IsForest, bare-IsRoot}
use os_assignment.Paging.Directory.Laws.{IsUpdated, update_entry-IsUpdated}
use os_assignment.Paging.Directory.Entries.{
  IsMapped, IsSwappedOut, pte_set_fpn_lem, pte_set_swap_lem,
}

bare-HasRoom : HasRoom bare.calloc 4 bare.blocks
bare-HasRoom = (omega arith, (omega arith, (omega arith, (omega arith, tt))))

bare-reads : pte_get_entry bare 7 0x12345678 ≡ some 0
unfolding pte_get_entry lookup_entry contains is_present64 get_pd_from_pagenum get_pd_from_address
bare-reads = refl

update_entry_example :
    (h' : Heap) × (update_entry bare 7 0x12345678 (λ pte. pte + 1) ≡ some h')
    × IsUpdated bare self 7 0x12345678 (λ pte. pte + 1) 0 h'
update_entry_example =
    update_entry-IsUpdated bare self 7 0x12345678 (λ pte. pte + 1) 0 bare-IsForest bare-IsRoot
      (omega arith) bare-HasRoom

pte_set_fpn_example :
    (h' : Heap) × (pte_set_fpn bare 7 0x12345678 3 ≡ some h')
    × IsMapped bare self 7 0x12345678 3 0 h'
pte_set_fpn_example =
    pte_set_fpn_lem bare self 7 0x12345678 3 0 0 bare-IsForest bare-IsRoot (omega arith)
      bare-HasRoom bare-reads (omega arith)

pte_set_swap_example :
    (h' : Heap) × (pte_set_swap bare 7 0x12345678 0 9 ≡ some h')
    × IsSwappedOut bare self 7 0x12345678 0 9 0 h'
pte_set_swap_example =
    pte_set_swap_lem bare self 7 0x12345678 0 9 0 0 bare-IsForest bare-IsRoot (omega arith)
      bare-HasRoom bare-reads (omega arith)
