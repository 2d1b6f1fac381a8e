-- ===== src/Memphy/Examples.antt =====
-- A device of four frames, one byte of which is written, and one with sequential access.
use os_assignment.Base.{
  ℕ, ◌<◌, ◌≤◌, ◌^◌, ◌≡◌, ◌⊎◌, refl, arith, [], ◌∷◌, some, length, replicate, length-replicate, ◌*◌,
}
use os_assignment.Memphy.{
  Memphy, done, refused, fault, read, write, int_size, init_memphy, format, frames_from, store_byte,
  mv_csr, mv_csr_loop,
}
use os_assignment.Memphy.Laws.{IsWritten, write_lem, sequential-refused}
use os_assignment.Memphy.Copy.{swap_cp_page, IsCopied, swap_cp_page_lem}
use os_assignment.Memphy.Dump.{dump, nonzero_from, dump_lem}
use os_assignment.Memphy.Format.{FreshFrames, init_memphy_lem}

abbrev unset : Memphy
unset = record { storage = []; maxsz = 0; rdmflg = 0; cursor = 0; free_fp_list = [] }

abbrev ram : Memphy
ram = record { storage = 9 ∷ 8 ∷ 7 ∷ []; maxsz = 3; rdmflg = 1; cursor = 0; free_fp_list = 0 ∷ [] }

abbrev tape : Memphy
tape = record ram { rdmflg = 0 }

frames_of_1030 : (init_memphy unset 1030 1 []).free_fp_list ≡ 0 ∷ 1 ∷ 2 ∷ 3 ∷ []
unfolding init_memphy format frames_from
frames_of_1030 = refl

byte_written : write (some ram) 1 5 ≡ done (record ram { storage = 9 ∷ 5 ∷ 7 ∷ [] })
unfolding write store_byte
byte_written = refl

cursor_at : (mv_csr ram 2).cursor ≡ 2
unfolding mv_csr mv_csr_loop
cursor_at = refl

abbrev Written : ℕ → ℕ → Type 0
Written addr v =
    ((addr < length ram.storage)
      × ((mp' : Memphy) × (write (some ram) addr v ≡ done mp') × IsWritten ram addr v mp'))
    ⊎ ((length ram.storage ≤ addr) × (write (some ram) addr v ≡ fault))

write_example : Written 1 5
write_example = write_lem ram 1 5 (omega arith)

sequential-refused_test : (read (some tape) 1 ≡ refused) × (write (some tape) 1 5 ≡ refused)
sequential-refused_test = sequential-refused tape 1 5 refl

init_memphy_example :
    (length (init_memphy unset 1030 1 []).storage ≡ 1030)
    × ((init_memphy unset 1030 1 []).maxsz ≡ 1030)
    × FreshFrames unset 1030 [] (init_memphy unset 1030 1 [])
    × ((int_size 1030 ≡ 1030) ⊎ (2 ^ 31 ≤ 1030))
init_memphy_example = init_memphy_lem unset 1030 1 []

abbrev frames_of : ℕ → ℕ → Memphy
frames_of n byte = record {
  storage = replicate (n * 256) byte;
  maxsz = n * 256;
  rdmflg = 1;
  cursor = 0;
  free_fp_list = [];
}

swap_cp_page_example :
    (dst' : Memphy) × (swap_cp_page 0 (frames_of 2 7) 1 (frames_of 3 9) 0
      ≡ done (frames_of 2 7, dst'))
    × IsCopied (frames_of 2 7) 1 (frames_of 3 9) 0 0 256 dst'
swap_cp_page_example =
    let two = length-replicate {A = ℕ} 512 7 in
    let three = length-replicate {A = ℕ} 768 9 in
    swap_cp_page_lem 0 (frames_of 2 7) 1 (frames_of 3 9) 0 (omega arith) (omega arith)
      (omega (arith, two)) (omega (arith, three))

bytes_dumped : dump 0 (some ram) ≡ done (nonzero_from ram.storage 3 0)
bytes_dumped = dump_lem 0 ram (omega arith) refl (omega arith)
