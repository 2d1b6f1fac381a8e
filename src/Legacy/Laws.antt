-- ===== src/Legacy/Laws.antt =====
-- The split of an address, and the calls that reach no memory.
use os_assignment.Base.{
  ℕ, ◌+◌, ◌*◌, ◌^◌, ◌<◌, ◌≡◌, refl, arith, List, some, length, ltb, get_elem?-eq-get_or, set, true,
}
use os_assignment.Base.Masks.{bit_and_field}
use os_assignment.Process.{Pcb}
use os_assignment.Legacy.{
  get_offset, get_first_lv, get_second_lv, get_trans_table, translate, alloc_mem, read_mem, alloc,
  read,
}

-- The offset and the two indices of a 64-bit address put it together again; the offset is
-- below 2 ^ 10, and the second index below 2 ^ 5.
pub get_second_lv_lem :
    (addr : ℕ)
    → addr < 2 ^ 64
    → ((get_first_lv addr * 2 ^ 5 + get_second_lv addr) * 2 ^ 10 + get_offset addr ≡ addr)
      × (get_offset addr < 2 ^ 10)
      × (get_second_lv addr < 2 ^ 5)
unfolding get_offset get_first_lv get_second_lv
get_second_lv_lem addr h =
    let low = bit_and_field 0 10 addr in (omega arith, omega arith, omega arith)

-- No memory is reached: `alloc` returns 1 and changes nothing. `read` of a register `source` into a
-- register `destination` returns 0 and puts the byte there that was never read, as the failure of
-- `read_mem` is taken for a success.
pub read_lem :
    (ram : List ℕ) (physical_addr unset size source offset destination amount : ℕ) (proc : Pcb)
    → source < length proc.regs
    → destination < length proc.regs
    → (alloc proc amount destination ≡ some (1, proc))
      × (read ram physical_addr unset proc size source offset destination
          ≡ some (0, record proc { regs = set proc.regs destination unset }))
unfolding alloc alloc_mem read read_mem translate get_trans_table
read_lem ram physical_addr unset size source offset destination amount proc h h' =
    let base = get_elem?-eq-get_or proc.regs source 0 h in
    let inside : ltb destination (length proc.regs) ≡ true = ground arith in
    (refl, rw (read, base, inside) refl)
