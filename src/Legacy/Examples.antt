-- ===== src/Legacy/Examples.antt =====
-- A process with two registers, and an address with all three parts.
use os_assignment.Base.{◌+◌, ◌*◌, ◌^◌, ◌<◌, ◌≡◌, arith, [], ◌∷◌, some}
use os_assignment.Process.{Pcb}
use os_assignment.Legacy.{get_offset, get_first_lv, get_second_lv, alloc, read}
use os_assignment.Legacy.Laws.{get_second_lv_lem, read_lem}

abbrev two_registers : Pcb
two_registers = record {
  pid = 1;
  priority = 0;
  code = [];
  regs = 4 ∷ 6 ∷ [];
  pc = 0;
  prio = 0;
  bp = 0;
  mm = 0;
}

get_second_lv_test :
    ((get_first_lv 0x12345 * 2 ^ 5 + get_second_lv 0x12345) * 2 ^ 10 + get_offset 0x12345 ≡ 0x12345)
    × (get_offset 0x12345 < 2 ^ 10)
    × (get_second_lv 0x12345 < 2 ^ 5)
get_second_lv_test = get_second_lv_lem 0x12345 (omega arith)

legacy_read_test :
    (alloc two_registers 300 1 ≡ some (1, two_registers))
    × (read [] 0 77 two_registers 0 0 5 1 ≡ some (0, record two_registers { regs = 4 ∷ 77 ∷ [] }))
legacy_read_test = read_lem [] 0 77 0 0 5 1 300 two_registers (omega arith) (omega arith)
