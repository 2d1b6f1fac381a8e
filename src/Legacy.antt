-- ===== src/Legacy.antt =====
-- The memory of src/mem.c, which the build with MM_PAGING leaves unused, and the instructions of
-- src/cpu.c that would use it. The translation finds no table, so the RAM is never reached.
pub mod Laws
mod Examples
use os_assignment.Base.{
  ℕ, zero, suc, ◌+◌, ◌-◌, ◌*◌, ◌/◌, ◌%◌, ◌^◌, List, [], ◌∷◌, Option, none, some, ◌==◌, ltb, bit_and,
  get_elem?, set, length, if◌then◌else◌,
}
use os_assignment.Process.{Pcb}

-- OFFSET_LEN, PAGE_LEN and PAGE_SIZE.
abbrev pub offset_len : ℕ
offset_len = 10

abbrev pub page_len : ℕ
page_len = 5

abbrev pub page_size : ℕ
page_size = 2 ^ 10

-- `~((~0U) << OFFSET_LEN)` is the 32-bit word with the low 10 bits set.
unfoldable pub get_offset : ℕ → ℕ
get_offset addr = bit_and addr (2 ^ 10 - 1)

unfoldable pub get_first_lv : ℕ → ℕ
get_first_lv addr = addr / 2 ^ 15

-- A 64-bit difference.
unfoldable pub get_second_lv : ℕ → ℕ
get_second_lv addr = (addr / 2 ^ 10 + 2 ^ 64 - get_first_lv addr * 2 ^ 5 % 2 ^ 64) % 2 ^ 64

-- The loop does nothing, and NULL is returned.
unfoldable pub get_trans_table : ℕ → ℕ → Option (List ℕ)
get_trans_table index size = none

-- The search of a table for `second_lv`, given by its fields `v_index`; the address behind
-- `physical_addr` is never written.
unfoldable pub find_v_index : List ℕ → ℕ → ℕ
find_v_index [] second_lv = 0
find_v_index (v ∷ rest) second_lv = if v == second_lv then 1 else find_v_index rest second_lv

-- `size` is that of the page table of the process.
unfoldable pub translate : ℕ → ℕ → ℕ
translate virtual_addr size = elim (get_trans_table (get_first_lv virtual_addr) size) [
  | none ↦ 0
  | some table ↦ find_v_index table (get_second_lv virtual_addr)
]

-- The address, and the process: `mem_avail` is 0.
unfoldable pub alloc_mem : ℕ → Pcb → ℕ × Pcb
alloc_mem size proc =
    let mem_avail : ℕ = 0 in
    let num_pages = if size % page_size == 0 then size / page_size + 1 else size / page_size in
    if mem_avail == 0
    then (0, proc)
    else (proc.bp, record proc { bp = (proc.bp + num_pages * page_size) % 2 ^ 32 })

unfoldable pub free_mem : ℕ → ℕ
free_mem address = 0

-- The return code, 1 for a failure, and the byte, `unset` where it is not written. `physical_addr`
-- is not set either.
unfoldable pub read_mem : List ℕ → ℕ → ℕ → ℕ → ℕ → Option (ℕ × ℕ)
read_mem ram physical_addr unset address size =
    if translate address size == 0
    then some (1, unset)
    else (elim (get_elem? ram physical_addr) [ none ↦ none | some value ↦ some (0, value) ])

unfoldable pub write_mem : List ℕ → ℕ → ℕ → ℕ → ℕ → Option (ℕ × List ℕ)
write_mem ram physical_addr address size value =
    if translate address size == 0
    then some (1, ram)
    else (if ltb physical_addr (length ram) then some (0, set ram physical_addr value) else none)

-- proc->regs[index], an array of 10.
abbrev pub reg : Pcb → ℕ → Option ℕ
reg proc index = get_elem? proc.regs index

abbrev pub set_reg : Pcb → ℕ → ℕ → Option Pcb
set_reg proc index v =
    if ltb index (length proc.regs)
    then some (record proc { regs = set proc.regs index v })
    else none

unfoldable pub alloc : Pcb → ℕ → ℕ → Option (ℕ × Pcb)
alloc proc size reg_index =
    let r = alloc_mem size proc in
    if r.0 == 0
    then some (1, r.1)
    else (elim (set_reg r.1 reg_index r.0) [ none ↦ none | some proc' ↦ some (0, proc') ])

unfoldable pub free_data : Pcb → ℕ → Option ℕ
free_data proc reg_index = elim (reg proc reg_index) [
  | none ↦ none
  | some address ↦ some (free_mem address)
]

-- `read` takes the return code 1 of `read_mem` for a success.
unfoldable pub read : List ℕ → ℕ → ℕ → Pcb → ℕ → ℕ → ℕ → ℕ → Option (ℕ × Pcb)
read ram physical_addr unset proc size source offset destination = elim (reg proc source) [
  | none ↦ none
  | some base ↦ elim (read_mem ram physical_addr unset ((base + offset) % 2 ^ 64) size) [
    | none ↦ none
    | some (code, value) ↦
        if code == 0
        then some (1, proc)
        else (elim (set_reg proc destination value) [ none ↦ none | some proc' ↦ some (0, proc') ])
  ]
]

unfoldable pub write : List ℕ → ℕ → Pcb → ℕ → ℕ → ℕ → ℕ → Option (ℕ × List ℕ)
write ram physical_addr proc size value destination offset = elim (reg proc destination) [
  | none ↦ none
  | some base ↦ write_mem ram physical_addr ((base + offset) % 2 ^ 64) size value
]
