-- ===== src/Process.antt =====
-- The process control block and the instructions of include/common.h. A pointer to a process is
-- an address, and NULL is 0; the blocks stand in a store that maps addresses to blocks.
use os_assignment.Base.{ℕ, List}

-- enum ins_opcode_t.
pub data Opcode : Type 0 where
  calc alloc free read write syscall : Opcode

pub record Inst : Type 0 where
  pub opcode : Opcode
  pub arg_0 : ℕ
  pub arg_1 : ℕ
  pub arg_2 : ℕ
  pub arg_3 : ℕ

-- `code` holds `code->text`, and its length is `code->size`. `mm` is an address.
pub record Pcb : Type 0 where
  pub pid : ℕ
  pub priority : ℕ
  pub code : List Inst
  pub regs : List ℕ
  pub pc : ℕ
  pub prio : ℕ
  pub bp : ℕ
  pub mm : ℕ

abbrev pub Store : Type 0
Store = ℕ → Pcb
