-- ===== src/Cpu.antt =====
-- The instructions of src/cpu.c in the build's configuration (MM_PAGING): `run` executes the one
-- at the program counter.
pub mod Steps
pub mod Laws
mod Examples
use os_assignment.Base.{
  ℕ, zero, suc, ◌+◌, ◌%◌, ◌^◌, List, Option, none, some, ◌==◌, length, get_elem?, if◌then◌else◌,
}
use os_assignment.Process.{Pcb, Inst, Opcode, Store, calc, alloc, free, read, write, syscall}
use os_assignment.Region.{Code, success, failure}
use os_assignment.Machine.{Machine, Kernel, ◌>>=◌, ◌>>◌, pure}
use os_assignment.Syscall.Memmap.{libsyscall}
use os_assignment.Libmem.Regions.{liballoc, libfree, libread, libwrite}

-- The values of `stat`: 1, or the return code of the operation.
pub data Stat : Type 0 where
  stat_one : Stat
  returned : Code → Stat

-- `calc`: the address of the process and 0.
abbrev pub calc_op : ℕ → Code
calc_op proc = success

-- switch (ins.opcode). The registers' names and the byte are converted to the parameters' types;
-- the byte that `libread` gives goes to the local copy of the instruction.
unfoldable pub execute : ℕ → Inst → Kernel Code
execute proc ins = elim ins.opcode [
  | calc ↦ pure (calc_op proc)
  | alloc ↦ liballoc proc ins.arg_0 (ins.arg_1 % 2 ^ 32)
  | free ↦ libfree proc (ins.arg_0 % 2 ^ 32)
  | read ↦ do r ← libread proc (ins.arg_0 % 2 ^ 32) ins.arg_1; pure r.0
  | write ↦ libwrite proc (ins.arg_0 % 256) (ins.arg_1 % 2 ^ 32) ins.arg_2
  | syscall ↦ libsyscall proc (ins.arg_0 % 2 ^ 32) ins.arg_1 ins.arg_2 ins.arg_3
]

-- proc->pc++.
abbrev pub put_pc : Machine → ℕ → ℕ → Machine
put_pc s proc pc = record s {
  procs = λ p. if p == proc then (record (s.procs p) { pc = pc }) else s.procs p;
}

unfoldable pub run : ℕ → Kernel Stat
unfolding execute
run proc s = elim (get_elem? (s.procs proc).code (s.procs proc).pc) [
  | none ↦ some (stat_one, s)
  | some ins ↦ elim (execute proc ins (put_pc s proc ((s.procs proc).pc + 1))) [
    | none ↦ none
    | some (code, s') ↦ some (returned code, s')
  ]
]

-- `n` instructions of a process in a row.
unfoldable pub runs : ℕ → ℕ → Kernel (Unit {0})
runs zero proc s = some (tt, s)
runs (suc n) proc s = elim (run proc s) [ none ↦ none | some (stat, s') ↦ runs n proc s' ]
