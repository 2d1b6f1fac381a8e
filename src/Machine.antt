-- ===== src/Machine.antt =====
-- The state that the parts of the kernel share: the processes, the queues of the scheduler, the
-- structures struct mm_struct, the page tables, and the kernel structure struct krnl_t with its
-- devices. src/os.c has one kernel structure, and src/libmem.c one lock around its operations.
pub mod Keeps
use os_assignment.Base.{ℕ, ◌≡◌, ap, List, Option, none, some, ◌==◌, if◌then◌else◌}
use os_assignment.Process.{Store}
use os_assignment.Sched.{Sched}
use os_assignment.Paging.Directory.{Heap}
use os_assignment.Memphy.{Memphy}
use os_assignment.Region.{Mm}
use os_assignment.Mapping.{Space}

-- `mms` holds the structures by their addresses. `krnl` is the address of the kernel structure, to
-- which the loader sets the field `krnl` of every process. `krnl_mm` is the field `mm` of struct krnl_t, an
-- address; `mswp` is the device `active_mswp`, another one than `mram`; neither is NULL once a
-- process is loaded. `stale` is what a local variable of type BYTE holds before it is set. A process
-- in a queue has an `mm` that is not NULL, as the loader writes through it.
pub record Machine : Type 0 where
  pub procs : Store
  pub sched : Sched
  pub mms : ℕ → Mm
  pub heap : Heap
  pub krnl : ℕ
  pub krnl_mm : ℕ
  pub mram : Memphy
  pub mswp : Memphy
  pub active_mswp_id : ℕ
  pub stale : ℕ

-- A step of the kernel; `none` is an access that C leaves undefined.
abbrev pub Kernel : Type 0 → Type 0
Kernel A = Machine → Option (A × Machine)

infixl 5 ◌>>=◌ ◌>>◌
abbrev pub ◌>>=◌ : {A B : Type 0} → Kernel A → (A → Kernel B) → Kernel B
◌>>=◌ m f s = elim (m s) [ none ↦ none | some (a, s') ↦ f a s' ]

pub bind-run :
    {A B : Type 0} (m : Kernel A) (f : A → Kernel B) (s : Machine) (a : A) (s' : Machine)
    → m s ≡ some (a, s')
    → (m >>= f) s ≡ f a s'
bind-run m f s a s' e = ap (λ o. elim o [ none ↦ none | some (b, t) ↦ f b t ]) e

pub bind-none :
    {A B : Type 0} (m : Kernel A) (f : A → Kernel B) (s : Machine) → m s ≡ none → (m >>= f) s ≡ none
bind-none m f s e = ap (λ o. elim o [ none ↦ none | some (b, t) ↦ f b t ]) e

abbrev pub ◌>>◌ : {B : Type 0} → Kernel (Unit {0}) → Kernel B → Kernel B
m >> k = m >>= λ _. k

abbrev pub pure : {A : Type 0} → A → Kernel A
pure a s = some (a, s)

abbrev pub undefined : {A : Type 0} → Kernel A
undefined s = none

abbrev pub gets : {A : Type 0} → (Machine → A) → Kernel A
gets f s = some (f s, s)

-- caller->mm, and the page directory there.
abbrev pub mm_of : Machine → ℕ → Mm
mm_of s proc = s.mms (s.procs proc).mm

abbrev pub pgd_of : Machine → ℕ → ℕ
pgd_of s proc = (mm_of s proc).pgd

abbrev pub put_mm : Machine → ℕ → Mm → Machine
put_mm s a mm = record s { mms = λ b. if b == a then mm else s.mms b }

-- The part of the state that the mapping of pages changes.
abbrev pub space_of : Machine → ℕ → Space
space_of s proc = record { heap = s.heap; pgd = pgd_of s proc; fifo_pgn = (mm_of s proc).fifo_pgn }

abbrev pub put_space : Machine → ℕ → Space → Machine
put_space s proc space =
    put_mm (record s { heap = space.heap }) (s.procs proc).mm
      (record (mm_of s proc) { fifo_pgn = space.fifo_pgn })
