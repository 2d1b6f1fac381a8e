-- ===== src/Memphy.antt =====
-- The physical memory devices of src/mm-memphy.c: RAM and swap.
pub mod Laws
pub mod Format
pub mod Copy
pub mod Dump
mod Examples
use os_assignment.Base.{
  ℕ, zero, suc, ◌+◌, ◌-◌, ◌*◌, ◌/◌, ◌%◌, ◌^◌, List, [], ◌∷◌, ◌++◌, Option, none, some, ◌==◌, ltb,
  leb, length, get_elem?, set, replicate, if◌then◌else◌,
}
use os_assignment.Paging.{paging_pagesz}

-- A byte is its bit pattern. A negative `maxsz` does the same as 0 wherever it is read, and is 0
-- here. `free_fp_list` holds the frame numbers of the linked list. The list
-- `used_fp_list` is never touched.
pub record Memphy : Type 0 where
  pub storage : List ℕ
  pub maxsz : ℕ
  pub rdmflg : ℕ
  pub cursor : ℕ
  pub free_fp_list : List ℕ

-- The return code 0 with what was produced, the return code -1, or an access outside the storage,
-- which C leaves undefined.
pub data Access {ℓ} (A : Type ℓ) : Type ℓ where
  done : A → Access A
  refused fault : Access A

-- The loop of `MEMPHY_mv_csr`, from step `numstep` with `maxsz - numstep` rounds left.
unfoldable pub mv_csr_loop : ℕ → ℕ → ℕ → ℕ → ℕ → ℕ
mv_csr_loop zero numstep offset maxsz cursor = cursor
mv_csr_loop (suc left) numstep offset maxsz cursor =
    let rest = mv_csr_loop left (numstep + 1) offset maxsz ((cursor + 1) % maxsz) in
    if ltb numstep offset then rest else cursor

unfoldable pub mv_csr : Memphy → ℕ → Memphy
mv_csr mp offset = record mp { cursor = mv_csr_loop mp.maxsz 0 offset mp.maxsz 0 }

unfoldable pub load_byte : Memphy → ℕ → Access (ℕ × Memphy)
load_byte mp addr = elim (get_elem? mp.storage addr) [ none ↦ fault | some v ↦ done (v, mp) ]

unfoldable pub store_byte : Memphy → ℕ → ℕ → Access Memphy
store_byte mp addr value =
    if ltb addr (length mp.storage)
    then done (record mp { storage = set mp.storage addr value })
    else fault

-- `none` is a NULL device.
unfoldable pub seq_read : Option Memphy → ℕ → Access (ℕ × Memphy)
seq_read none addr = refused
seq_read (some mp) addr = if mp.rdmflg == 0 then refused else load_byte (mv_csr mp addr) addr

unfoldable pub read : Option Memphy → ℕ → Access (ℕ × Memphy)
read none addr = refused
read (some mp) addr = if mp.rdmflg == 0 then seq_read (some mp) addr else load_byte mp addr

unfoldable pub seq_write : Option Memphy → ℕ → ℕ → Access Memphy
seq_write none addr value = refused
seq_write (some mp) addr value =
    if mp.rdmflg == 0 then refused else store_byte (mv_csr mp addr) addr value

unfoldable pub write : Option Memphy → ℕ → ℕ → Access Memphy
write none addr value = refused
write (some mp) addr value =
    if mp.rdmflg == 0 then seq_write (some mp) addr value else store_byte mp addr value

-- The frames that the loop of `MEMPHY_format` links, from `iter` with the rounds left.
unfoldable pub frames_from : ℕ → ℕ → List ℕ
frames_from zero iter = []
frames_from (suc left) iter = iter ∷ frames_from left (iter + 1)

-- `tail` is what the field `fp_next` of the first node leads to as `malloc` returns it: with one
-- frame it is never set.
unfoldable pub format : Memphy → ℕ → List ℕ → Access Memphy
format mp pagesz tail =
    let numfp = mp.maxsz / pagesz in
    if numfp == 0
    then refused
    else (done
        (record mp { free_fp_list = 0 ∷ (if numfp == 1 then tail else frames_from (numfp - 1) 1) }))

unfoldable pub get_freefp : Memphy → Option (ℕ × Memphy)
get_freefp mp = elim mp.free_fp_list [
  | [] ↦ none
  | fpn ∷ rest ↦ some (fpn, record mp { free_fp_list = rest })
]

unfoldable pub put_freefp : Memphy → ℕ → Memphy
put_freefp mp fpn = record mp { free_fp_list = fpn ∷ mp.free_fp_list }

abbrev pub or_as_before : Memphy → Access Memphy → Memphy
or_as_before mp (done mp') = mp'
or_as_before mp refused = mp
or_as_before mp fault = mp

-- `max_size`, an `addr_t`, as the `int` that `maxsz` is.
abbrev pub int_size : ℕ → ℕ
int_size max_size = if leb (2 ^ 31) (max_size % 2 ^ 32) then 0 else max_size % 2 ^ 32

-- `malloc` finds the storage; the return code of `MEMPHY_format` is not looked at.
unfoldable pub init_memphy : Memphy → ℕ → ℕ → List ℕ → Memphy
unfolding format
init_memphy mp max_size randomflg tail =
    let sized = record mp { storage = replicate max_size 0; maxsz = int_size max_size } in
    let formatted = or_as_before sized (format sized paging_pagesz tail) in
    let flag : ℕ = if randomflg == 0 then 0 else 1 in
    let flagged = record formatted { rdmflg = flag } in
    if flag == 0 then record flagged { cursor = 0 } else flagged
