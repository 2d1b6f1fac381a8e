-- ===== src/Memphy/Dump.antt =====
-- `MEMPHY_dump` of src/mm-memphy.c, as the list of the addresses and bytes that it prints.
use os_assignment.Base.{
  ℕ, zero, suc, ◌+◌, ◌<◌, ◌≡◌, ◌≢◌, refl, arith, List, [], ◌∷◌, Option, none, some, ◌==◌, get_or,
  length, false, if◌then◌else◌, ◌≤◌, Bool-cases, inl, inr,
}
use os_assignment.Memphy.{Memphy, Access, done, refused, fault, read}
use os_assignment.Memphy.Laws.{read-inside}

abbrev pub print_byte : ℕ → ℕ → Access (List (ℕ × ℕ)) → Access (List (ℕ × ℕ))
print_byte i data_read (done lines) =
    if data_read == 0 then done lines else done ((i, data_read) ∷ lines)
print_byte i data_read refused = refused
print_byte i data_read fault = fault

-- The loop from address `i` with the rounds that are left. `stale` is what the local variable holds
-- when the read is refused.
unfoldable pub dump_from : ℕ → ℕ → ℕ → Memphy → Access (List (ℕ × ℕ))
dump_from zero i stale mp = done []
dump_from (suc left) i stale mp = elim (read (some mp) i) [
  | fault ↦ fault
  | refused ↦ print_byte i stale (dump_from left (i + 1) stale mp)
  | done (data_read, mp') ↦ print_byte i data_read (dump_from left (i + 1) stale mp')
]

-- `storage` is not NULL.
unfoldable pub dump : ℕ → Option Memphy → Access (List (ℕ × ℕ))
unfolding dump_from
dump stale none = refused
dump stale (some mp) = if mp.maxsz == 0 then refused else dump_from mp.maxsz 0 stale mp

-- The bytes that are not 0, with their addresses.
abbrev pub nonzero_from : List ℕ → ℕ → ℕ → List (ℕ × ℕ)
nonzero_from bytes zero i = []
nonzero_from bytes (suc left) i =
    if get_or bytes i 0 == 0
    then nonzero_from bytes left (i + 1)
    else (i, get_or bytes i 0) ∷ nonzero_from bytes left (i + 1)

dump_from_lem :
    (left i stale : ℕ) (mp : Memphy)
    → mp.rdmflg ≢ 0
    → i + left ≤ length mp.storage
    → dump_from left i stale mp ≡ done (nonzero_from mp.storage left i)
unfolding dump_from
dump_from_lem zero i stale mp flag h = refl
dump_from_lem (suc left) i stale mp flag h =
    rw
      (
        read-inside mp i flag (omega arith),
        dump_from_lem left (i + 1) stale mp flag (omega arith),
        dump_from,
      )
      (elim (Bool-cases (get_or mp.storage i 0 == 0)) [ inl e ↦ rw e refl | inr e ↦ rw e refl ])

-- For a device with random access whose storage has its `maxsz` > 0 bytes, `MEMPHY_dump` prints
-- exactly the bytes that are not 0, with their addresses, in order.
pub dump_lem :
    (stale : ℕ) (mp : Memphy)
    → mp.rdmflg ≢ 0
    → length mp.storage ≡ mp.maxsz
    → 0 < mp.maxsz
    → dump stale (some mp) ≡ done (nonzero_from mp.storage mp.maxsz 0)
unfolding dump
dump_lem stale mp flag size real =
    let some_bytes : (mp.maxsz == 0) ≡ false = ground arith in
    rw some_bytes (dump_from_lem mp.maxsz 0 stale mp flag (omega arith))
