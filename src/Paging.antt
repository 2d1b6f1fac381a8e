-- ===== src/Paging.antt =====
-- The paging constants of include/mm.h and include/mm64.h, in the build's configuration
-- (MM64 defined, CONFIG64 not, so GENMASK works at 32 bits).
pub mod Pte
pub mod Address
pub mod Directory
use os_assignment.Base.{ℕ, ◌+◌, ◌-◌, ◌*◌, ◌/◌}
use os_assignment.Base.Masks.{genmask, bit_at, get_value}

abbrev pub paging_pagesz : ℕ
paging_pagesz = 256

abbrev pub paging64_pagesz : ℕ
paging64_pagesz = 4096

-- DIV_ROUND_UP(n, d), where the sum does not wrap.
abbrev pub div_round_up : ℕ → ℕ → ℕ
div_round_up n d = (n + d - 1) / d

abbrev pub paging_align : ℕ → ℕ
paging_align sz = div_round_up sz paging_pagesz * paging_pagesz

-- PAGING_OFFST_MASK and PAGING_PGN_MASK: NBITS(PAGING_PAGESZ) is 8.
abbrev pub paging_offst_mask : ℕ
paging_offst_mask = genmask 32 7 0

abbrev pub paging_pgn_mask : ℕ
paging_pgn_mask = genmask 32 21 8

abbrev pub paging_offst : ℕ → ℕ
paging_offst x = get_value x paging_offst_mask 0

abbrev pub paging_pgn : ℕ → ℕ
paging_pgn x = get_value x paging_pgn_mask 8
