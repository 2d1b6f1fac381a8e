-- ===== src/Memphy/Copy.antt =====
-- `__swap_cp_page` of src/mm64.c, between two devices.
use os_assignment.Base.{
  ℕ, zero, suc, ◌+◌, ◌*◌, ◌≤◌, ◌<◌, ◌≡◌, ◌≢◌, refl, subst, arith, ◌∙◌, length, get_or, length-set,
  get_or-set_self, get_or-set_ne, some,
}
use native.Mathlib.Decide.{ℕ_discrete}
use os_assignment.Paging.{paging_pagesz}
use os_assignment.Memphy.{Memphy, Access, done, refused, fault, read, write}
use os_assignment.Memphy.Laws.{read-inside, write-inside, stored}

-- `stale` is what the local variable of the loop holds when the read is refused.
abbrev read_or : ℕ → Memphy → Access (ℕ × Memphy) → Access (ℕ × Memphy)
read_or stale mp (done r) = done r
read_or stale mp refused = done (stale, mp)
read_or stale mp fault = fault

abbrev written_or : Memphy → Access Memphy → Access Memphy
written_or mp (done mp') = done mp'
written_or mp refused = done mp
written_or mp fault = fault

-- One round: the byte at `a` of the source goes to `b` of the destination.
unfoldable pub copy_byte : ℕ → Memphy → Memphy → ℕ → ℕ → Access (Memphy × Memphy)
copy_byte stale src dst a b = elim (read_or stale src (read (some src) a)) [
  | refused ↦ refused
  | fault ↦ fault
  | done (data_read, src') ↦ elim (written_or dst (write (some dst) b data_read)) [
    | refused ↦ refused
    | fault ↦ fault
    | done dst' ↦ done (src', dst')
  ]
]

-- The loop from `cellidx` with the rounds that are left.
unfoldable pub copy_cells : ℕ → ℕ → ℕ → Memphy → ℕ → Memphy → ℕ → Access (Memphy × Memphy)
copy_cells zero cellidx stale src srcfpn dst dstfpn = done (src, dst)
copy_cells (suc left) cellidx stale src srcfpn dst dstfpn =
    elim (copy_byte stale src dst (srcfpn * paging_pagesz + cellidx)
      (dstfpn * paging_pagesz + cellidx)) [
        | refused ↦ refused
        | fault ↦ fault
        | done (src', dst') ↦ copy_cells left (cellidx + 1) stale src' srcfpn dst' dstfpn
      ]

unfoldable pub swap_cp_page : ℕ → Memphy → ℕ → Memphy → ℕ → Access (Memphy × Memphy)
swap_cp_page stale src srcfpn dst dstfpn = copy_cells paging_pagesz 0 stale src srcfpn dst dstfpn

-- `dst'` is `dst` with the cells from `from` up to `to` of frame `dstfpn` taken from the source.
pub record IsCopied (src : Memphy) (srcfpn : ℕ) (dst : Memphy) (dstfpn from to : ℕ) (dst' : Memphy)
    : Type 0 where
  pub copied :
      (i : ℕ)
      → from ≤ i
      → i < to
      → get_or dst'.storage (dstfpn * 256 + i) 0 ≡ get_or src.storage (srcfpn * 256 + i) 0
  pub below : (a : ℕ) → a < dstfpn * 256 + from → get_or dst'.storage a 0 ≡ get_or dst.storage a 0
  pub above : (a : ℕ) → dstfpn * 256 + to ≤ a → get_or dst'.storage a 0 ≡ get_or dst.storage a 0
  pub size : length dst'.storage ≡ length dst.storage
  pub random : dst'.rdmflg ≡ dst.rdmflg
  pub frames : dst'.free_fp_list ≡ dst.free_fp_list

copy_byte-inside :
    (stale : ℕ) (src dst : Memphy) (a b : ℕ)
    → src.rdmflg ≢ 0
    → dst.rdmflg ≢ 0
    → a < length src.storage
    → b < length dst.storage
    → copy_byte stale src dst a b ≡ done (src, stored dst b (get_or src.storage a 0))
unfolding copy_byte
copy_byte-inside stale src dst a b r r' h h' =
    rw (read-inside src a r h, write-inside dst b (get_or src.storage a 0) r' h', copy_byte) refl

-- The device after the loop.
abbrev copied_cells : ℕ → ℕ → Memphy → ℕ → Memphy → ℕ → Memphy
copied_cells zero cellidx src srcfpn dst dstfpn = dst
copied_cells (suc left) cellidx src srcfpn dst dstfpn =
    copied_cells left (cellidx + 1) src srcfpn
      (stored dst (dstfpn * 256 + cellidx) (get_or src.storage (srcfpn * 256 + cellidx) 0)) dstfpn

copy_cells-copied :
    (left i stale : ℕ) (src : Memphy) (srcfpn : ℕ) (dst : Memphy) (dstfpn : ℕ)
    → src.rdmflg ≢ 0
    → dst.rdmflg ≢ 0
    → srcfpn * 256 + i + left ≤ length src.storage
    → dstfpn * 256 + i + left ≤ length dst.storage
    → copy_cells left i stale src srcfpn dst dstfpn
      ≡ done (src, copied_cells left i src srcfpn dst dstfpn)
unfolding copy_cells
copy_cells-copied zero i stale src srcfpn dst dstfpn r r' h h' = refl
copy_cells-copied (suc left) i stale src srcfpn dst dstfpn r r' h h' =
    let b = dstfpn * 256 + i in
    let v = get_or src.storage (srcfpn * 256 + i) 0 in
    let l = length-set dst.storage b v in
    rw
      (
        copy_byte-inside stale src dst (srcfpn * 256 + i) b r r' (omega arith) (omega arith),
        copy_cells,
      )
      (copy_cells-copied left (i + 1) stale src srcfpn (stored dst b v) dstfpn r r' (omega arith)
        (omega arith))

copied_cells-IsCopied :
    (left i : ℕ) (src : Memphy) (srcfpn : ℕ) (dst : Memphy) (dstfpn : ℕ)
    → dstfpn * 256 + i + left ≤ length dst.storage
    → IsCopied src srcfpn dst dstfpn i (i + left) (copied_cells left i src srcfpn dst dstfpn)
copied_cells-IsCopied zero i src srcfpn dst dstfpn h = record {
  copied = λ j l u. absurd (omega arith);
  below = λ a l. refl;
  above = λ a l. refl;
  size = refl;
  random = refl;
  frames = refl;
}
copied_cells-IsCopied (suc left) i src srcfpn dst dstfpn h =
    let b = dstfpn * 256 + i in
    let v = get_or src.storage (srcfpn * 256 + i) 0 in
    let l = length-set dst.storage b v in
    let later =
      copied_cells-IsCopied left (i + 1) src srcfpn (stored dst b v) dstfpn (omega arith) in
    record {
      copied = λ j lo up. elim (ℕ_discrete i j) [
        | yes same ↦
            subst
              (λ k.
                get_or (copied_cells left (i + 1) src srcfpn (stored dst b v) dstfpn).storage
                  (dstfpn * 256 + k) 0
                ≡ get_or src.storage (srcfpn * 256 + k) 0)
              same (later.below b (omega arith) ∙ get_or-set_self dst.storage b v 0 (omega arith))
        | no other ↦ later.copied j (omega arith) (omega arith)
      ];
      below = λ a lt.
          later.below a (omega arith) ∙ get_or-set_ne dst.storage b a v 0 (λ e. omega arith);
      above = λ a ge.
          later.above a (omega arith) ∙ get_or-set_ne dst.storage b a v 0 (λ e. omega arith);
      size = later.size ∙ l;
      random = later.random;
      frames = later.frames;
    }

-- Between two devices with random access that have the two frames inside their storage, the copy
-- succeeds and leaves the source alone; the 256 bytes of the destination's frame are those of the
-- source's frame, and every byte outside this frame, the size and the free frames are as before.
pub swap_cp_page_lem :
    (stale : ℕ) (src : Memphy) (srcfpn : ℕ) (dst : Memphy) (dstfpn : ℕ)
    → src.rdmflg ≢ 0
    → dst.rdmflg ≢ 0
    → srcfpn * 256 + 256 ≤ length src.storage
    → dstfpn * 256 + 256 ≤ length dst.storage
    → (dst' : Memphy) × (swap_cp_page stale src srcfpn dst dstfpn ≡ done (src, dst'))
      × IsCopied src srcfpn dst dstfpn 0 256 dst'
unfolding swap_cp_page
swap_cp_page_lem stale src srcfpn dst dstfpn r r' h h' = (
  copied_cells 256 0 src srcfpn dst dstfpn,
  copy_cells-copied 256 0 stale src srcfpn dst dstfpn r r' (omega arith) (omega arith),
  copied_cells-IsCopied 256 0 src srcfpn dst dstfpn (omega arith),
)
