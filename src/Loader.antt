-- ===== src/Loader.antt =====
-- `get_opcode` of src/loader.c. A string of C is the list of its character codes.
mod Examples
use os_assignment.Base.{
  ℕ, ◌≡◌, ◌≢◌, ◌⊎◌, ◌↔◌, inl, inr, refl, ap, ◌∙◌, sym, arith, List, [], ◌∷◌, Bool, true, false,
  ◌&&◌, ◌==◌, Option, none, some, some-inj, none-ne-some, Bool-cases, ==_iff, if◌then◌else◌,
}
use os_assignment.Process.{Opcode, calc, alloc, free, read, write, syscall}

-- !strcmp(s, t).
unfoldable pub same_string : List ℕ → List ℕ → Bool
same_string [] [] = true
same_string [] (d ∷ ds) = false
same_string (c ∷ cs) [] = false
same_string (c ∷ cs) (d ∷ ds) = c == d && same_string cs ds

-- The names "calc", "alloc", "free", "read", "write" and "syscall".
abbrev pub opt_name : Opcode → List ℕ
opt_name calc = 99 ∷ 97 ∷ 108 ∷ 99 ∷ []
opt_name alloc = 97 ∷ 108 ∷ 108 ∷ 111 ∷ 99 ∷ []
opt_name free = 102 ∷ 114 ∷ 101 ∷ 101 ∷ []
opt_name read = 114 ∷ 101 ∷ 97 ∷ 100 ∷ []
opt_name write = 119 ∷ 114 ∷ 105 ∷ 116 ∷ 101 ∷ []
opt_name syscall = 115 ∷ 121 ∷ 115 ∷ 99 ∷ 97 ∷ 108 ∷ 108 ∷ []

-- `none` is exit(1).
unfoldable pub get_opcode : List ℕ → Option Opcode
get_opcode opt =
    if same_string opt (opt_name calc)
    then some calc
    else (if same_string opt (opt_name alloc)
        then some alloc
        else (if same_string opt (opt_name free)
            then some free
            else (if same_string opt (opt_name read)
                then some read
                else (if same_string opt (opt_name write)
                    then some write
                    else (if same_string opt (opt_name syscall) then some syscall else none)))))

same_string_sound : (s t : List ℕ) → same_string s t ≡ true → s ≡ t
unfolding same_string
same_string_sound [] [] e = refl
same_string_sound [] (d ∷ ds) e = absurd cc
same_string_sound (c ∷ cs) [] e = absurd cc
same_string_sound (c ∷ cs) (d ∷ ds) e =
    let head : c ≡ d = ground arith in
    let tail : cs ≡ ds = same_string_sound cs ds (ground arith) in λ i. head i ∷ tail i

-- One test of the chain.
test_sound :
    (opt : List ℕ) (o x : Opcode) (rest : Option Opcode)
    → (rest ≡ some o → opt ≡ opt_name o)
    → (if same_string opt (opt_name x) then some x else rest) ≡ some o
    → opt ≡ opt_name o
test_sound opt o x rest later e = elim (Bool-cases (same_string opt (opt_name x))) [
  | inl hit ↦
      same_string_sound opt (opt_name x) hit
      ∙ ap opt_name (some-inj (sym (ap (λ (b : Bool). if b then some x else rest) hit) ∙ e))
  | inr miss ↦ later (sym (ap (λ (b : Bool). if b then some x else rest) miss) ∙ e)
]

get_opcode-opt_name : (o : Opcode) → get_opcode (opt_name o) ≡ some o
unfolding get_opcode same_string
get_opcode-opt_name calc = refl
get_opcode-opt_name alloc = refl
get_opcode-opt_name free = refl
get_opcode-opt_name read = refl
get_opcode-opt_name write = refl
get_opcode-opt_name syscall = refl

-- `get_opcode` and the six names are inverse: each name gives its opcode, and a string that gives
-- an opcode is the name of it.
pub get_opcode_lem : (opt : List ℕ) (o : Opcode) → (get_opcode opt ≡ some o) ↔ (opt ≡ opt_name o)
unfolding get_opcode
get_opcode_lem opt o = (
  test_sound opt o calc _ (
      test_sound opt o alloc _ (
        test_sound opt o free _ (
          test_sound opt o read _ (
            test_sound opt o write _
              (test_sound opt o syscall _ (λ e. absurd (none-ne-some e))))))),
  λ e. ap get_opcode e ∙ get_opcode-opt_name o,
)
