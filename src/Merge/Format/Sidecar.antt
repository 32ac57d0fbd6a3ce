-- ===== src/Merge/Format/Sidecar.antt =====
-- pkg/merge/sidecar.go, and extOf of pkg/merge/classify.go. Paths are clean and relative, as the
-- paths that pass validation are: then filepath.Dir and filepath.Base are the parts before and
-- after the last slash.
use leyline.Base.{
  Bool-cases, Option, Text, [], ap, arith, codes, cut_last, if◌then◌else◌, inl, inr, length,
  length-append, none, replace_all, some, ℕ, ◌++◌, ◌+◌, ◌==◌, ◌∷◌, ◌≡◌, ◌≢◌,
}

-- The part after the last slash.
unfoldable pub base_name : Text → Text
base_name path = elim (cut_last path b'/') [ none ↦ path | some (d, b) ↦ b ]

-- `extOf`, and filepath.Ext: from the last dot of the last component.
unfoldable pub ext_of : Text → Text
unfolding base_name
ext_of path = elim (cut_last (base_name path) b'.') [ none ↦ [] | some (n, e) ↦ b'.' ∷ e ]

-- strings.TrimSuffix(base, ext)
unfoldable pub stem : Text → Text
unfolding base_name
stem path = elim (cut_last (base_name path) b'.') [ none ↦ base_name path | some (n, e) ↦ n ]

unfoldable pub compact_timestamp : Text → Text
compact_timestamp ts = replace_all (replace_all ts (codes "-") []) (codes ":") []

-- `dir + "/" + result`, or the result alone where there is no directory.
unfoldable pub in_dir_of : Text → Text → Text
in_dir_of path result = elim (cut_last path b'/') [
  | none ↦ result
  | some (d, b) ↦ d ++ b'/' ∷ result
]

unfoldable pub sidecar_path : Text → Text → Text
unfolding stem ext_of in_dir_of
sidecar_path path ts =
    in_dir_of path (stem path ++ codes ".conflict." ++ compact_timestamp ts ++ ext_of path)

unfoldable pub case_collision_path : Text → Text → Text
unfolding stem ext_of in_dir_of
case_collision_path path ts =
    in_dir_of path (stem path ++ codes ".casecollision." ++ compact_timestamp ts ++ ext_of path)

-- The parts that a cut leaves make up the text, with one byte between them.
abbrev IsCut : Text → Option (Text × Text) → Type 0
IsCut s none = Unit
IsCut s (some (x, y)) = length s ≡ length x + 1 + length y

IsCut-cons :
    (a c : ℕ) (s : Text) (o : Option (Text × Text))
    → IsCut s o
    → IsCut
        (a ∷ s)
        (elim o [ some (x, y) ↦ some (a ∷ x, y) | none ↦ if a == c then some ([], s) else none ])
IsCut-cons a c s (some (x, y)) h = omega arith
IsCut-cons a c s none h = elim (Bool-cases (a == c)) [
  | inl e ↦ rw e (omega arith)
  | inr e ↦ rw e tt
]

cut_last-IsCut : (s : Text) (c : ℕ) → IsCut s (cut_last s c)
unfolding cut_last
cut_last-IsCut [] c = tt
cut_last-IsCut (a ∷ s) c = IsCut-cons a c s (cut_last s c) (cut_last-IsCut s c)

length-stem_ext :
    (path : Text) → length (stem path) + length (ext_of path) ≡ length (base_name path)
unfolding stem ext_of
length-stem_ext path = parts (cut_last (base_name path) b'.') (cut_last-IsCut (base_name path) b'.')
  where
    parts :
        (o : Option (Text × Text))
        → IsCut (base_name path) o
        → length (elim o as (λ o. Text) [ none ↦ base_name path | some (n, e) ↦ n ])
            + length (elim o as (λ o. Text) [ none ↦ [] | some (n, e) ↦ b'.' ∷ e ])
          ≡ length (base_name path)
    parts none h = omega arith
    parts (some (n, e)) h = omega arith

length-in_dir_of :
    (path result : Text)
    → length (in_dir_of path result) + length (base_name path) ≡ length path + length result
unfolding in_dir_of base_name
length-in_dir_of path result = parts (cut_last path b'/') (cut_last-IsCut path b'/')
  where
    parts :
        (o : Option (Text × Text))
        → IsCut path o
        → length (elim o as (λ o. Text) [ none ↦ result | some (d, b) ↦ d ++ b'/' ∷ result ])
            + length (elim o as (λ o. Text) [ none ↦ path | some (d, b) ↦ b ])
          ≡ length path + length result
    parts none h = omega arith
    parts (some (d, b)) h = omega (arith, length-append d (b'/' ∷ result))

length-append_four :
    (a b c d : Text) → length (a ++ b ++ c ++ d) ≡ length a + length b + length c + length d
length-append_four a b c d =
    omega (arith, length-append (a ++ b ++ c) d, length-append (a ++ b) c, length-append a b)

length-sidecar_path :
    (path ts : Text)
    → length (sidecar_path path ts) ≡ length path + 10 + length (compact_timestamp ts)
unfolding sidecar_path
length-sidecar_path path ts = omega (
  arith,
  length-in_dir_of path (stem path ++ codes ".conflict." ++ compact_timestamp ts ++ ext_of path),
  length-append_four (stem path) (codes ".conflict.") (compact_timestamp ts) (ext_of path),
  length-stem_ext path,
)

-- A sidecar path is not empty.
pub sidecar_path-ne_nil : (path ts : Text) → sidecar_path path ts ≢ []
sidecar_path-ne_nil path ts e = omega (arith, length-sidecar_path path ts, ap length e)

length-case_collision_path :
    (path ts : Text)
    → length (case_collision_path path ts) ≡ length path + 15 + length (compact_timestamp ts)
unfolding case_collision_path
length-case_collision_path path ts = omega (
  arith,
  length-in_dir_of path
      (stem path ++ codes ".casecollision." ++ compact_timestamp ts ++ ext_of path),
  length-append_four (stem path) (codes ".casecollision.") (compact_timestamp ts) (ext_of path),
  length-stem_ext path,
)

-- A sidecar never has the path of the file that it stands beside, and the sidecar of a conflict
-- never has the path of the sidecar of a case collision of the same file at the same time.
pub sidecar_path-ne :
    (path ts : Text)
    → (sidecar_path path ts ≢ path) × (sidecar_path path ts ≢ case_collision_path path ts)
sidecar_path-ne path ts = (
  λ e. omega (arith, length-sidecar_path path ts, ap length e),
  λ e. omega (arith, length-sidecar_path path ts, length-case_collision_path path ts, ap length e),
)
