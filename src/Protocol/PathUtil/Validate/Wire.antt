-- ===== src/Protocol/PathUtil/Validate/Wire.antt =====
-- The paths that `ValidatePath` accepts.
use leyline.Base.{
  Bool, Bool-cases, List, Option-cases, Text, [], ap, arith, codes, cons_head, false, has_prefix,
  has_suffix, inl, inr, is_empty, length, none, refl, split, sym, text_eq, text_eq_iff,
  text_eq_refl, true, ℕ, ◌++◌, ◌==◌, ◌↔◌, ◌∙◌, ◌∷◌, ◌≡◌, ◌≢◌, ◌≤◌, ◌⊎◌,
}
use leyline.Protocol.PathUtil.{path_components, slash}
use leyline.Protocol.PathUtil.Validate.{
  backslash, check_part, check_parts, clean, clean_from, clean_part, has_byte, is_abs,
  is_valid_utf8, is_windows_reserved, join_stack, or_else, validate_path,
}

-- What the loop of `ValidatePath` asks of a component.
pub record IsSafePart (is_first : Bool) (part : Text) : Type 0 where
  pub filled : part ≢ []
  pub not_parent : part ≢ codes ".."
  pub short : length part ≤ 255
  pub no_dot_end : has_suffix part (codes ".") ≡ false
  pub no_space_end : has_suffix part (codes " ") ≡ false
  pub visible :
      ((has_prefix part (codes ".") ≡ false) × (is_windows_reserved part ≡ false))
      ⊎ ((is_first ≡ true) × (part ≡ codes ".leyline"))

abbrev pub AreSafeParts : Bool → List Text → Type 0
AreSafeParts is_first [] = Unit
AreSafeParts is_first (part ∷ parts) = IsSafePart is_first part × AreSafeParts false parts

-- A path on the wire: the rules, without a word on `filepath.Clean`.
pub record IsWirePath (is_nfc : Text → Bool) (p : Text) : Type 0 where
  pub utf8 : is_valid_utf8 p ≡ true
  pub nfc : is_nfc p ≡ true
  pub no_null : has_byte p 0 ≡ false
  pub no_backslash : has_byte p backslash ≡ false
  pub short : length p ≤ 4096
  pub parts : AreSafeParts true (path_components p)

is_empty-false : (s : Text) → is_empty s ≡ false → s ≢ []
is_empty-false [] h e = cc
is_empty-false (b ∷ s) h e = cc

check_part_sound :
    (is_first : Bool) (part : Text) → check_part is_first part ≡ none → IsSafePart is_first part
unfolding check_part
check_part_sound is_first part h = record {
  filled = is_empty-false part (ground (arith, h));
  not_parent = ground (arith, h, text_eq_iff part (codes ".."));
  short = ground (arith, h);
  no_dot_end = ground (arith, h);
  no_space_end = ground (arith, h);
  visible = elim (Bool-cases (has_prefix part (codes "."))) [
    | inl e ↦ inr (
      (let first : is_first ≡ true = ground (arith, h, e) in first),
      (let named : part ≡ codes ".leyline" =
            ground (arith, h, e, text_eq_iff part (codes ".leyline")) in
          named),
    )
    | inr e ↦
        inl (e, (let plain : is_windows_reserved part ≡ false = ground (arith, h, e) in plain))
  ];
}

is_empty-of_filled : (s : Text) → s ≢ [] → is_empty s ≡ false
is_empty-of_filled [] h = absurd (h refl)
is_empty-of_filled (b ∷ s) h = refl

text_eq-false : (s t : Text) → s ≢ t → text_eq s t ≡ false
text_eq-false s t h = ground (arith, h, text_eq_iff s t)

named_prefix : (part : Text) → part ≡ codes ".leyline" → has_prefix part (codes ".") ≡ true
unfolding has_prefix
named_prefix part e = rw e refl

dot_end : (part : Text) → has_suffix part (codes ".") ≡ false → part ≢ codes "."
unfolding has_suffix text_eq
dot_end part h e = let dotted : has_suffix part (codes ".") ≡ true = rw e refl in cc (h, dotted)

check_part_complete :
    (is_first : Bool) (part : Text) → IsSafePart is_first part → check_part is_first part ≡ none
unfolding check_part
check_part_complete is_first part v =
    rw
      (
        is_empty-of_filled part v.filled,
        text_eq-false part (codes "..") v.not_parent,
        v.no_dot_end,
        v.no_space_end,
      )
      (elim v.visible [
        | inl plain ↦ rw (plain.0, plain.1) (ground (arith, v.short))
        | inr named ↦
            rw (named.0, sym named.1, named_prefix part named.1, text_eq_refl part)
              (ground (arith, v.short))
      ])

check_parts_sound :
    (is_first : Bool) (parts : List Text)
    → check_parts is_first parts ≡ none
    → AreSafeParts is_first parts
unfolding check_parts
check_parts_sound is_first [] h = tt
check_parts_sound is_first (part ∷ parts) h = elim (Option-cases (check_part is_first part)) [
  | inl e ↦ (
    check_part_sound is_first part e,
    check_parts_sound false parts (sym (ap (λ o. or_else o (check_parts false parts)) e) ∙ h),
  )
  | inr (x, e) ↦ cc (h, e)
]

check_parts_complete :
    (is_first : Bool) (parts : List Text)
    → AreSafeParts is_first parts
    → check_parts is_first parts ≡ none
unfolding check_parts
check_parts_complete is_first [] v = refl
check_parts_complete is_first (part ∷ parts) v =
    rw (check_part_complete is_first part v.0) (check_parts_complete false parts v.1)

-- The components after the first, each with the slash before it.
tail_of : List Text → Text
tail_of [] = []
tail_of (part ∷ parts) = slash ∷ part ++ tail_of parts

glue : List Text → Text
unfolding tail_of
glue [] = []
glue (part ∷ parts) = part ++ tail_of parts

cons_head-ne : (a : ℕ) (parts : List Text) → cons_head a parts ≢ []
cons_head-ne a [] h = cc
cons_head-ne a (part ∷ parts) h = cc

split-ne : (p : Text) → split p slash ≢ []
unfolding split
split-ne [] h = cc
split-ne (a ∷ s) h = elim (Bool-cases (a == slash)) [
  | inl e ↦ ground (arith, h, e)
  | inr e ↦ cons_head-ne a (split s slash) (ground (arith, h, e))
]

glue-slash : (parts : List Text) → parts ≢ [] → glue ([] ∷ parts) ≡ slash ∷ glue parts
unfolding glue tail_of
glue-slash [] h = absurd (h refl)
glue-slash (part ∷ parts) h = refl

glue-cons_head : (a : ℕ) (parts : List Text) → glue (cons_head a parts) ≡ a ∷ glue parts
unfolding glue tail_of
glue-cons_head a [] = refl
glue-cons_head a (part ∷ parts) = refl

glue-split : (p : Text) → glue (split p slash) ≡ p
unfolding split
glue-split [] = unfold glue tail_of in refl
glue-split (a ∷ s) = elim (Bool-cases (a == slash)) [
  | inl e ↦ rw e (
      glue-slash (split s slash) (split-ne s)
      ∙ ap (◌∷◌ slash) (glue-split s)
      ∙ ap (λ b. b ∷ s) (ground (arith, e)))
  | inr e ↦ rw e (glue-cons_head a (split s slash) ∙ ap (◌∷◌ a) (glue-split s))
]

clean_part-safe :
    (is_first : Bool) (part : Text) (stack : List Text)
    → IsSafePart is_first part
    → clean_part part stack ≡ part ∷ stack
unfolding clean_part
clean_part-safe is_first part stack v =
    rw
      (
        is_empty-of_filled part v.filled,
        text_eq-false part (codes "..") v.not_parent,
        text_eq-false part (codes ".") (dot_end part v.no_dot_end),
      )
      refl

join_stack-clean_from :
    (part : Text) (parts stack : List Text)
    → AreSafeParts false parts
    → join_stack (clean_from parts (part ∷ stack)) [] ≡ join_stack (part ∷ stack) (tail_of parts)
unfolding clean_from tail_of join_stack
join_stack-clean_from part [] stack v = refl
join_stack-clean_from part (q ∷ qs) stack v =
    rw (clean_part-safe false q (part ∷ stack) v.0) (join_stack-clean_from q qs (part ∷ stack) v.1)

join_stack-safe :
    (parts : List Text)
    → parts ≢ []
    → AreSafeParts true parts
    → join_stack (clean_from parts []) [] ≡ glue parts
unfolding clean_from join_stack glue
join_stack-safe [] h v = absurd (h refl)
join_stack-safe (part ∷ parts) h v =
    rw (clean_part-safe true part [] v.0) (join_stack-clean_from part parts [] v.1)

is_empty-safe : (p : Text) → AreSafeParts true (path_components p) → is_empty p ≡ false
unfolding path_components split
is_empty-safe [] v = absurd (v.0.filled refl)
is_empty-safe (a ∷ s) v = refl

is_abs-safe : (p : Text) → AreSafeParts true (path_components p) → is_abs p ≡ false
unfolding is_abs has_prefix path_components split
is_abs-safe [] v = refl
is_abs-safe (a ∷ s) v = elim (Bool-cases (a == slash)) [
  | inl e ↦
      let first : AreSafeParts true ([] ∷ split s slash) = rw e at v in absurd (first.0.filled refl)
  | inr e ↦ ground (arith, e)
]

clean-safe : (p : Text) → AreSafeParts true (path_components p) → clean p ≡ p
unfolding clean path_components
clean-safe p v =
    rw (join_stack-safe (split p slash) (split-ne p) v, glue-split p, is_empty-safe p v) refl

module _ (is_nfc : Text → Bool) where
  validate_path_sound : (p : Text) → validate_path is_nfc p ≡ none → IsWirePath is_nfc p
  unfolding validate_path
  validate_path_sound p h = record {
    utf8 = ground (arith, h);
    nfc = ground (arith, h);
    no_null = ground (arith, h);
    no_backslash = ground (arith, h);
    short = ground (arith, h);
    parts = check_parts_sound true (path_components p) (ground (arith, h));
  }

  validate_path_complete : (p : Text) → IsWirePath is_nfc p → validate_path is_nfc p ≡ none
  unfolding validate_path
  validate_path_complete p v =
      rw
        (
          is_empty-safe p v.parts,
          v.utf8,
          v.nfc,
          v.no_null,
          v.no_backslash,
          is_abs-safe p v.parts,
          clean-safe p v.parts,
          text_eq_refl p,
          check_parts_complete true (path_components p) v.parts,
        )
        (ground (arith, v.short))

  -- `ValidatePath` accepts a path exactly when it is UTF-8 and in normal form, has no null byte and
  -- no backslash and at most 4096 bytes, and each component is safe: the tests for a relative path
  -- and for a clean one refuse nothing more.
  pub validate_path-eq_none_iff : (p : Text) → (validate_path is_nfc p ≡ none) ↔ IsWirePath is_nfc p
  validate_path-eq_none_iff p = (validate_path_sound p, validate_path_complete p)
