-- ===== src/Protocol/PathUtil/Validate.antt =====
-- protocol/pathutil/validate.go, `ValidatePath`: the rules of a path on the wire.
pub mod Wire
use leyline.Base.{
  Bool, List, Option, Text, [], any, codes, false, has_prefix, has_suffix, if◌then◌else◌, is_empty,
  leb, length, ltb, map, none, not, some, suc, text_eq, true, zero, ℕ, ◌&&◌, ◌++◌, ◌-◌, ◌==◌, ◌||◌,
  ◌∷◌,
}
use leyline.Protocol.PathUtil.{dot, path_components, slash}

-- utf8.ValidString, after a lead byte that asks for `n` more bytes, the next of them in `lo..hi`.
utf8_from : ℕ → ℕ → ℕ → Text → Bool
utf8_from zero lo hi [] = true
utf8_from (suc n) lo hi [] = false
utf8_from (suc n) lo hi (b ∷ s) = let rest = utf8_from n 0x80 0xBF s in leb lo b && leb b hi && rest
utf8_from zero lo hi (b ∷ s) =
    let none_left = utf8_from 0 0x80 0xBF s in
    let one_left = utf8_from 1 0x80 0xBF s in
    let two_left = utf8_from 2 0x80 0xBF s in
    let after_e0 = utf8_from 2 0xA0 0xBF s in
    let after_ed = utf8_from 2 0x80 0x9F s in
    let after_f0 = utf8_from 3 0x90 0xBF s in
    let three_left = utf8_from 3 0x80 0xBF s in
    let after_f4 = utf8_from 3 0x80 0x8F s in
    if ltb b 0x80
    then none_left
    else if ltb b 0xC2
    then false
    else if leb b 0xDF
    then one_left
    else if b == 0xE0
    then after_e0
    else if b == 0xED
    then after_ed
    else if leb b 0xEF
    then two_left
    else if b == 0xF0
    then after_f0
    else if leb b 0xF3
    then three_left
    else if b == 0xF4
    then after_f4
    else false

unfoldable pub is_valid_utf8 : Text → Bool
unfolding utf8_from
is_valid_utf8 s = utf8_from 0 0x80 0xBF s

abbrev pub backslash : ℕ
backslash = 92

-- strings.ContainsRune(p, c), for an ASCII character.
unfoldable pub has_byte : Text → ℕ → Bool
has_byte p c = any (λ b. b == c) p

unfoldable pub is_abs : Text → Bool
is_abs p = has_prefix p (codes "/")

-- A component that filepath.Clean puts on the cleaned path, whose components stand in reverse.
abbrev climb : List Text → List Text
climb [] = codes ".." ∷ []
climb (top ∷ stack) = if text_eq top (codes "..") then codes ".." ∷ top ∷ stack else stack

clean_part : Text → List Text → List Text
clean_part part stack =
    if is_empty part || text_eq part (codes ".")
    then stack
    else if text_eq part (codes "..")
    then climb stack
    else part ∷ stack

clean_from : List Text → List Text → List Text
unfolding clean_part
clean_from [] stack = stack
clean_from (part ∷ parts) stack = clean_from parts (clean_part part stack)

-- The components of the stack, from its last to its first.
join_stack : List Text → Text → Text
join_stack [] after = after
join_stack (part ∷ []) after = part ++ after
join_stack (part ∷ next ∷ stack) after = join_stack (next ∷ stack) (slash ∷ part ++ after)

-- filepath.Clean of a relative path.
unfoldable pub clean : Text → Text
unfolding clean_from join_stack
clean p =
    let stack = clean_from (path_components p) [] in
    if is_empty (join_stack stack []) then codes "." else join_stack stack []

-- What the loop that cuts one extension after the other leaves: the text before the first dot.
stem_of : Text → Text
stem_of [] = []
stem_of (b ∷ s) = if b == dot then [] else b ∷ stem_of s

-- strings.ToUpper on ASCII; no other character has a letter of `windows_reserved` as its upper case.
to_upper : Text → Text
to_upper = map (λ c. if leb b'a' c && leb c b'z' then c - 32 else c)

abbrev pub windows_reserved : List Text
windows_reserved =
    codes "CON"
    ∷ codes "PRN"
    ∷ codes "AUX"
    ∷ codes "NUL"
    ∷ codes "COM1"
    ∷ codes "COM2"
    ∷ codes "COM3"
    ∷ codes "COM4"
    ∷ codes "COM5"
    ∷ codes "COM6"
    ∷ codes "COM7"
    ∷ codes "COM8"
    ∷ codes "COM9"
    ∷ codes "LPT1"
    ∷ codes "LPT2"
    ∷ codes "LPT3"
    ∷ codes "LPT4"
    ∷ codes "LPT5"
    ∷ codes "LPT6"
    ∷ codes "LPT7"
    ∷ codes "LPT8"
    ∷ codes "LPT9"
    ∷ []

unfoldable pub is_windows_reserved : Text → Bool
unfolding stem_of to_upper
is_windows_reserved part = any (λ name. text_eq name (to_upper (stem_of part))) windows_reserved

-- The messages of `ValidatePath`.
pub data InvalidPath : Type 0 where
  empty_path not_utf8 not_nfc null_byte has_backslash not_relative path_too_long not_clean :
      InvalidPath
  empty_component parent_component : InvalidPath
  component_too_long trailing_dot trailing_space hidden_component reserved_name : Text → InvalidPath

-- One round of the loop: `none` goes on to the next component.
check_part : Bool → Text → Option InvalidPath
check_part is_first part =
    if is_empty part
    then some empty_component
    else if text_eq part (codes "..")
    then some parent_component
    else if ltb 255 (length part)
    then some (component_too_long part)
    else if has_suffix part (codes ".")
    then some (trailing_dot part)
    else if has_suffix part (codes " ")
    then some (trailing_space part)
    else if has_prefix part (codes ".")
    then if is_first && text_eq part (codes ".leyline") then none else some (hidden_component part)
    else if is_windows_reserved part
    then some (reserved_name part)
    else none

-- The first error.
abbrev or_else : Option InvalidPath → Option InvalidPath → Option InvalidPath
or_else none later = later
or_else (some e) later = some e

check_parts : Bool → List Text → Option InvalidPath
unfolding check_part
check_parts is_first [] = none
check_parts is_first (part ∷ parts) = or_else (check_part is_first part) (check_parts false parts)

-- `is_nfc` is `norm.NFC.IsNormalString`.
module _ (is_nfc : Text → Bool) where
  unfoldable pub validate_path : Text → Option InvalidPath
  unfolding check_parts
  validate_path p =
      if is_empty p
      then some empty_path
      else if not (is_valid_utf8 p)
      then some not_utf8
      else if not (is_nfc p)
      then some not_nfc
      else if has_byte p 0
      then some null_byte
      else if has_byte p backslash
      then some has_backslash
      else if is_abs p
      then some not_relative
      else if ltb 4096 (length p)
      then some path_too_long
      else if not (text_eq (clean p) p)
      then some not_clean
      else check_parts true (path_components p)
