-- ===== src/Merge/Format/Comment.antt =====
-- pkg/merge/comment.go: the losing version as an inert comment of the file's language.
use leyline.Base.{
  List, Option, String, Text, [], codes, em_dash, if◌then◌else◌, is_empty, long_arrow, middle_dot,
  newline, none, not, replace_all, some, split, text_eq, to_lower, trim_right, ◌++◌, ◌==◌, ◌∷◌,
}
use leyline.Base.Dict
use mathlib.Core.Option
use leyline.Merge.Format.{write_lines}

-- One of the two is set: a prefix of lines, or an opening and a closing mark with a space between.
pub record CommentStyle : Type 0 where
  pub prefix : Text
  pub open_close : Text

abbrev line_style : String → CommentStyle
line_style p = record { prefix = codes p; open_close = [] }

abbrev block_style : String → CommentStyle
block_style p = record { prefix = []; open_close = codes p }

abbrev with_style : CommentStyle → List String → List (Text × CommentStyle)
with_style style [] = []
with_style style (e ∷ es) = (codes e, style) ∷ with_style style es

unfoldable pub extension_to_style : List (Text × CommentStyle)
extension_to_style =
    with_style (line_style "# ") (
      ".py" ∷ ".sh" ∷ ".bash" ∷ ".zsh" ∷ ".fish" ∷ ".rb" ∷ ".pl" ∷ ".yaml" ∷ ".yml" ∷ ".toml"
      ∷ ".ini" ∷ ".conf" ∷ ".cfg" ∷ ".r" ∷ ".jl" ∷ ".ex" ∷ ".exs" ∷ [])
    ++ (with_style (line_style "// ") (
          ".js" ∷ ".ts" ∷ ".tsx" ∷ ".jsx" ∷ ".go" ∷ ".rs" ∷ ".c" ∷ ".cpp" ∷ ".h" ∷ ".hpp" ∷ ".java"
          ∷ ".cs" ∷ ".swift" ∷ ".kt" ∷ ".scala" ∷ ".dart" ∷ ".php" ∷ ".m" ∷ ".mm" ∷ [])
        ++ (with_style (line_style "-- ") (".sql" ∷ ".lua" ∷ ".hs" ∷ ".elm" ∷ [])
            ++ (with_style (line_style "; ") (".lisp" ∷ ".cljs" ∷ ".clj" ∷ ".scm" ∷ ".el" ∷ [])
                ++ (with_style (line_style "% ") (".tex" ∷ ".erl" ∷ [])
                    ++ (with_style (block_style "<!-- -->")
                          (".html" ∷ ".xml" ∷ ".svg" ∷ ".vue" ∷ [])
                        ++ with_style (block_style "/* */") (".css" ∷ ".scss" ∷ ".less" ∷ []))))))

-- `none` is `ok == false`.
unfoldable pub comment_style_for_ext : Text → Option CommentStyle
unfolding extension_to_style
comment_style_for_ext ext = Dict.get extension_to_style (to_lower ext)

-- "=== LEYLINE CONFLICT %s · %s ⟷ %s ===\n"
abbrev header : Text → Text → Text → Text
header ts server_key client_key =
    codes "=== LEYLINE CONFLICT "
    ++ ts
    ++ codes " "
    ++ middle_dot
    ++ codes " "
    ++ server_key
    ++ codes " "
    ++ long_arrow
    ++ codes " "
    ++ client_key
    ++ codes " ===\n"

unfoldable pub write_line_comment_block : Text → Text → Text → Text → Text → Text
write_line_comment_block prefix server_key client_key ts content =
    prefix
    ++ header ts server_key client_key
    ++ prefix
    ++ codes "Your version below. Edit above to merge, then remove this block.\n"
    ++ trim_right prefix b' '
    ++ codes "\n"
    ++ write_lines (λ l. prefix ++ l ++ codes "\n") (split (trim_right content newline) newline)
    ++ prefix
    ++ codes "=== END LEYLINE CONFLICT ===\n"

-- strings.SplitN(s, " ", 2): `none` where there is no space.
unfoldable pub cut_space : Text → Option (Text × Text)
cut_space [] = none
cut_space (a ∷ s) =
    let rest = Option.map (λ (p : Text × Text). (a ∷ p.0, p.1)) (cut_space s) in
    if a == b' ' then some ([], s) else rest

-- The escaper of a closing mark.
unfoldable pub escape_close : Text → Text → Text
escape_close close s =
    if text_eq close (codes "*/")
    then replace_all s (codes "*/") (codes "* /")
    else if text_eq close (codes "-->")
    then replace_all s (codes "-->") (codes "-- >")
    else s

-- The block between its two marks.
block_text : Text → Text → Text → Text → Text → Text → Text
block_text opening close server_key client_key ts content =
    opening
    ++ codes " "
    ++ header ts server_key client_key
    ++ codes "   Your version below. Edit above to merge, then remove this block.\n\n"
    ++ write_lines (λ l. codes "   " ++ escape_close close l ++ codes "\n")
        (split (trim_right content newline) newline)
    ++ codes "   === END LEYLINE CONFLICT === "
    ++ close
    ++ codes "\n"

unfoldable pub write_block_comment_block : Text → Text → Text → Text → Text → Text
unfolding block_text
write_block_comment_block open_close server_key client_key ts content =
    elim (cut_space open_close) [
      | none ↦ []
      | some (o, c) ↦ block_text o c server_key client_key ts content
    ]

unfoldable pub write_comment_block : CommentStyle → Text → Text → Text → Text → Text
write_comment_block style server_keyname client_keyname ts client_content =
    if not (is_empty style.prefix)
    then write_line_comment_block style.prefix server_keyname client_keyname ts client_content
    else write_block_comment_block style.open_close server_keyname client_keyname ts client_content

notice_text : Text → Text → Text → Text → Text → Text
notice_text opening close server_key client_key ts =
    opening
    ++ codes " "
    ++ header ts server_key client_key
    ++ codes "   deleted by other client "
    ++ em_dash
    ++ codes " your version preserved below.\n"
    ++ codes "   Edit below to merge, then remove this notice. "
    ++ close
    ++ codes "\n"

unfoldable pub write_comment_notice : CommentStyle → Text → Text → Text → Text
unfolding notice_text
write_comment_notice style server_keyname client_keyname ts =
    if not (is_empty style.prefix)
    then style.prefix
      ++ header ts server_keyname client_keyname
      ++ style.prefix
      ++ codes "deleted by other client "
      ++ em_dash
      ++ codes " your version preserved below.\n"
      ++ style.prefix
      ++ codes "Edit below to merge, then remove this notice.\n"
    else elim (cut_space style.open_close) [
      | none ↦ []
      | some (o, c) ↦ notice_text o c server_keyname client_keyname ts
    ]
