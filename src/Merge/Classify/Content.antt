-- ===== src/Merge/Classify/Content.antt =====
-- chooseFormatForPath, isText, isLikelyBinary and deleteVsEditContent of pkg/merge/classify.go, and
-- the bytes that an overlap writes.
use leyline.Base.{
  Bool, List, Option, String, Text, [], all, any, codes, em_dash, if◌then◌else◌, is_none,
  long_arrow, middle_dot, newline, none, not, some, text_eq, ◌++◌, ◌==◌, ◌∷◌,
}
use leyline.Merge.Hunks.{Diff}
use leyline.Merge.Format.{format_git_markers}
use leyline.Merge.Format.Sidecar.{ext_of}
use leyline.Merge.Format.Comment.{
  CommentStyle, comment_style_for_ext, write_comment_block, write_comment_notice,
}
use leyline.Merge.Conflict.{write_callout_file}
use leyline.Merge.Classify.{
  Context, LogFormat, format_callout, format_comment, format_marker, format_none, format_sidecar,
}

-- `string(data)`: a nil slice is the empty string.
abbrev pub bytes_of : Option Text → Text
bytes_of none = []
bytes_of (some s) = s

-- No byte is 0.
unfoldable pub is_text : Option Text → Bool
is_text data_bytes = all (λ b. not (b == 0)) (bytes_of data_bytes)

abbrev binary_extensions : List String
binary_extensions =
    ".png" ∷ ".jpg" ∷ ".jpeg" ∷ ".gif" ∷ ".pdf" ∷ ".zip" ∷ ".tar" ∷ ".gz" ∷ ".mp4" ∷ ".mp3"
    ∷ ".webp" ∷ ".ico" ∷ ".woff" ∷ ".woff2" ∷ []

unfoldable pub is_likely_binary : Text → Bool
is_likely_binary path = any (λ e. text_eq (ext_of path) (codes e)) binary_extensions

unfoldable pub choose_format_for_path : Text → Text → LogFormat
choose_format_for_path path diff_mode =
    if text_eq diff_mode (codes "git")
    then if is_likely_binary path then format_sidecar else format_marker
    else if text_eq (ext_of path) (codes ".md")
    then format_callout
    else if is_none (comment_style_for_ext (ext_of path))
    then format_sidecar
    else format_comment

-- `style, _ := CommentStyleForExt(ext)`
unfoldable pub style_of : Text → CommentStyle
style_of path = elim (comment_style_for_ext (ext_of path)) [
  | none ↦ record { prefix = []; open_close = [] }
  | some s ↦ s
]

-- The `switch` of `deleteVsEditContent`, on the format of the path.
notice_for : LogFormat → Text → Text → Context → Text
notice_for format_callout staged path ctx =
    codes "> [!conflict] "
    ++ ctx.server_keyname
    ++ codes " "
    ++ long_arrow
    ++ codes " "
    ++ ctx.client_keyname
    ++ codes " "
    ++ middle_dot
    ++ codes " "
    ++ ctx.ts
    ++ codes "\n"
    ++ codes "> deleted by other client "
    ++ em_dash
    ++ codes " your version preserved below\n"
    ++ codes "> Edit above to merge, then delete this block.\n\n"
    ++ staged
notice_for format_comment staged path ctx =
    write_comment_notice (style_of path) ctx.server_keyname ctx.client_keyname ctx.ts
    ++ newline ∷ staged
notice_for f staged path ctx =
    codes "<<<<<<< server ("
    ++ ctx.server_keyname
    ++ codes " "
    ++ middle_dot
    ++ codes " "
    ++ ctx.ts
    ++ codes ")\n(deleted by other client)\n=======\n"
    ++ staged
    ++ codes "\n>>>>>>> local\n"

unfoldable pub delete_vs_edit_content : Option Text → Text → Context → Text
unfolding notice_for
delete_vs_edit_content staged path ctx =
    notice_for (choose_format_for_path path ctx.diff_mode) (bytes_of staged) path ctx

-- The `switch` on the format of an overlap in `classifyWriteWrite`; `none` is its default.
unfoldable pub conflict_content :
    (Text → Text → List Diff) → LogFormat → Text → Text → Text → Context → Option Text
conflict_content diff format_callout path server client ctx =
    some
      (write_callout_file diff ctx.base server client ctx.server_keyname ctx.client_keyname ctx.ts)
conflict_content diff format_comment path server client ctx = some (
    server
    ++ newline
      ∷ write_comment_block (style_of path) ctx.server_keyname ctx.client_keyname ctx.ts client)
conflict_content diff format_marker path server client ctx =
    some (format_git_markers ctx.server_keyname ctx.ts server client)
conflict_content diff format_sidecar path server client ctx = none
conflict_content diff format_none path server client ctx = none
