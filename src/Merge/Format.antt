-- ===== src/Merge/Format.antt =====
-- The conflict formats of pkg/merge: sidecar.go, gitmarker.go, callout.go and comment.go.
pub mod Sidecar
pub mod Comment
pub mod Callout
pub mod Fence
use leyline.Base.{List, Text, [], codes, middle_dot, newline, trim_right, ◌++◌, ◌∷◌}

-- FormatGitMarkers of gitmarker.go.
unfoldable pub format_git_markers : Text → Text → Text → Text → Text
format_git_markers server_keyname ts server_content client_content =
    codes "<<<<<<< server ("
    ++ server_keyname
    ++ codes " "
    ++ middle_dot
    ++ codes " "
    ++ ts
    ++ codes ")\n"
    ++ trim_right server_content newline
    ++ codes "\n=======\n"
    ++ trim_right client_content newline
    ++ codes "\n>>>>>>> local\n"

-- Each element of a list of lines, written by `f`, in order.
abbrev pub write_lines : (Text → Text) → List Text → Text
write_lines f [] = []
write_lines f (l ∷ ls) = f l ++ write_lines f ls
