-- ===== src/Merge/Format/Callout.antt =====
-- pkg/merge/callout.go: the callout block of a conflict region, and its fence.
use leyline.Base.{
  List, Text, [], codes, if◌then◌else◌, long_arrow, ltb, middle_dot, newline, replicate, split,
  trim_right, ℕ, ◌&&◌, ◌++◌, ◌+◌, ◌==◌, ◌∷◌,
}
use leyline.Merge.Format.{write_lines}

abbrev pub backtick : ℕ
backtick = 96

-- The inner loop of `backtickFence`, over one text: the run that ends here, and the longest so far.
unfoldable pub longest_run : Text → ℕ → ℕ → ℕ
longest_run [] run longest = longest
longest_run (r ∷ s) run longest =
    longest_run s (if r == backtick then run + 1 else 0)
      (if r == backtick && ltb longest (run + 1) then run + 1 else longest)

unfoldable pub longest_in : List Text → ℕ → ℕ
longest_in [] longest = longest
longest_in (c ∷ cs) longest = longest_in cs (longest_run c 0 longest)

unfoldable pub fence_length : List Text → ℕ
unfolding longest_run longest_in
fence_length contents = let n = longest_in contents 0 + 1 in if ltb n 3 then 3 else n

unfoldable pub backtick_fence : List Text → Text
unfolding fence_length
backtick_fence contents = replicate (fence_length contents) backtick

-- The lines of a side, quoted.
abbrev quote_lines : Text → Text
quote_lines content =
    write_lines (λ l. codes "> " ++ l ++ newline ∷ []) (split (trim_right content newline) newline)

unfoldable pub format_callout_block : Text → Text → Text → Text → Text → Text
format_callout_block server_keyname client_keyname ts server_content client_content =
    let fence = backtick_fence (server_content ∷ client_content ∷ []) in
    codes "> [!conflict] "
    ++ server_keyname
    ++ codes " "
    ++ long_arrow
    ++ codes " "
    ++ client_keyname
    ++ codes " "
    ++ middle_dot
    ++ codes " "
    ++ ts
    ++ codes "\n"
    ++ codes "> **server:**\n"
    ++ codes "> "
    ++ fence
    ++ codes "\n"
    ++ quote_lines server_content
    ++ codes "> "
    ++ fence
    ++ codes "\n"
    ++ codes "> **yours:**\n"
    ++ codes "> "
    ++ fence
    ++ codes "\n"
    ++ quote_lines client_content
    ++ codes "> "
    ++ fence
    ++ codes "\n"
    ++ codes "> Edit above, then delete this block.\n"
