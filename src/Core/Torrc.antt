-- ===== src/Core/Torrc.antt =====
-- `_ensure_transparent_proxy_torrc` of privacyguard/core.py, on the text of torrc: the block that
-- the program manages is taken out, other `TransPort` and `DNSPort` lines too, and one block is
-- put at the end.
use privacy_toolkit.Prelude.{Bool, ◌&&◌, ◌||◌, List, [], ◌∷◌, ◌++◌, if◌then◌else◌}
use privacy_toolkit.Text.{
  Chars, chars, strip_chars, drop_end, starts_with, before_first, after_last, occurs, splitlines,
  join_lines, is_newline, length,
}

unfoldable pub marker_start : Chars
unfolding chars
marker_start = chars "# --- PrivacyGuard kill switch (managed block) ---"

unfoldable pub marker_end : Chars
unfolding chars
marker_end = chars "# --- end PrivacyGuard kill switch ---"

unfoldable pub block : Chars
unfolding marker_start marker_end chars
block =
    marker_start
    ++ (chars "\nTransPort 127.0.0.1:9040\nDNSPort 127.0.0.1:5353\nAutomapHostsOnResolve 1\n"
        ++ (marker_end ++ chars "\n"))

-- Without the managed block of an earlier run.
unfoldable pub without_block : Chars → Chars
unfolding marker_start marker_end
without_block text =
    if occurs marker_start text && occurs marker_end text
    then before_first marker_start text ++ after_last (length text) marker_end text
    else text

-- `line.strip().startswith(("TransPort", "DNSPort"))`
unfoldable pub is_port_line : Chars → Bool
unfolding chars strip_chars starts_with
is_port_line line =
    let bare = strip_chars line in
    starts_with (chars "TransPort") bare || starts_with (chars "DNSPort") bare

unfoldable pub kept_lines : List Chars → List Chars
unfolding is_port_line
kept_lines [] = []
kept_lines (line ∷ rest) =
    let others = kept_lines rest in if is_port_line line then others else line ∷ others

abbrev with_block : Chars → Chars
with_block [] = block
with_block (c ∷ base) = (c ∷ base) ++ ("\n" ∷ "\n" ∷ block)

unfoldable pub rewritten : Chars → Chars
unfolding without_block kept_lines splitlines join_lines drop_end block
rewritten original =
    with_block (drop_end is_newline (join_lines (kept_lines (splitlines (without_block original)))))
