-- ===== src/Client/Frame.antt =====
-- spore_c/source/client.cpp, `listen`: how received lines are joined to messages. A block that `<<`
-- opens goes on over the following lines, up to one that begins with `>>`.
use spore_client_libs.Base.{
  Bool, true, false, ◌&&◌, ◌||◌, not, [], ◌∷◌, ◌++◌, Option, none, some, ◌==◌, take, drop,
  drop_last, if◌then◌else◌,
}
use spore_client_libs.Base.Text.{Bytes, codes, equal, starts_with, has_pair}
use spore_client_libs.Parser.Build.{ends_with}

-- `line`, `rawLine` and `multiline`
pub record Framer : Type 0 where
  pub line : Bytes
  pub raw_line : Bytes
  pub multiline : Bool

abbrev pub no_line : Framer
no_line = record { line = []; raw_line = []; multiline = false }

-- `strip \r for Windows line endings`
unfoldable pub strip_return : Bytes → Bytes
unfolding ends_with
strip_return s = if ends_with b'\r' s then drop_last s else s

-- `substr(openPos + 2)`, or `none` if `<<` is not found
unfoldable pub after_open : Bytes → Option Bytes
after_open [] = none
after_open (x ∷ s) = if x == b'<' && starts_with b'<' s then some (drop 1 s) else after_open s

-- A `<<` with no `>>` behind it on the line.
unfoldable pub opens_block : Bytes → Bool
unfolding after_open has_pair
opens_block s = elim (after_open s) [ none ↦ false | some rest ↦ not (has_pair b'>' rest) ]

-- `>> must be the first token on its line`
unfoldable pub is_close : Bytes → Bool
unfolding equal
is_close s = equal s (codes ">>") || equal (take 3 s) (codes ">> ")

-- What a line does to the message that is being collected. The flag says that it is complete;
-- otherwise the loop goes on with the next line.
unfoldable pub collect : Bytes → Framer → Framer × Bool
unfolding opens_block is_close has_pair
collect current f =
    if not f.multiline
    then (if opens_block current
        then (record f { multiline = true; line = current ++ codes "\n" }, false)
        else (record f { multiline = false; line = current }, true))
    else if not (is_close current)
    then (record f { line = f.line ++ (current ++ codes "\n") }, false)
    else if has_pair b'<' current
    then (record f { line = f.line ++ current }, false)
    else (record f { multiline = false; line = f.line ++ current }, true)
