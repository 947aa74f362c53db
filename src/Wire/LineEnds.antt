-- ===== src/Wire/LineEnds.antt =====
-- spore_c/source/spore_c.cpp, `parseRaw`: a text with the line ends of Windows.
use spore_client_libs.Base.{
  false, [], ◌∷◌, ◌==◌, if◌then◌else◌, ◌≡◌, refl, arith, inl, inr, Bool-cases,
}
use spore_client_libs.Base.Text.{Bytes, contains}
use spore_client_libs.Wire.Reparse.{strip_cr-id}
use spore_client_libs.Wire.Raw.{strip_cr, parse_raw}

-- The text with `\r\n` for each `\n`.
unfoldable pub crlf : Bytes → Bytes
crlf [] = []
crlf (c ∷ s) = let rest = crlf s in if c == b'\n' then b'\r' ∷ b'\n' ∷ rest else c ∷ rest

strip_cr-crlf : (s : Bytes) → contains b'\r' s ≡ false → strip_cr (crlf s) ≡ s
unfolding strip_cr crlf contains
strip_cr-crlf [] h = refl
strip_cr-crlf (c ∷ s) h = elim (Bool-cases (c == b'\n')) [
  | inl e ↦ ground (arith, e, strip_cr-crlf s)
  | inr e ↦ ground (arith, e, strip_cr-crlf s)
]

-- `parseRaw` makes the same parser and the same parsed message of a text without `\r` and of that text
-- with the line ends of Windows.
pub parse_raw-crlf : (s : Bytes) → contains b'\r' s ≡ false → parse_raw (crlf s) ≡ parse_raw s
unfolding parse_raw
parse_raw-crlf s h = rw (parse_raw, strip_cr-crlf s h, strip_cr-id s h) refl
