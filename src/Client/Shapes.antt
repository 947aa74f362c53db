-- ===== src/Client/Shapes.antt =====
-- spore_c/source/client.cpp, `listen`: the two shapes of a message on the wire, a single line and a
-- block over several lines, and what the framing makes of them.
use spore_client_libs.Base.{
  true, false, List, [], ◌∷◌, ◌++◌, some, ◌≡◌, refl, sym, ap, ◌∙◌, All, append_assoc, append-nil,
}
use spore_client_libs.Base.Text.{Bytes, codes, contains, has_pair}
use spore_client_libs.Client.State.{Client}
use spore_client_libs.Client.Frame.{Framer, no_line, collect, strip_return, opens_block, is_close}
use spore_client_libs.Client.Dispatch.{Event, handle_line}
use spore_client_libs.Client.Listen.{on_line}
use spore_client_libs.Client.Stream.{
  stream, stream_line, stream_newline, after_line, prepend, prepend-nil,
}
use spore_client_libs.Client.Delivery.{IsLine, ends_with-none, blank_line, stream_sent}

-- A line as it stands in the buffer.
pub record IsClean (line : Bytes) : Type 0 where
  pub no_newline : contains b'\n' line ≡ false
  pub no_return : contains b'\r' line ≡ false

pub data Shape : Type 0 where
  one_line : Bytes → Shape
  block : Bytes → List Bytes → Bytes → Shape

abbrev pub lines_text : List Bytes → Bytes
lines_text [] = []
lines_text (l ∷ ls) = l ++ (b'\n' ∷ lines_text ls)

-- Without the last newline.
abbrev pub shape_text : Shape → Bytes
shape_text (one_line line) = line
shape_text (block first body last) = first ++ (b'\n' ∷ (lines_text body ++ last))

abbrev pub IsBody : Bytes → Type 0
IsBody l = IsClean l × (is_close l ≡ false)

-- A block is opened by its first line and closed by its last, which opens no other.
pub record IsBlock (first : Bytes) (body : List Bytes) (last : Bytes) : Type 0 where
  pub first_clean : IsClean first
  pub opens : opens_block first ≡ true
  pub lines : All IsBody body
  pub last_clean : IsClean last
  pub closes : is_close last ≡ true
  pub no_other : has_pair b'<' last ≡ false

abbrev pub IsShape : Shape → Type 0
IsShape (one_line line) = IsLine line
IsShape (block first body last) = IsBlock first body last

-- The framer inside a block.
abbrev inside : Bytes → Framer
inside s = record { line = s; raw_line = s; multiline = true }

on_line_first :
    (c : Client) (line : Bytes)
    → IsClean line
    → opens_block line ≡ true
    → on_line c line no_line ≡ some (inside (line ++ codes "\n"), [])
unfolding on_line collect strip_return
on_line_first c line h o = let kept = ends_with-none b'\r' line h.no_return in rw (kept, o) refl

on_line_body :
    (c : Client) (line s : Bytes)
    → IsBody line
    → on_line c line (inside s) ≡ some (inside (s ++ (line ++ codes "\n")), [])
unfolding on_line collect strip_return
on_line_body c line s (h, n) = let kept = ends_with-none b'\r' line h.no_return in rw (kept, n) refl

on_line_last :
    (c : Client) (line s : Bytes) (es : List Event)
    → IsClean line
    → is_close line ≡ true
    → has_pair b'<' line ≡ false
    → handle_line c (s ++ line) (s ++ (line ++ codes "\n")) ≡ some es
    → on_line c line (inside s) ≡ some (record no_line { line = s ++ line }, es)
unfolding on_line collect strip_return
on_line_last c line s es h o n e =
    let kept = ends_with-none b'\r' line h.no_return in rw (kept, o, n, e) refl

-- A line with its newline, at the front of the bytes.
stream_clean :
    (c : Client) (line rest : Bytes) (f f' : Framer) (es : List Event)
    → IsClean line
    → on_line c line f ≡ some (f', es)
    → stream c (line ++ (b'\n' ∷ rest)) [] f ≡ prepend es (stream c rest [] f')
stream_clean c line rest f f' es h e =
    stream_line c line (b'\n' ∷ rest) [] f h.no_newline
    ∙ stream_newline c rest line f
    ∙ ap (λ r. after_line r (λ f'. stream c rest [] f')) e

stream_body :
    (c : Client) (body : List Bytes) (rest s : Bytes)
    → All IsBody body
    → stream c (lines_text body ++ rest) [] (inside s)
      ≡ stream c rest [] (inside (s ++ lines_text body))
stream_body c [] rest s h = ap (λ t. stream c rest [] (inside t)) (sym (append-nil s))
stream_body c (l ∷ body) rest s h =
    let s' = s ++ (l ++ codes "\n") in
    let grown : s' ++ lines_text body ≡ s ++ lines_text (l ∷ body) = simp append_assoc in
    ap (λ w. stream c w [] (inside s)) (append_assoc l (b'\n' ∷ lines_text body) rest)
    ∙ stream_clean c l (lines_text body ++ rest) (inside s) (inside s') [] h.0.0
        (on_line_body c l s h.0)
    ∙ prepend-nil _
    ∙ stream_body c body rest s' h.1
    ∙ ap (λ t. stream c rest [] (inside t)) grown

-- The message of a shape, with the empty line that the sender puts behind it, is handled once, and
-- the framer is then as it was.
pub stream_shape :
    (c : Client) (shape : Shape) (es : List Event)
    → IsShape shape
    → handle_line c (shape_text shape) (shape_text shape ++ codes "\n") ≡ some es
    → stream c (shape_text shape ++ codes "\n\n") [] no_line ≡ some (no_line, es ++ [], [])
stream_shape c (one_line line) es h e = stream_sent c line es h e
stream_shape c (block first body last) es h e =
    let opened = first ++ codes "\n" in
    let all = opened ++ lines_text body in
    let text = shape_text (block first body last) in
    let end : Bytes = last ++ codes "\n\n" in
    let pieces : text ++ codes "\n\n" ≡ first ++ (b'\n' ∷ (lines_text body ++ end)) =
      simp append_assoc in
    let joined : all ++ last ≡ text = simp append_assoc in
    let raw : all ++ (last ++ codes "\n") ≡ text ++ codes "\n" = simp append_assoc in
    let handled : handle_line c (all ++ last) (all ++ (last ++ codes "\n")) ≡ some es =
      rw (joined, raw) e in
    ap (λ w. stream c w [] no_line) pieces
    ∙ stream_clean c first (lines_text body ++ end) no_line (inside opened) [] h.first_clean
        (on_line_first c first h.first_clean h.opens)
    ∙ prepend-nil _
    ∙ stream_body c body end opened h.lines
    ∙ stream_clean c last (codes "\n") (inside all) (record no_line { line = all ++ last }) es
        h.last_clean (on_line_last c last all es h.last_clean h.closes h.no_other handled)
    ∙ ap (prepend es) (blank_line c (all ++ last))
