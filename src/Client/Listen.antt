-- ===== src/Client/Listen.antt =====
-- spore_c/source/client.cpp, `listen`: the loops over reads and over the lines in the buffer. Each
-- element of the list of reads is what one `read` gives; an empty one, or the end of the list, is an
-- end of file or an error. The calls of handlers are the result, in order.
use spore_client_libs.Base.{
  ℕ, zero, suc, Bool, true, false, not, List, [], ◌∷◌, ◌++◌, Option, none, some, length, take, drop,
  if◌then◌else◌,
}
use spore_client_libs.Base.Text.{Bytes, codes, is_empty, find?}
use spore_client_libs.Client.State.{Client, error, clear_error}
use spore_client_libs.Client.Frame.{Framer, no_line, strip_return, collect}
use spore_client_libs.Client.Dispatch.{Event, handle_line}

-- A computation that may be undefined, and the events that it adds.
abbrev pub Run : Type 0
Run = Option (Framer × List Event)

abbrev pub with_events : List Event → Run → Run
with_events es none = none
with_events es (some (f, es')) = some (f, es ++ es')

infixl 5 ◌>>=◌
abbrev pub ◌>>=◌ : Run → (Framer → Run) → Run
none >>= k = none
some (f, es) >>= k = with_events es (k f)

-- `rawLine.clear()` behind the events of a line
abbrev pub clear_raw : Framer → Option (List Event) → Run
clear_raw f none = none
clear_raw f (some es) = some (record f { raw_line = [] }, es)

abbrev pub complete : Client → Framer × Bool → Run
complete c (f, false) = some (f, [])
complete c (f, true) = clear_raw f (handle_line c f.line f.raw_line)

-- The body of the inner loop, on a line without its newline.
unfoldable pub on_line : Client → Bytes → Framer → Run
unfolding strip_return collect handle_line
on_line c current f =
    let f' = record f { raw_line = f.raw_line ++ (current ++ codes "\n") } in
    complete c (collect (strip_return current) f')

-- The inner loop, with the buffer that it leaves.
unfoldable pub drain : ℕ → Client → Bytes → Framer → Option (Framer × List Event) × Bytes
unfolding on_line
drain zero c buf f = (some (f, []), buf)
drain (suc n) c buf f = elim (find? b'\n' buf) [
  | none ↦ (some (f, []), buf)
  | some pos ↦ elim (on_line c (take pos buf) f) [
    | none ↦ (none, buf)
    | some (f', es) ↦ let (r, rest) = drain n c (drop (suc pos) buf) f' in (with_events es r, rest)
  ]
]

-- The outer loop.
unfoldable pub receive : Client → List Bytes → Bytes → Framer → Run
unfolding drain
receive c [] buf f = some (f, [])
receive c (chunk ∷ chunks) buf f =
    let d = drain (length (buf ++ chunk)) c (buf ++ chunk) f in
    elim (is_empty chunk) [ true ↦ some (f, []) | false ↦ d.0 >>= (λ f'. receive c chunks d.1 f') ]

abbrev pub events_of : Run → Option (List Event)
events_of none = none
events_of (some (f, es)) = some es

unfoldable pub listen : List Bytes → Client → Client × Option (List Event)
unfolding receive
listen reads c =
    let c' = clear_error c in
    if not c'.connected
    then (error (codes "NotConnected") (codes "client is not connected") c', some [])
    else (c', events_of (receive c' reads [] no_line))
