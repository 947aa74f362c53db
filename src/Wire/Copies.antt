-- ===== src/Wire/Copies.antt =====
-- spore_c/source/spore_c.cpp: arrays of texts handed out to the caller, `copyArgIds`, `copyFlags` and
-- the accessors that `SPORE_MESSAGE_ACCESSORS` defines. The caller's array is a list of as many
-- slots; a write behind its end is `none`.
use mathlib.Core.List.{map}
use mathlib.Core.Option
use spore_client_libs.Base.{
  ℕ, zero, suc, ◌+◌, ◌≤◌, ◌<◌, true, List, [], ◌∷◌, ◌++◌, Option, none, some, length, take, drop,
  ltb, if◌then◌else◌, ◌≡◌, refl, sym, ap, ◌∙◌, arith, append_assoc, length-append,
}
use spore_client_libs.Base.Text.{Bytes, c_str}
use spore_client_libs.Wire.Map.{Map}
use spore_client_libs.Wire.Message.{Message}

-- `out[i] = p`
unfoldable pub write_at : ℕ → Bytes → List Bytes → Option (List Bytes)
write_at i p [] = none
write_at zero p (o ∷ out) = some (p ∷ out)
write_at (suc i) p (o ∷ out) = Option.map (λ rest. o ∷ rest) (write_at i p out)

infixl 5 ◌>>=◌
abbrev ◌>>=◌ : Option (List Bytes) → (List Bytes → Option (List Bytes)) → Option (List Bytes)
none >>= k = none
some out >>= k = k out

-- The loop, from index `i` on, with an array that is not null.
unfoldable pub copy_from : ℕ → List Bytes → ℕ → List Bytes → Option (List Bytes)
unfolding write_at
copy_from i [] capacity out = some out
copy_from i (s ∷ more) capacity out =
    (if ltb i capacity then write_at i (c_str s) out else some out)
    >>= (λ out'. copy_from (suc i) more capacity out')

-- What becomes of the array, if there is one, and the number of texts.
abbrev pub copy_texts : List Bytes → Option (List Bytes) → ℕ → Option (List Bytes) × ℕ
copy_texts texts none capacity = (some [], length texts)
copy_texts texts (some out) capacity = (copy_from 0 texts capacity out, length texts)

abbrev pub keys : Map → List Bytes
keys [] = []
keys ((k, v) ∷ m) = k ∷ keys m

unfoldable pub copy_arg_ids : Message → Option (List Bytes) → ℕ → Option (List Bytes) × ℕ
unfolding copy_from
copy_arg_ids msg out capacity = copy_texts (keys msg.args) out capacity

unfoldable pub copy_flags : Message → Option (List Bytes) → ℕ → Option (List Bytes) × ℕ
unfolding copy_from
copy_flags msg out capacity = copy_texts msg.flags out capacity

-- Behind the capacity nothing is written.
copy_from-full :
    (i : ℕ) (texts : List Bytes) (capacity : ℕ) (out : List Bytes)
    → capacity ≤ i
    → copy_from i texts capacity out ≡ some out
unfolding copy_from
copy_from-full i [] capacity out h = refl
copy_from-full i (s ∷ texts) capacity out h =
    let rest = copy_from-full (suc i) texts capacity out (omega arith) in ground (arith, rest)

write_at-append :
    (pre : List Bytes) (p o : Bytes) (out : List Bytes)
    → write_at (length pre) p (pre ++ o ∷ out) ≡ some (pre ++ p ∷ out)
unfolding write_at
write_at-append [] p o out = refl
write_at-append (x ∷ pre) p o out = rw (write_at-append pre p o out) refl

ltb-lt : (a b : ℕ) → a < b → ltb a b ≡ true
ltb-lt a b h = ground arith

copy_from-append :
    (texts pre out : List Bytes) (capacity : ℕ)
    → capacity ≡ length pre + length out
    → copy_from (length pre) texts capacity (pre ++ out)
      ≡ some (pre ++ (take (length out) (map c_str texts) ++ drop (length texts) out))
unfolding copy_from
copy_from-append [] pre [] capacity e = refl
copy_from-append [] pre (o ∷ out) capacity e = refl
copy_from-append (s ∷ texts) pre [] capacity e =
    copy_from-full (length pre) (s ∷ texts) capacity (pre ++ []) (omega arith)
copy_from-append (s ∷ texts) pre (o ∷ out) capacity e =
    let written = pre ++ c_str s ∷ [] in
    let longer : length written ≡ suc (length pre) =
      length-append pre (c_str s ∷ []) ∙ omega arith in
    let room = ltb-lt (length pre) capacity (omega arith) in
    let ih = copy_from-append texts written out capacity (omega (arith, longer)) in
    rw (copy_from, room, write_at-append pre (c_str s) o out)
      (ap (λ n. copy_from n texts capacity (pre ++ c_str s ∷ out)) (sym longer)
        ∙ ap (copy_from (length written) texts capacity) (sym (append_assoc pre (c_str s ∷ []) out))
        ∙ ih
        ∙ ap some (append_assoc pre (c_str s ∷ []) _))

copy_all :
    (texts out : List Bytes) (capacity : ℕ)
    → length out ≡ capacity
    → copy_from 0 texts capacity out
      ≡ some (take capacity (map c_str texts) ++ drop (length texts) out)
copy_all texts out capacity h = rw (← h) (copy_from-append texts [] out (length out) (omega arith))

-- Copying flags or names of arguments to an array of `capacity` slots writes the first of them, as
-- many as there is room for, leaves the slots behind them as they were, writes nothing outside the
-- array, and returns the number of all of them.
pub copy-capacity :
    (m : Message) (out : List Bytes) (capacity : ℕ)
    → length out ≡ capacity
    → (copy_flags m (some out) capacity
        ≡ (some (take capacity (map c_str m.flags) ++ drop (length m.flags) out), length m.flags))
      × (copy_arg_ids m (some out) capacity ≡ (
        some (take capacity (map c_str (keys m.args)) ++ drop (length (keys m.args)) out),
        length (keys m.args),
      ))
unfolding copy_flags copy_arg_ids
copy-capacity m out capacity h = (
  ap (λ o. (o, length m.flags)) (copy_all m.flags out capacity h),
  ap (λ o. (o, length (keys m.args))) (copy_all (keys m.args) out capacity h),
)
