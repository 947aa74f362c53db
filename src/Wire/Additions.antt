-- ===== src/Wire/Additions.antt =====
-- spore_c/source/message.cpp, `addArg` and `addFlag`: a message and its text depend on what was added,
-- and not on the order.
use spore_client_libs.Base.{
  Bool, ◌||◌, List, [], ◌∷◌, Option, some, if◌then◌else◌, ◌≡◌, refl, sym, ap, ◌∙◌,
}
use spore_client_libs.Base.Text.{Bytes, equal}
use spore_client_libs.Wire.Map.{lookup, member}
use spore_client_libs.Wire.Message.{Message, add_arg, add_flag, request_text, response_text}
use spore_client_libs.Wire.Sorted.{IsSorted, assign-IsSorted, lookup-assign}
use spore_client_libs.Wire.SortedSet.{IsSortedSet, insert-IsSortedSet, member-insert}
use spore_client_libs.Wire.SetEquality.{member-ext}
use spore_client_libs.Wire.MapEquality.{lookup-ext}

-- A call of `addArg` or `addFlag`.
pub data Addition : Type 0 where
  arg : Bytes → Bytes → Addition
  flag : Bytes → Addition

unfoldable pub add_all : List Addition → Message → Message
unfolding add_arg add_flag
add_all [] m = m
add_all (arg k v ∷ more) m = add_all more (add_arg m k v)
add_all (flag f ∷ more) m = add_all more (add_flag m f)

-- The value of a name after the calls, from what it was: the last one given counts.
abbrev pub value_after : Bytes → List Addition → Option Bytes → Option Bytes
value_after q [] o = o
value_after q (arg k v ∷ more) o = value_after q more (if equal k q then some v else o)
value_after q (flag f ∷ more) o = value_after q more o

-- Whether a flag is set after the calls.
abbrev pub set_after : Bytes → List Addition → Bool → Bool
set_after q [] b = b
set_after q (arg k v ∷ more) b = set_after q more b
set_after q (flag f ∷ more) b = set_after q more (equal f q || b)

pub record IsOrdered (m : Message) : Type 0 where
  pub args : IsSorted m.args
  pub flags : IsSortedSet m.flags

add_all-IsOrdered : (xs : List Addition) (m : Message) → IsOrdered m → IsOrdered (add_all xs m)
unfolding add_all
add_all-IsOrdered [] m h = h
add_all-IsOrdered (arg k v ∷ xs) m h =
    add_all-IsOrdered xs (add_arg m k v)
      (record { args = assign-IsSorted k v m.args h.args; flags = h.flags })
add_all-IsOrdered (flag f ∷ xs) m h =
    add_all-IsOrdered xs (add_flag m f)
      (record { args = h.args; flags = insert-IsSortedSet f m.flags h.flags })

lookup-add_all :
    (q : Bytes) (xs : List Addition) (m : Message)
    → lookup q (add_all xs m).args ≡ value_after q xs (lookup q m.args)
unfolding add_all
lookup-add_all q [] m = refl
lookup-add_all q (arg k v ∷ xs) m =
    lookup-add_all q xs (add_arg m k v) ∙ ap (value_after q xs) (lookup-assign k q v m.args)
lookup-add_all q (flag f ∷ xs) m = lookup-add_all q xs (add_flag m f)

member-add_all :
    (q : Bytes) (xs : List Addition) (m : Message)
    → member q (add_all xs m).flags ≡ set_after q xs (member q m.flags)
unfolding add_all
member-add_all q [] m = refl
member-add_all q (arg k v ∷ xs) m = member-add_all q xs (add_arg m k v)
member-add_all q (flag f ∷ xs) m =
    member-add_all q xs (add_flag m f) ∙ ap (set_after q xs) (member-insert f q m.flags)

-- The other fields.
abbrev refilled : Message → Message → Message
refilled m n = record m { args = n.args; flags = n.flags }

add_all-refilled : (xs : List Addition) (m : Message) → add_all xs m ≡ refilled m (add_all xs m)
unfolding add_all
add_all-refilled [] m = refl
add_all-refilled (arg k v ∷ xs) m = add_all-refilled xs (add_arg m k v)
add_all-refilled (flag f ∷ xs) m = add_all-refilled xs (add_flag m f)

refill :
    {a a' : List (Bytes × Bytes)} {f f' : List Bytes} (m : Message)
    → a ≡ a'
    → f ≡ f'
    → ◌≡◌ {A = Message} (record m { args = a; flags = f }) (record m { args = a'; flags = f' })
refill m p q = cc

-- Two sequences of calls of `addArg` and `addFlag` on one message, after which every name has the same
-- value and every flag is as much set, lead to the same message, with its names and flags in increasing
-- order, and so to the same text of a request or a response. The names and flags that the message has
-- before must be in increasing order.
pub add_all-same :
    (xs ys : List Addition) (m : Message)
    → IsOrdered m
    → ((q : Bytes) → value_after q xs (lookup q m.args) ≡ value_after q ys (lookup q m.args))
    → ((q : Bytes) → set_after q xs (member q m.flags) ≡ set_after q ys (member q m.flags))
    → (add_all xs m ≡ add_all ys m)
      × IsOrdered (add_all xs m)
      × (request_text (add_all xs m) ≡ request_text (add_all ys m))
      × (response_text (add_all xs m) ≡ response_text (add_all ys m))
add_all-same xs ys m h v s =
    let one = add_all-IsOrdered xs m h in
    let other = add_all-IsOrdered ys m h in
    let args =
      lookup-ext (add_all xs m).args (add_all ys m).args one.args other.args
        (λ q. lookup-add_all q xs m ∙ v q ∙ sym (lookup-add_all q ys m)) in
    let flags =
      member-ext (add_all xs m).flags (add_all ys m).flags one.flags other.flags
        (λ q. member-add_all q xs m ∙ s q ∙ sym (member-add_all q ys m)) in
    let same = add_all-refilled xs m ∙ refill m args flags ∙ sym (add_all-refilled ys m) in
    (same, one, ap request_text same, ap response_text same)
