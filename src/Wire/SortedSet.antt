-- ===== src/Wire/SortedSet.antt =====
-- `std::set<std::string>` as spore_c uses it: the members stay in strictly increasing order, and
-- inserting in order only appends.
use spore_client_libs.Base.{
  true, ◌||◌, List, [], ◌∷◌, ◌++◌, ◌≡◌, refl, sym, ◌∙◌, ap, arith, append_assoc, append-nil,
  Bool-cases, inl, inr,
}
use spore_client_libs.Base.Text.{Bytes, equal, equal_iff}
use spore_client_libs.Wire.Map.{less, insert, member}
use spore_client_libs.Wire.Sorted.{less_trans, less_asymm, less_total}

-- Every member is above `f`.
abbrev pub AllAbove : Bytes → List Bytes → Type 0
AllAbove f [] = Unit
AllAbove f (g ∷ s) = (less f g ≡ true) × AllAbove f s

abbrev pub IsSortedSet : List Bytes → Type 0
IsSortedSet [] = Unit
IsSortedSet (f ∷ s) = AllAbove f s × IsSortedSet s

pub AllAbove-trans : (f g : Bytes) (s : List Bytes) → less f g ≡ true → AllAbove g s → AllAbove f s
AllAbove-trans f g [] h a = tt
AllAbove-trans f g (i ∷ s) h a = (less_trans f g i h a.0, AllAbove-trans f g s h a.1)

AllAbove-insert :
    (g f : Bytes) (s : List Bytes) → less g f ≡ true → AllAbove g s → AllAbove g (insert f s)
unfolding insert
AllAbove-insert g f [] h a = (h, tt)
AllAbove-insert g f (i ∷ s) h a = ground (arith, a.0, a.1, AllAbove-insert g f s h a.1)

-- Inserting keeps the members in strictly increasing order.
pub insert-IsSortedSet : (f : Bytes) (s : List Bytes) → IsSortedSet s → IsSortedSet (insert f s)
unfolding insert
insert-IsSortedSet f [] s = (tt, tt)
insert-IsSortedSet f (g ∷ t) s = elim (Bool-cases (less f g)) [
  | inl lt ↦ rw lt ((lt, AllAbove-trans f g t lt s.0), s)
  | inr ge ↦ rw ge (elim (Bool-cases (less g f)) [
    | inl gt ↦ rw gt (AllAbove-insert g f t gt s.0, insert-IsSortedSet f t s.1)
    | inr le ↦ rw le s
  ])
]

-- After an insertion the members are those of before and the one inserted.
pub member-insert :
    (f g : Bytes) (s : List Bytes) → member g (insert f s) ≡ (equal f g || member g s)
unfolding member insert
member-insert f g [] = ground arith
member-insert f g (i ∷ s) =
    ground (arith, equal_iff f g, equal_iff i f, equal_iff i g, member-insert f g s, less_total f i)

-- Every member is below `f`.
abbrev AllBelow : List Bytes → Bytes → Type 0
AllBelow [] f = Unit
AllBelow (g ∷ s) f = (less g f ≡ true) × AllBelow s f

AllBelow-concat :
    (s : List Bytes) (g f : Bytes) → AllBelow s f → less g f ≡ true → AllBelow (s ++ g ∷ []) f
AllBelow-concat [] g f b h = (h, tt)
AllBelow-concat (i ∷ s) g f b h = (b.0, AllBelow-concat s g f b.1 h)

insert-AllBelow : (f : Bytes) (s : List Bytes) → AllBelow s f → insert f s ≡ s ++ f ∷ []
unfolding insert
insert-AllBelow f [] b = refl
insert-AllBelow f (g ∷ s) b = ground (arith, less_asymm g f b.0, b.0, insert-AllBelow f s b.1)

abbrev AllUnder : List Bytes → List Bytes → Type 0
AllUnder s [] = Unit
AllUnder s (f ∷ more) = AllBelow s f × AllUnder s more

AllUnder-concat :
    (s : List Bytes) (f : Bytes) (more : List Bytes)
    → AllUnder s more
    → AllAbove f more
    → AllUnder (s ++ f ∷ []) more
AllUnder-concat s f [] u a = tt
AllUnder-concat s f (g ∷ more) u a =
    (AllBelow-concat s f g u.0 a.0, AllUnder-concat s f more u.1 a.1)

AllUnder-nil : (s : List Bytes) → AllUnder [] s
AllUnder-nil [] = tt
AllUnder-nil (f ∷ s) = (tt, AllUnder-nil s)

-- The insertions of a loop over texts.
unfoldable pub insert_all : List Bytes → List Bytes → List Bytes
unfolding insert
insert_all s [] = s
insert_all s (f ∷ more) = insert_all (insert f s) more

insert_all-AllUnder :
    (s more : List Bytes) → AllUnder s more → IsSortedSet more → insert_all s more ≡ s ++ more
unfolding insert_all
insert_all-AllUnder s [] u h = sym (append-nil s)
insert_all-AllUnder s (f ∷ more) u h =
    ap (λ s'. insert_all s' more) (insert-AllBelow f s u.0)
    ∙ insert_all-AllUnder (s ++ f ∷ []) more (AllUnder-concat s f more u.1 h.0) h.1
    ∙ append_assoc s (f ∷ []) more

-- Inserting sorted texts one after another into an empty set gives just these texts.
pub insert_all-IsSortedSet : (s : List Bytes) → IsSortedSet s → insert_all [] s ≡ s
insert_all-IsSortedSet s h = insert_all-AllUnder [] s (AllUnder-nil s) h
