-- ===== src/Wire/SetEquality.antt =====
-- `std::set<std::string>` as spore_c uses it: sets with the same members are equal, so the order in
-- which members are inserted makes no difference.
use spore_client_libs.Base.{
  Bool, true, false, not, ◌&&◌, ◌||◌, List, [], ◌∷◌, ◌++◌, ◌≡◌, refl, sym, ◌∙◌, ap, arith,
  Bool-cases, inl, inr, if◌then◌else◌,
}
use spore_client_libs.Base.Text.{Bytes, equal, equal_iff, equal_self}
use spore_client_libs.Wire.Map.{less, insert, member}
use spore_client_libs.Wire.Sorted.{less_asymm, less_total}
use spore_client_libs.Wire.SortedSet.{
  AllAbove, AllAbove-trans, IsSortedSet, insert-IsSortedSet, member-insert, insert_all,
}

-- The loop of `serialize` that leaves one flag out.
abbrev pub without : Bytes → List Bytes → List Bytes
without f [] = []
without f (g ∷ s) = if equal g f then without f s else g ∷ without f s

pub member-without :
    (f g : Bytes) (s : List Bytes) → member g (without f s) ≡ (not (equal f g) && member g s)
unfolding member
member-without f g [] = ground arith
member-without f g (i ∷ s) =
    ground (arith, equal_iff f g, equal_iff i f, equal_iff i g, member-without f g s)

pub insert_all-keeps : (s more : List Bytes) → IsSortedSet s → IsSortedSet (insert_all s more)
unfolding insert_all
insert_all-keeps s [] h = h
insert_all-keeps s (f ∷ more) h = insert_all-keeps (insert f s) more (insert-IsSortedSet f s h)

pub member-insert_all :
    (g : Bytes) (s more : List Bytes) → member g (insert_all s more) ≡ (member g s || member g more)
unfolding insert_all member
member-insert_all g s [] = ground arith
member-insert_all g s (f ∷ more) =
    ground (arith, member-insert_all g (insert f s) more, member-insert f g s)

pub member-append : (g : Bytes) (s t : List Bytes) → member g (s ++ t) ≡ (member g s || member g t)
unfolding member
member-append g [] t = refl
member-append g (f ∷ s) t = ground (arith, member-append g s t)

less_irrefl : (f : Bytes) → less f f ≡ false
less_irrefl f = elim (Bool-cases (less f f)) [ inl h ↦ less_asymm f f h | inr h ↦ h ]

pub member-AllAbove : (f : Bytes) (s : List Bytes) → AllAbove f s → member f s ≡ false
unfolding member
member-AllAbove f [] a = refl
member-AllAbove f (g ∷ s) a =
    ground (arith, equal_iff g f, less_irrefl f, a.0, member-AllAbove f s a.1)

-- A set does not hold what is below its first member.
member-below :
    (f g : Bytes) (s : List Bytes) → less f g ≡ true → AllAbove g s → member f (g ∷ s) ≡ false
member-below f g s h a = member-AllAbove f (g ∷ s) (h, AllAbove-trans f g s h a)

member-first : (f : Bytes) (s : List Bytes) → member f (f ∷ s) ≡ true
unfolding member
member-first f s = rw equal_self refl

clash : {b : Bool} → b ≡ true → b ≡ false → ⊥
clash h h' = ground arith

first_same :
    (f g : Bytes) (s t : List Bytes)
    → AllAbove f s
    → AllAbove g t
    → ((h : Bytes) → member h (f ∷ s) ≡ member h (g ∷ t))
    → f ≡ g
first_same f g s t a b e = elim (Bool-cases (less f g)) [
  | inl h ↦ absurd (clash (sym (e f) ∙ member-first f s) (member-below f g t h b))
  | inr h ↦ elim (Bool-cases (less g f)) [
    | inl h' ↦ absurd (clash (e g ∙ member-first g t) (member-below g f s h' a))
    | inr h' ↦ less_total f g h h'
  ]
]

rest_same :
    (f : Bytes) (s t : List Bytes)
    → AllAbove f s
    → AllAbove f t
    → ((h : Bytes) → member h (f ∷ s) ≡ member h (f ∷ t))
    → (h : Bytes) → member h s ≡ member h t
unfolding member
rest_same f s t a b e h = elim (Bool-cases (equal f h)) [
  | inl same ↦
      let q = (equal_iff f h).0 same in
      rw (← q) (member-AllAbove f s a ∙ sym (member-AllAbove f t b))
  | inr other ↦ rw other at (e h)
]

-- Two sets with the same members are the same list.
pub member-ext :
    (s t : List Bytes)
    → IsSortedSet s
    → IsSortedSet t
    → ((g : Bytes) → member g s ≡ member g t)
    → s ≡ t
member-ext [] [] h k e = refl
member-ext [] (g ∷ t) h k e = absurd (clash (e g ∙ member-first g t) (unfold member in refl))
member-ext (f ∷ s) [] h k e = absurd (clash (sym (e f) ∙ member-first f s) (unfold member in refl))
member-ext (f ∷ s) (g ∷ t) h k e =
    let same = first_same f g s t h.0 k.0 e in
    let above : AllAbove f t = rw same k.0 in
    let e' : (x : Bytes) → member x (f ∷ s) ≡ member x (f ∷ t) =
      λ x. e x ∙ ap (λ y. member x (y ∷ t)) (sym same) in
    ap (λ r. f ∷ r) (member-ext s t h.1 k.1 (rest_same f s t h.0 above e')) ∙ ap (λ y. y ∷ t) same
