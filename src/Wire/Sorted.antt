-- ===== src/Wire/Sorted.antt =====
-- `std::map` and `std::set` as spore_c uses them: the keys stay in strictly increasing order, what
-- was assigned is found, and inserting in order only appends.
use spore_client_libs.Base.{
  true, false, [], ◌∷◌, ◌++◌, some, ◌≡◌, refl, sym, ◌∙◌, ap, if◌then◌else◌, arith, append_assoc,
  append-nil, Bool-cases, inl, inr,
}
use spore_client_libs.Base.Text.{Bytes, equal, equal_iff}
use spore_client_libs.Wire.Map.{less, Map, assign, lookup}

less_irrefl : (s : Bytes) → less s s ≡ false
unfolding less
less_irrefl [] = refl
less_irrefl (x ∷ s) = ground (arith, less_irrefl s)

pub less_trans : (a b c : Bytes) → less a b ≡ true → less b c ≡ true → less a c ≡ true
unfolding less
less_trans (x ∷ a) (y ∷ b) (z ∷ c) h k = ground (arith, less_trans a b c)
less_trans [] (y ∷ b) (z ∷ c) h k = refl
less_trans _ _ _ h k = ground arith

pub less_asymm : (a b : Bytes) → less a b ≡ true → less b a ≡ false
unfolding less
less_asymm (x ∷ a) (y ∷ b) h = ground (arith, less_asymm a b)
less_asymm _ _ h = ground arith

pub less_total : (a b : Bytes) → less a b ≡ false → less b a ≡ false → a ≡ b
unfolding less
less_total [] [] h k = refl
less_total (x ∷ a) (y ∷ b) h k = ground (arith, less_total a b)
less_total _ _ h k = ground arith

-- Every key of the map is above `k`.
abbrev pub Above : Bytes → Map → Type 0
Above k [] = Unit
Above k ((j, v) ∷ m) = (less k j ≡ true) × Above k m

abbrev pub IsSorted : Map → Type 0
IsSorted [] = Unit
IsSorted ((k, v) ∷ m) = Above k m × IsSorted m

Above-trans : (k j : Bytes) (m : Map) → less k j ≡ true → Above j m → Above k m
Above-trans k j [] h a = tt
Above-trans k j ((i, v) ∷ m) h a = (less_trans k j i h a.0, Above-trans k j m h a.1)

Above-assign : (i k v : Bytes) (m : Map) → less i k ≡ true → Above i m → Above i (assign k v m)
unfolding assign
Above-assign i k v [] h a = (h, tt)
Above-assign i k v ((j, w) ∷ m) h a = ground (arith, a.0, a.1, Above-assign i k v m h a.1)

-- If the keys are in strictly increasing order, they still are after an assignment.
pub assign-IsSorted : (k v : Bytes) (m : Map) → IsSorted m → IsSorted (assign k v m)
unfolding assign
assign-IsSorted k v [] s = (tt, tt)
assign-IsSorted k v ((j, w) ∷ m) s = elim (Bool-cases (less k j)) [
  | inl lt ↦ rw lt ((lt, Above-trans k j m lt s.0), s)
  | inr ge ↦ rw ge (elim (Bool-cases (less j k)) [
    | inl gt ↦ rw gt (Above-assign j k v m gt s.0, assign-IsSorted k v m s.1)
    | inr le ↦ rw le s
  ])
]

-- A lookup after an assignment gives the new value if the keys are equal, and what it gave before
-- if they are not.
pub lookup-assign :
    (k j v : Bytes) (m : Map) → lookup j (assign k v m) ≡ (if equal k j then some v else lookup j m)
unfolding lookup assign
lookup-assign k j v [] = refl
lookup-assign k j v ((i, w) ∷ m) =
    ground
      (arith, equal_iff k j, equal_iff i k, equal_iff i j, lookup-assign k j v m, less_total k i)

-- Every key of the map is below `k`.
abbrev Below : Map → Bytes → Type 0
Below [] k = Unit
Below ((j, v) ∷ m) k = (less j k ≡ true) × Below m k

Below-concat : (m : Map) (j v k : Bytes) → Below m k → less j k ≡ true → Below (m ++ (j, v) ∷ []) k
Below-concat [] j v k b h = (h, tt)
Below-concat ((i, w) ∷ m) j v k b h = (b.0, Below-concat m j v k b.1 h)

assign-Below : (k v : Bytes) (m : Map) → Below m k → assign k v m ≡ m ++ (k, v) ∷ []
unfolding assign
assign-Below k v [] b = refl
assign-Below k v ((j, w) ∷ m) b = ground (arith, less_asymm j k b.0, b.0, assign-Below k v m b.1)

-- Every key of the second map is above every key of the first.
abbrev Under : Map → Map → Type 0
Under m [] = Unit
Under m ((k, v) ∷ more) = Below m k × Under m more

Under-concat :
    (m : Map) (k v : Bytes) (more : Map)
    → Under m more
    → Above k more
    → Under (m ++ (k, v) ∷ []) more
Under-concat m k v [] u a = tt
Under-concat m k v ((j, w) ∷ more) u a =
    (Below-concat m k v j u.0 a.0, Under-concat m k v more u.1 a.1)

Under-nil : (m : Map) → Under [] m
Under-nil [] = tt
Under-nil ((k, v) ∷ m) = (tt, Under-nil m)

-- The assignments of a loop over pairs.
unfoldable pub assign_all : Map → Map → Map
unfolding assign
assign_all m [] = m
assign_all m ((k, v) ∷ more) = assign_all (assign k v m) more

assign_all-Under : (m more : Map) → Under m more → IsSorted more → assign_all m more ≡ m ++ more
unfolding assign_all
assign_all-Under m [] u s = sym (append-nil m)
assign_all-Under m ((k, v) ∷ more) u s =
    ap (λ m'. assign_all m' more) (assign-Below k v m u.0)
    ∙ assign_all-Under (m ++ (k, v) ∷ []) more (Under-concat m k v more u.1 s.0) s.1
    ∙ append_assoc m ((k, v) ∷ []) more

-- Assigning sorted pairs one after another to an empty map gives just these pairs.
pub assign_all-IsSorted : (m : Map) → IsSorted m → assign_all [] m ≡ m
assign_all-IsSorted m s = assign_all-Under [] m (Under-nil m) s
