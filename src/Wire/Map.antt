-- ===== src/Wire/Map.antt =====
-- What spore_c uses of `std::map<std::string, std::string>` and `std::set<std::string>`: lists in
-- the order of `operator<` on texts, which compares bytes from the left.
use spore_client_libs.Base.{
  Bool, true, false, List, [], ◌∷◌, Option, none, some, ltb, if◌then◌else◌,
}
use spore_client_libs.Base.Text.{Bytes, equal}

unfoldable pub less : Bytes → Bytes → Bool
less [] [] = false
less [] (y ∷ ys) = true
less (x ∷ xs) [] = false
less (x ∷ xs) (y ∷ ys) =
    let rest = less xs ys in if ltb x y then true else if ltb y x then false else rest

abbrev pub Map : Type 0
Map = List (Bytes × Bytes)

-- `m[k] = v`
unfoldable pub assign : Bytes → Bytes → Map → Map
unfolding less
assign k v [] = (k, v) ∷ []
assign k v ((j, w) ∷ m) =
    let rest = assign k v m in
    if less k j then (k, v) ∷ (j, w) ∷ m else if less j k then (j, w) ∷ rest else (j, v) ∷ m

-- `m.find(k)`
unfoldable pub lookup : Bytes → Map → Option Bytes
lookup k [] = none
lookup k ((j, v) ∷ m) = if equal j k then some v else lookup k m

-- `s.insert(f)`
unfoldable pub insert : Bytes → List Bytes → List Bytes
unfolding less
insert f [] = f ∷ []
insert f (g ∷ s) =
    let rest = insert f s in if less f g then f ∷ g ∷ s else if less g f then g ∷ rest else g ∷ s

-- `s.count(f) > 0`
unfoldable pub member : Bytes → List Bytes → Bool
member f [] = false
member f (g ∷ s) = if equal g f then true else member f s
