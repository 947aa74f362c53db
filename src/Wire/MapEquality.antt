-- ===== src/Wire/MapEquality.antt =====
-- `std::map<std::string, std::string>` as spore_c uses it: maps that give the same for every key are
-- equal.
use spore_client_libs.Base.{
  Bool, true, false, List, [], ◌∷◌, Option, none, some, ◌≡◌, refl, sym, ap, ◌∙◌, arith, inl, inr,
  Bool-cases,
}
use spore_client_libs.Base.Text.{Bytes, equal, equal_iff, equal_self}
use spore_client_libs.Wire.Map.{Map, lookup, member}
use spore_client_libs.Wire.Sorted.{Above, IsSorted}
use spore_client_libs.Wire.SortedSet.{AllAbove, IsSortedSet}
use spore_client_libs.Wire.SetEquality.{member-ext, member-AllAbove}

abbrev keys : Map → List Bytes
keys [] = []
keys ((k, v) ∷ m) = k ∷ keys m

abbrev is_some {ℓ} : {A : Type ℓ} → Option A → Bool
is_some none = false
is_some (some a) = true

member-keys : (g : Bytes) (m : Map) → member g (keys m) ≡ is_some (lookup g m)
unfolding member lookup
member-keys g [] = refl
member-keys g ((k, v) ∷ m) = ground (arith, member-keys g m)

AllAbove-keys : (k : Bytes) (m : Map) → Above k m → AllAbove k (keys m)
AllAbove-keys k [] a = tt
AllAbove-keys k ((j, v) ∷ m) a = (a.0, AllAbove-keys k m a.1)

IsSortedSet-keys : (m : Map) → IsSorted m → IsSortedSet (keys m)
IsSortedSet-keys [] s = tt
IsSortedSet-keys ((k, v) ∷ m) s = (AllAbove-keys k m s.0, IsSortedSet-keys m s.1)

-- A key that is not there gives nothing.
lookup-Above : (k : Bytes) (m : Map) → Above k m → lookup k m ≡ none
lookup-Above k m a =
    let absent = sym (member-keys k m) ∙ member-AllAbove k (keys m) (AllAbove-keys k m a) in
    ground (arith, absent)

some_same : {x y : Bytes} → some x ≡ some y → x ≡ y
some_same e = cc

rest_same :
    (k v w : Bytes) (m n : Map)
    → Above k m
    → Above k n
    → ((q : Bytes) → lookup q ((k, v) ∷ m) ≡ lookup q ((k, w) ∷ n))
    → (q : Bytes) → lookup q m ≡ lookup q n
unfolding lookup
rest_same k v w m n a b e q = elim (Bool-cases (equal k q)) [
  | inl same ↦
      let p = (equal_iff k q).0 same in rw (← p) (lookup-Above k m a ∙ sym (lookup-Above k n b))
  | inr other ↦ rw other at (e q)
]

first_value : (k v w : Bytes) (m n : Map) → lookup k ((k, v) ∷ m) ≡ lookup k ((k, w) ∷ n) → v ≡ w
unfolding lookup
first_value k v w m n e = some_same (rw equal_self at e)

tails_same : {f g : Bytes} {s t : List Bytes} → f ∷ s ≡ g ∷ t → (f ≡ g) × (s ≡ t)
tails_same e = (cc, cc)

same_keys-ext :
    (m n : Map)
    → IsSorted m
    → IsSorted n
    → keys m ≡ keys n
    → ((q : Bytes) → lookup q m ≡ lookup q n)
    → m ≡ n
same_keys-ext [] [] s t k e = refl
same_keys-ext [] (y ∷ n) s t k e = absurd (ground arith)
same_keys-ext (x ∷ m) [] s t k e = absurd (ground arith)
same_keys-ext ((i, v) ∷ m) ((j, w) ∷ n) s t k e =
    let (first, others) = tails_same k in
    let above : Above i n = rw first t.0 in
    let e' : (q : Bytes) → lookup q ((i, v) ∷ m) ≡ lookup q ((i, w) ∷ n) =
      λ q. e q ∙ ap (λ p. lookup q ((p, w) ∷ n)) (sym first) in
    let value = first_value i v w m n (e' i) in
    let rest = same_keys-ext m n s.1 t.1 others (rest_same i v w m n s.0 above e') in
    ap (λ r. (i, v) ∷ r) rest ∙ ap (λ u. (i, u) ∷ n) value ∙ ap (λ p. (p, w) ∷ n) first

-- Two maps with their keys in increasing order that give the same for every key are the same list.
pub lookup-ext :
    (m n : Map) → IsSorted m → IsSorted n → ((q : Bytes) → lookup q m ≡ lookup q n) → m ≡ n
lookup-ext m n s t e =
    let all_keys =
      member-ext (keys m) (keys n) (IsSortedSet-keys m s) (IsSortedSet-keys n t)
        (λ g. member-keys g m ∙ ap is_some (e g) ∙ sym (member-keys g n)) in
    same_keys-ext m n s t all_keys e
