-- ===== src/Parser/Splits.antt =====
-- parser/source/parser.cpp, `parser::build`: `find` and `substr`, as splitting a text at a byte.
use spore_client_libs.Base.{
  ℕ, zero, suc, [], ◌∷◌, Option, none, some, ◌==◌, if◌then◌else◌, ◌≡◌, refl, ap, arith, inl, inr,
  Bool-cases, take, drop,
}
use spore_client_libs.Base.Text.{Bytes, find?}

-- What stands before the first `c`, and behind it.
abbrev pub up_to : ℕ → Bytes → Bytes
up_to c [] = []
up_to c (x ∷ s) = let rest = up_to c s in if x == c then [] else x ∷ rest

abbrev pub behind : ℕ → Bytes → Option Bytes
behind c [] = none
behind c (x ∷ s) = let rest = behind c s in if x == c then some s else rest

pub find?-up_to_none :
    (c : ℕ) (s : Bytes) → find? c s ≡ none → (up_to c s ≡ s) × (behind c s ≡ none)
unfolding find?
find?-up_to_none c [] h = (refl, refl)
find?-up_to_none c (x ∷ s) h = ground (arith, find?-up_to_none c s)

pub find?-up_to :
    (c : ℕ) (s : Bytes) (pos : ℕ)
    → find? c s ≡ some pos
    → (up_to c s ≡ take pos s) × (behind c s ≡ some (drop (suc pos) s))
unfolding find?
find?-up_to c [] pos h = absurd (ground arith)
find?-up_to c (x ∷ s) zero h = ground arith
find?-up_to c (x ∷ s) (suc n) h = elim (Bool-cases (x == c)) [
  | inl e ↦ absurd (ground arith)
  | inr e ↦ let rest = find?-up_to c s n (ground arith) in rw e (ap (λ r. x ∷ r) rest.0, rest.1)
]
