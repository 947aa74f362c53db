-- ===== src/Base/Text.antt =====
-- Byte strings: what the sources use of `std::string` and `std::string_view`.
use Prim.Native.Char.{code}
use Prim.Native.String.{String}
use Prim.Native.Nat.{ℕ, zero, suc, ◌<◌}
use mathlib.Core.Path.{◌≡◌, refl, ap}
use mathlib.Core.Logic.{◌≢◌, ◌↔◌, inl, inr}
use mathlib.Core.Bool.{Bool, true, false, ◌&&◌, ◌||◌}
use mathlib.Core.Option.{Option, none, some}
use mathlib.Core.Option
use mathlib.Core.List.{List, [], ◌∷◌, ◌++◌}
use native.Mathlib.Omega.{arith}
use spore_client_libs.Base.Tests.{◌==◌, if◌then◌else◌, Bool-cases}
use spore_client_libs.Base.Lists.{length, take, drop}

abbrev pub Bytes : Type 0
Bytes = List ℕ

-- The bytes of an ASCII literal.
abbrev pub codes : String → Bytes
codes String.[] = []
codes (String.◌∷◌ c s) = code c ∷ codes s

-- `empty()`
abbrev pub is_empty : Bytes → Bool
is_empty [] = true
is_empty (c ∷ cs) = false

-- `operator==`
unfoldable pub equal : Bytes → Bytes → Bool
equal [] t = is_empty t
equal (c ∷ s) [] = false
equal (c ∷ s) (d ∷ t) = c == d && equal s t

-- `find(c)`; `none` is `npos`
unfoldable pub find? : ℕ → Bytes → Option ℕ
find? c [] = none
find? c (x ∷ xs) = if x == c then some 0 else Option.map suc (find? c xs)

-- `find(c) != npos`
unfoldable pub contains : ℕ → Bytes → Bool
contains c [] = false
contains c (x ∷ xs) = x == c || contains c xs

-- `s[0] == c` on a string that may be empty
abbrev pub starts_with : ℕ → Bytes → Bool
starts_with c [] = false
starts_with c (x ∷ xs) = x == c

-- Two equal bytes in a row: `find("<<") != npos` at `'<'`.
unfoldable pub has_pair : ℕ → Bytes → Bool
has_pair c [] = false
has_pair c (x ∷ xs) = (x == c && starts_with c xs) || has_pair c xs

-- A `std::string` handed over as a `const char*` ends at its first zero byte.
unfoldable pub c_str : Bytes → Bytes
c_str [] = []
c_str (x ∷ xs) = if x == 0 then [] else x ∷ c_str xs

pub equal_iff : (s t : Bytes) → (equal s t ≡ true) ↔ (s ≡ t)
unfolding equal
equal_iff [] [] = ground arith
equal_iff [] (d ∷ t) = ground arith
equal_iff (c ∷ s) [] = ground arith
equal_iff (c ∷ s) (d ∷ t) = let rest = equal_iff s t in ground (arith, rest)

pub equal_self : (a : Bytes) → equal a a ≡ true
equal_self a = (equal_iff a a).1 refl

pub equal-ne : (a b : Bytes) → a ≢ b → equal a b ≡ false
equal-ne a b h = elim (Bool-cases (equal a b)) [
  | inl e ↦ absurd (h ((equal_iff a b).0 e))
  | inr e ↦ e
]

pub c_str-id : (s : Bytes) → contains 0 s ≡ false → c_str s ≡ s
unfolding c_str contains
c_str-id [] h = refl
c_str-id (x ∷ xs) h = ground (arith, c_str-id xs)

pub contains-append :
    (c : ℕ) (xs ys : Bytes) → contains c (xs ++ ys) ≡ (contains c xs || contains c ys)
unfolding contains
contains-append c [] ys = refl
contains-append c (x ∷ xs) ys = ground (arith, contains-append c xs ys)

pub find?-append :
    (c : ℕ) (xs ys : Bytes) → contains c xs ≡ false → find? c (xs ++ c ∷ ys) ≡ some (length xs)
unfolding find? contains
find?-append c [] ys h = ground arith
find?-append c (x ∷ xs) ys h = ground (arith, find?-append c xs ys)

pub find?-none : (c : ℕ) (xs : Bytes) → contains c xs ≡ false → find? c xs ≡ none
unfolding find? contains
find?-none c [] h = refl
find?-none c (x ∷ xs) h = ground (arith, find?-none c xs)

pub contains-find?_none : (c : ℕ) (s : Bytes) → find? c s ≡ none → contains c s ≡ false
unfolding find? contains
contains-find?_none c [] h = refl
contains-find?_none c (x ∷ s) h = ground (arith, contains-find?_none c s)

-- Where a byte is found, the text splits into what stands before it, which does not hold it, and
-- what stands behind it.
pub find?-some :
    (c : ℕ) (s : Bytes) (pos : ℕ)
    → find? c s ≡ some pos
    → (contains c (take pos s) ≡ false)
      × (s ≡ take pos s ++ c ∷ drop (suc pos) s)
      × (length (drop (suc pos) s) < length s)
unfolding find? contains
find?-some c [] pos h = absurd (ground arith)
find?-some c (x ∷ s) zero h = elim (Bool-cases (x == c)) [
  | inl e ↦ let same : x ≡ c = ground arith in (refl, ap (λ b. b ∷ s) same, ground arith)
  | inr e ↦ absurd (ground arith)
]
find?-some c (x ∷ s) (suc n) h = elim (Bool-cases (x == c)) [
  | inl e ↦ absurd (ground arith)
  | inr e ↦
      let ih = find?-some c s n (ground arith) in (rw (e, ih.0), ap (λ r. x ∷ r) ih.1, ground arith)
]
