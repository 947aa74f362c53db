-- ===== src/Client/Freeing.antt =====
-- spore_c/source/client.cpp: handlers that are live, by their addresses, and what `delete` does.
use spore_client_libs.Base.{
  ℕ, ◌+◌, ◌≤◌, true, false, List, [], ◌∷◌, ◌++◌, Option, none, some, ◌==◌, if◌then◌else◌, ◌≡◌, refl,
  sym, ◌∙◌, arith, inl, inr, Bool-cases, Option-cases,
}
use mathlib.Core.Option
use spore_client_libs.Client.State.{Handler}
use spore_client_libs.Client.Handlers.{erase, erase_deletes, read_handler, delete_all}
use spore_client_libs.Client.Registry.{is_at}

-- `delete`: the address must be of a live object, which is then no more.
unfoldable pub free : ℕ → List Handler → Option (List Handler)
free a [] = none
free a (h ∷ live) =
    let rest = free a live in
    if h.address == a then some live else Option.map (λ more. h ∷ more) rest

-- One `delete` after the other. `none` is undefined behaviour.
unfoldable pub free_all : List ℕ → List Handler → Option (List Handler)
unfolding free
free_all [] live = some live
free_all (a ∷ freed) live = elim (free a live) [ none ↦ none | some live' ↦ free_all freed live' ]

unfoldable pub one : ℕ → ℕ → ℕ
one a b = if a == b then 1 else 0

unfoldable pub count : ℕ → List ℕ → ℕ
unfolding one
count b [] = 0
count b (x ∷ xs) = one x b + count b xs

pub count-append : (b : ℕ) (xs ys : List ℕ) → count b (xs ++ ys) ≡ count b xs + count b ys
unfolding count
count-append b [] ys = omega arith
count-append b (x ∷ xs) ys = omega (arith, count-append b xs ys)

pub count-none : (hs : List Handler) → ((b : ℕ) → count b (delete_all hs) ≡ 0) → hs ≡ []
unfolding count one
count-none [] h = refl
count-none (x ∷ hs) h = absurd (ground (arith, h x.address))

-- Freeing an address that is live takes it away once.
abbrev pub Freed : List ℕ → List Handler → Option (List Handler) → Type 0
Freed freed live r =
    (live' : List Handler) × (r ≡ some live')
    × ((b : ℕ) → count b (delete_all live') + count b freed ≡ count b (delete_all live))

pub free-count :
    (a : ℕ) (live : List Handler)
    → 1 ≤ count a (delete_all live)
    → Freed (a ∷ []) live (free a live)
unfolding free count one
free-count a [] h = absurd (omega arith)
free-count a (x ∷ live) h = elim (Bool-cases (x.address == a)) [
  | inl e ↦ rw (free, e) (live, refl, λ b. ground (arith, e))
  | inr e ↦
      let (live', freed, counts) = free-count a live (ground (arith, e)) in
      rw (free, e, freed) (x ∷ live', refl, λ b. omega (arith, counts b))
]

pub free_all-count :
    (freed : List ℕ) (live : List Handler)
    → ((b : ℕ) → count b freed ≤ count b (delete_all live))
    → Freed freed live (free_all freed live)
unfolding free_all count one
free_all-count [] live h = (live, refl, λ b. omega arith)
free_all-count (a ∷ freed) live h =
    let (live', first, counts) = free-count a live (ground (arith, h a)) in
    let (live'', others, counts') =
      free_all-count freed live' (λ b. omega (arith, h b, counts b)) in
    rw (free_all, first) (live'', others, λ b. omega (arith, counts b, counts' b))

pub erase-count :
    (b a : ℕ) (hs : List Handler)
    → count b (delete_all (erase a hs)) + count b (erase_deletes a hs) ≡ count b (delete_all hs)
unfolding erase erase_deletes count one
erase-count b a [] = omega arith
erase-count b a (h ∷ hs) = elim (Bool-cases (h.address == a)) [
  | inl e ↦ ground (arith, e)
  | inr e ↦ rw (erase, erase_deletes, e) (omega (arith, erase-count b a hs))
]

pub delete_all-concat :
    (b : ℕ) (hs : List Handler) (h : Handler)
    → count b (delete_all (hs ++ h ∷ [])) ≡ one h.address b + count b (delete_all hs)
unfolding count
delete_all-concat b [] h = refl
delete_all-concat b (x ∷ hs) h = omega (arith, delete_all-concat b hs h)

-- An address that is among the handlers.
pub is_at-count : (a : ℕ) (hs : List Handler) → is_at a hs ≡ true → 1 ≤ count a (delete_all hs)
unfolding count one
is_at-count a [] h = absurd (ground (arith, h))
is_at-count a (x ∷ hs) h = ground (arith, is_at-count a hs)

pub is_at-count_none :
    (a : ℕ) (hs : List Handler) → count a (delete_all hs) ≡ 0 → is_at a hs ≡ false
unfolding count one
is_at-count_none a [] h = refl
is_at-count_none a (x ∷ hs) h = ground (arith, is_at-count_none a hs)

pub is_at-count_zero :
    (a : ℕ) (hs : List Handler) → is_at a hs ≡ false → count a (delete_all hs) ≡ 0
unfolding count one
is_at-count_zero a [] h = refl
is_at-count_zero a (x ∷ hs) h = ground (arith, is_at-count_zero a hs)

pub is_at-concat :
    (a : ℕ) (hs : List Handler) (h : Handler) → is_at a hs ≡ true → is_at a (hs ++ h ∷ []) ≡ true
is_at-concat a [] h e = absurd (ground (arith, e))
is_at-concat a (x ∷ hs) h e = ground (arith, is_at-concat a hs h)

pub is_at-last : (hs : List Handler) (h : Handler) → is_at h.address (hs ++ h ∷ []) ≡ true
is_at-last [] h = ground arith
is_at-last (x ∷ hs) h = ground (arith, is_at-last hs h)

pub is_at-erase :
    (b a : ℕ) (hs : List Handler)
    → (b == a) ≡ false
    → is_at b hs ≡ true
    → is_at b (erase a hs) ≡ true
unfolding erase
is_at-erase b a [] n h = h
is_at-erase b a (x ∷ hs) n h = ground (arith, n, h, is_at-erase b a hs n)

pub erase_deletes-is_at :
    (a : ℕ) (hs : List Handler) → is_at a hs ≡ true → erase_deletes a hs ≡ a ∷ []
unfolding erase_deletes
erase_deletes-is_at a [] h = absurd (ground (arith, h))
erase_deletes-is_at a (x ∷ hs) h = ground (arith, erase_deletes-is_at a hs)

-- A live object is read, and freeing another leaves what is read.
pub read_handler-is_at :
    (a : ℕ) (live : List Handler)
    → is_at a live ≡ true
    → (h : Handler) × (read_handler a live ≡ some h)
unfolding read_handler
read_handler-is_at a [] h = absurd (ground (arith, h))
read_handler-is_at a (x ∷ live) h = elim (Bool-cases (x.address == a)) [
  | inl e ↦ rw e (x, refl)
  | inr e ↦ rw e (read_handler-is_at a live (ground (arith, e, h)))
]

pub read_handler-none :
    (a : ℕ) (live : List Handler) → is_at a live ≡ false → read_handler a live ≡ none
unfolding read_handler
read_handler-none a [] h = refl
read_handler-none a (x ∷ live) h = ground (arith, h, read_handler-none a live)

pub is_at-read_handler :
    {h : Handler} (a : ℕ) (live : List Handler) → read_handler a live ≡ some h → is_at a live ≡ true
unfolding read_handler
is_at-read_handler a [] e = absurd (ground (arith, e))
is_at-read_handler {h} a (x ∷ live) e = ground (arith, e, is_at-read_handler {h = h} a live)

pub handlers_injective : {x y : List Handler} → some x ≡ some y → x ≡ y
handlers_injective e = cc

pub read_handler-free :
    (b a : ℕ) (live live' : List Handler)
    → (b == a) ≡ false
    → free a live ≡ some live'
    → read_handler b live' ≡ read_handler b live
unfolding read_handler free
read_handler-free b a [] live' n e = absurd (ground (arith, e))
read_handler-free b a (x ∷ live) live' n e = elim (Bool-cases (x.address == a)) [
  | inl found ↦
      let same : some live ≡ some live' = sym (rw (free, found) refl) ∙ e in
      let other : (x.address == b) ≡ false = ground (arith, found, n) in
      rw (sym (handlers_injective same), other) refl
  | inr further ↦ elim (Option-cases (free a live)) [
    | inl none_there ↦ absurd (ground (arith, e, further, none_there))
    | inr (more, freed) ↦
        let same : some (x ∷ more) ≡ some live' = sym (rw (free, further, freed) refl) ∙ e in
        let rest = read_handler-free b a live more n freed in
        rw (sym (handlers_injective same), read_handler, rest) refl
  ]
]
