-- ===== src/Memory/Heap.antt =====
-- `new` and `delete`: a heap of objects, and a monad over it. An object is known by a number that is
-- its address; no address is used twice, so a use after `delete` finds no object.
use spore_client_libs.Base.{
  ℕ, suc, List, [], ◌∷◌, Option, none, some, ◌==◌, if◌then◌else◌, ◌≡◌, refl,
}
use spore_client_libs.Parser.Message
use spore_client_libs.Parser.Build.{Parser}
use spore_client_libs.Wire.Message.{Message, ResponseError, Witness, Publish}

-- What an opaque handle of the C interfaces points to.
pub data Object : Type 0 where
  parser : Parser → Object
  parsed : Message.Message → Object
  request : Message → Object
  response : Message → Object
  response_error : ResponseError → Object
  witness : Witness → Object
  publish : Publish → Object

pub record Heap : Type 0 where
  pub next : ℕ
  pub cells : List (ℕ × Object)

-- `none` is undefined behaviour: a use of what is no object of that type, or not live any more.
abbrev pub M : Type 0 → Type 0
M Result = Heap → Option (Result × Heap)

-- `new`
unfoldable pub alloc : Object → M ℕ
alloc o h = some (h.next, record { next = suc h.next; cells = (h.next, o) ∷ h.cells })

infixl 5 ◌>>=◌
abbrev pub ◌>>=◌ : {First Second : Type 0} → M First → (First → M Second) → M Second
first >>= second = λ heap. elim (first heap) [ some (r, heap') ↦ second r heap' | none ↦ none ]

infixl 5 ◌>>◌
abbrev pub ◌>>◌ : {Second : Type 0} → M (Unit {0}) → M Second → M Second
first >> second = first >>= (λ done. second)

-- The heap stays as it is.
abbrev pub pure : {Result : Type 0} → Result → M Result
pure r = λ heap. some (r, heap)

abbrev pub find : ℕ → List (ℕ × Object) → Option Object
find p [] = none
find p ((q, o) ∷ cells) = if q == p then some o else find p cells

abbrev pub remove : ℕ → List (ℕ × Object) → List (ℕ × Object)
remove p [] = []
remove p ((q, o) ∷ cells) = let rest = remove p cells in if q == p then cells else (q, o) ∷ rest

abbrev pub replace : ℕ → Object → List (ℕ × Object) → List (ℕ × Object)
replace p o [] = []
replace p o ((q, o') ∷ cells) =
    let rest = replace p o cells in if q == p then (q, o) ∷ cells else (q, o') ∷ rest

unfoldable pub load_object : ℕ → M Object
load_object p h = elim (find p h.cells) [ none ↦ none | some o ↦ some (o, h) ]

unfoldable pub store_object : ℕ → Object → M (Unit {0})
store_object p o h = elim (find p h.cells) [
  | none ↦ none
  | some o' ↦ some (tt, record h { cells = replace p o h.cells })
]

-- `delete`
unfoldable pub free : ℕ → M (Unit {0})
free p h = elim (find p h.cells) [
  | none ↦ none
  | some o ↦ some (tt, record h { cells = remove p h.cells })
]

pub load_object-find :
    (p : ℕ) (h : Heap) {o : Object} → find p h.cells ≡ some o → load_object p h ≡ some (o, h)
unfolding load_object
load_object-find p h e = rw (load_object, e) refl

pub store_object-find :
    (p : ℕ) (o : Object) (h : Heap) {o' : Object}
    → find p h.cells ≡ some o'
    → store_object p o h ≡ some (tt, record h { cells = replace p o h.cells })
unfolding store_object
store_object-find p o h e = rw (store_object, e) refl

pub free-find :
    (p : ℕ) (h : Heap) {o : Object}
    → find p h.cells ≡ some o
    → free p h ≡ some (tt, record h { cells = remove p h.cells })
unfolding free
free-find p h e = rw (free, e) refl
