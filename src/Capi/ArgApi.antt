-- ===== src/Capi/ArgApi.antt =====
-- spore_c/source/spore_c.cpp: what the five kinds of messages have in common, as an interface, and
-- what a caller can observe of arguments and flags over any sequence of calls.
use mathlib.Core.Path.{fun_ext}
use spore_client_libs.Base.{
  Bool, true, false, ◌||◌, List, [], ◌∷◌, Option, none, some, if◌then◌else◌, ◌≡◌, refl, ap, ◌∙◌,
  Bool-cases, inl, inr, arith,
}
use spore_client_libs.Base.Text.{Bytes, equal, c_str}
use spore_client_libs.Wire.Sorted.{lookup-assign}
use spore_client_libs.Wire.SortedSet.{member-insert}
use spore_client_libs.Wire.Message.{Message, get_arg, has_flag, add_arg, add_flag}
use spore_client_libs.Capi.Texts.{sv}

abbrev pub is_null {ℓ} : {A : Type ℓ} → Option A → Bool
is_null none = true
is_null (some a) = false

-- The functions of one kind, and what they promise each other.
pub record ArgApi (T : Type 0) : Type 0 where
  pub create : Option T
  pub put_arg : Option T → Option Bytes → Option Bytes → Option T
  pub put_flag : Option T → Option Bytes → Option T
  pub read_arg : Option T → Option Bytes → Option Bytes
  pub read_flag : Option T → Option Bytes → Bool
  pub is_null-create : is_null create ≡ false
  pub read_arg-create : (q : Bytes) → read_arg create (some q) ≡ none
  pub read_flag-create : (q : Bytes) → read_flag create (some q) ≡ false
  pub is_null-put_arg : (h : T) (k v : Bytes) → is_null (put_arg (some h) (some k) (some v)) ≡ false
  pub is_null-put_flag : (h : T) (f : Bytes) → is_null (put_flag (some h) (some f)) ≡ false
  pub put_arg-null_key : (h : T) (v : Option Bytes) → put_arg (some h) none v ≡ some h
  pub put_arg-null_value : (h : T) (k : Bytes) → put_arg (some h) (some k) none ≡ some h
  pub put_flag-null : (h : T) → put_flag (some h) none ≡ some h
  pub read_arg-put_arg :
      (h : T) (k v q : Bytes)
      → read_arg (put_arg (some h) (some k) (some v)) (some q)
        ≡ (if equal (c_str k) (c_str q) then sv (c_str v) else read_arg (some h) (some q))
  pub read_flag-put_arg :
      (h : T) (k v q : Bytes)
      → read_flag (put_arg (some h) (some k) (some v)) (some q) ≡ read_flag (some h) (some q)
  pub read_arg-put_flag :
      (h : T) (f q : Bytes)
      → read_arg (put_flag (some h) (some f)) (some q) ≡ read_arg (some h) (some q)
  pub read_flag-put_flag :
      (h : T) (f q : Bytes)
      → read_flag (put_flag (some h) (some f)) (some q)
        ≡ (equal (c_str f) (c_str q) || read_flag (some h) (some q))

-- The law of arguments on the message itself.
pub get_arg-add_arg :
    (m : Message) (k v q : Bytes)
    → sv (get_arg (add_arg m k v) q) ≡ (if equal k q then sv v else sv (get_arg m q))
unfolding get_arg add_arg
get_arg-add_arg m k v q = elim (Bool-cases (equal k q)) [
  | inl e ↦ rw (get_arg, lookup-assign k q v m.args, e) refl
  | inr e ↦ rw (get_arg, lookup-assign k q v m.args, e) refl
]

pub has_flag-add_flag :
    (m : Message) (f q : Bytes) → has_flag (add_flag m f) q ≡ (equal f q || has_flag m q)
unfolding has_flag add_flag
has_flag-add_flag m f q = member-insert f q m.flags

-- A call, with the texts it is handed, any of which may be null.
pub data Call : Type 0 where
  arg : Option Bytes → Option Bytes → Call
  flag : Option Bytes → Call

-- What can be observed: the value of every name, and the presence of every flag.
abbrev pub View : Type 0
View = (Bytes → Option Bytes) × (Bytes → Bool)

-- The same calls on functions: a name is given a value, a flag is set.
abbrev pub replay : List Call → View → View
replay [] s = s
replay (arg (some k) (some v) ∷ calls) (get, has) =
    replay calls ((λ q. if equal (c_str k) (c_str q) then sv (c_str v) else get q), has)
replay (arg _ _ ∷ calls) s = replay calls s
replay (flag (some f) ∷ calls) (get, has) =
    replay calls (get, (λ q. equal (c_str f) (c_str q) || has q))
replay (flag none ∷ calls) s = replay calls s

abbrev pub nothing : View
nothing = ((λ q. none), (λ q. false))

view_eq :
    {g g' : Bytes → Option Bytes} {h h' : Bytes → Bool}
    → g ≡ g'
    → h ≡ h'
    → ◌≡◌ {A = View} (g, h) (g', h')
view_eq p q = cc

module _ {T : Type 0} (a : ArgApi T) where
  abbrev pub run : List Call → Option T → Option T
  run [] h = h
  run (arg k v ∷ calls) h = run calls (a.put_arg h k v)
  run (flag f ∷ calls) h = run calls (a.put_flag h f)

  abbrev pub view : Option T → View
  view h = ((λ q. a.read_arg h (some q)), (λ q. a.read_flag h (some q)))

  run_refines :
      (calls : List Call) (h : Option T)
      → is_null h ≡ false
      → view (run calls h) ≡ replay calls (view h)
  run_refines [] h n = refl
  run_refines (c ∷ calls) none n = absurd (ground arith)
  run_refines (arg (some k) (some v) ∷ calls) (some h) n =
      let h' = a.put_arg (some h) (some k) (some v) in
      run_refines calls h' (a.is_null-put_arg h k v)
      ∙ ap (replay calls) (
          view_eq (fun_ext λ q. a.read_arg-put_arg h k v q)
            (fun_ext λ q. a.read_flag-put_arg h k v q))
  run_refines (arg none v ∷ calls) (some h) n =
      ap (λ h'. view (run calls h')) (a.put_arg-null_key h v) ∙ run_refines calls (some h) n
  run_refines (arg (some k) none ∷ calls) (some h) n =
      ap (λ h'. view (run calls h')) (a.put_arg-null_value h k) ∙ run_refines calls (some h) n
  run_refines (flag (some f) ∷ calls) (some h) n =
      let h' = a.put_flag (some h) (some f) in
      run_refines calls h' (a.is_null-put_flag h f)
      ∙ ap (replay calls) (
          view_eq (fun_ext λ q. a.read_arg-put_flag h f q)
            (fun_ext λ q. a.read_flag-put_flag h f q))
  run_refines (flag none ∷ calls) (some h) n =
      ap (λ h'. view (run calls h')) (a.put_flag-null h) ∙ run_refines calls (some h) n

  pub run-create_refines : (calls : List Call) → view (run calls a.create) ≡ replay calls nothing
  run-create_refines calls =
      run_refines calls a.create a.is_null-create
      ∙ ap (replay calls)
          (view_eq (fun_ext λ q. a.read_arg-create q) (fun_ext λ q. a.read_flag-create q))
