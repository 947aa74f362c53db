-- ===== src/Client/Fuel.antt =====
-- spore_c/source/client.cpp, `listen`: the inner loop comes to its end.
use spore_client_libs.Base.{
  ℕ, zero, suc, ◌≤◌, false, [], ◌∷◌, none, some, length, take, drop, ◌≡◌, refl, arith, inl, inr,
  Option-cases,
}
use spore_client_libs.Base.Text.{Bytes, find?, contains}
use spore_client_libs.Client.State.{Client}
use spore_client_libs.Client.Frame.{Framer}
use spore_client_libs.Client.Listen.{Run, on_line, drain}
use spore_client_libs.Client.Stream.{Settled, drain-Settled, fuel_left}
use spore_client_libs.Client.Defined.{drain-defined}

drain-same :
    (n m : ℕ) (c : Client) (buf : Bytes) (f : Framer)
    → length buf ≤ n
    → length buf ≤ m
    → drain n c buf f ≡ drain m c buf f
unfolding drain find?
drain-same zero zero c buf f h k = refl
drain-same zero (suc m) c [] f h k = refl
drain-same zero (suc m) c (_ ∷ _) f h k = elim h [ ]
drain-same (suc n) zero c [] f h k = refl
drain-same (suc n) zero c (_ ∷ _) f h k = elim k [ ]
drain-same (suc n) (suc m) c buf f h k = elim (Option-cases (find? b'\n' buf)) [
  | inl e ↦ rw (drain, e) refl
  | inr (pos, e) ↦ elim (Option-cases (on_line c (take pos buf) f)) [
    | inl e' ↦ rw (drain, e, e') refl
    | inr ((f', es), e') ↦
        let rest =
          drain-same n m c (drop (suc pos) buf) f' (fuel_left buf pos n e h)
            (fuel_left buf pos m e k) in
        rw (drain, e, e', rest) refl
  ]
]

rest_of : (d : Run × Bytes) → Settled d → ((d.0 ≡ none) → ⊥) → contains b'\n' d.1 ≡ false
rest_of (none, rest) s h = absurd (h refl)
rest_of (some r, rest) s h = s

-- With at least as many rounds as bytes in the buffer, the inner loop ends by its own test: nothing
-- that it leaves in the buffer has a newline, and more rounds than bytes make no difference.
pub drain-ends :
    (n : ℕ) (c : Client) (buf : Bytes) (f : Framer)
    → length buf ≤ n
    → (contains b'\n' (drain n c buf f).1 ≡ false) × (drain n c buf f ≡ drain (length buf) c buf f)
drain-ends n c buf f h = (
  rest_of (drain n c buf f) (drain-Settled n c buf f h) (drain-defined n c buf f),
  drain-same n (length buf) c buf f h (omega arith),
)
