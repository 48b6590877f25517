-- ===== src/Prelude/Dicts.antt =====
-- Laws of Python's dicts as association lists whose latest entry stands first.
use Prim.Native.Nat.{ℕ}
use mathlib.Core.Path.{◌≡◌, refl}
use mathlib.Core.Logic.{◌≢◌}
use mathlib.Core.Option.{none, some}
use mathlib.Core.List.{List, [], ◌∷◌, ◌++◌}
use native.Mathlib.Omega.{arith}
use agora_opencode.Prelude.Lists.{lookup, dict_of, Mem}

module _ {A : Type 0} where
  pub lookup-append :
      (k : ℕ) (d e : List (ℕ × A))
      → lookup k (d ++ e) ≡ elim (lookup k d) [ none ↦ lookup k e | some v ↦ some v ]
  lookup-append k [] e = refl
  lookup-append k ((j, v) ∷ d) e = ground (arith, lookup-append k d e)

  -- What a lookup finds is an element with that key.
  pub lookup-dict_of :
      (key : A → ℕ) (k : ℕ) (xs : List A) (x : A)
      → lookup k (dict_of key xs) ≡ some x
      → (key x ≡ k) × Mem x xs
  lookup-dict_of key k [] x e = absurd (ground arith)
  lookup-dict_of key k (y ∷ ys) x e =
      ground (arith, lookup-append k (dict_of key ys) ((key y, y) ∷ []), lookup-dict_of key k ys x)

  -- A key that an element has is found.
  pub dict_of-finds :
      (key : A → ℕ) (x : A) (xs : List A) → Mem x xs → lookup (key x) (dict_of key xs) ≢ none
  dict_of-finds key x [] m e = elim m [ ]
  dict_of-finds key x (y ∷ ys) m e =
      ground
        (arith, lookup-append (key x) (dict_of key ys) ((key y, y) ∷ []), dict_of-finds key x ys)
