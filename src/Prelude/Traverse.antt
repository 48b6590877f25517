-- ===== src/Prelude/Traverse.antt =====
-- A loop that calls a fallible function on each element and stops at the first exception.
use mathlib.Core.Path.{◌≡◌, refl, sym, subst}
use mathlib.Core.List.{List, [], ◌∷◌, map}
use native.Mathlib.Omega.{arith}
use agora_opencode.Prelude.Results.{Result, ok, ◌>>=◌, >>=-eq-ok}
use agora_opencode.Prelude.Lists.{Mem}
use mathlib.Core.Logic.{◌⊎◌, inl, inr}

module _ {E A : Type 0} where
  pub ok-injective : {a b : A} → ◌≡◌ {A = Result E A} (ok a) (ok b) → a ≡ b
  ok-injective e = cc

module _ {E A B : Type 0} where
  abbrev pub traverse : (A → Result E B) → List A → Result E (List B)
  traverse f [] = ok []
  traverse f (x ∷ xs) = f x >>= λ y. traverse f xs >>= λ ys. ok (y ∷ ys)

  -- Where each call keeps a key, the results have the keys of the elements, in their order.
  pub map-traverse {ℓ} :
      {K : Type ℓ} (f : A → Result E B) (key : A → K) (key' : B → K)
      → ((x : A) (y : B) → f x ≡ ok y → key' y ≡ key x)
      → (xs : List A) (ys : List B) → traverse f xs ≡ ok ys
      → map key' ys ≡ map key xs
  map-traverse f key key' keep [] ys e = ground arith
  map-traverse f key key' keep (x ∷ xs) ys e =
      let (y, ey, e') = >>=-eq-ok (f x) _ e in
      let (ys', eys, e'') = >>=-eq-ok (traverse f xs) _ e' in
      ground (arith, keep x y ey, map-traverse f key key' keep xs ys' eys)

  -- Each result comes from an element.
  pub mem-traverse :
      (f : A → Result E B) (xs : List A) (ys : List B)
      → traverse f xs ≡ ok ys
      → (y : B) → Mem y ys
      → (x : A) × Mem x xs × (f x ≡ ok y)
  mem-traverse f [] ys e y m = ground arith
  mem-traverse f (x ∷ xs) ys e y m =
      let (z, ez, e') = >>=-eq-ok (f x) _ e in
      let (zs, ezs, e'') = >>=-eq-ok (traverse f xs) _ e' in
      let split : (y ≡ z) ⊎ Mem y zs = subst (Mem y) (ok-injective (sym e'')) m in
      elim split [
        | inl p ↦ (x, inl refl, rw p ez)
        | inr q ↦ let (w, mw, ew) = mem-traverse f xs zs ezs y q in (w, inr mw, ew)
      ]

  -- Calls that all succeed make the loop succeed.
  pub traverse-ok :
      (f : A → Result E B)
      → ((x : A) → (y : B) × (f x ≡ ok y))
      → (xs : List A) → (ys : List B) × (traverse f xs ≡ ok ys)
  traverse-ok f all_ok [] = ([], refl)
  traverse-ok f all_ok (x ∷ xs) =
      let (y, ey) = all_ok x in
      let (ys, eys) = traverse-ok f all_ok xs in (y ∷ ys, rw (ey, eys) refl)

  -- A call that raises for no element raises for no list.
  pub traverse_total :
      (f : A → Result E B)
      → ((x : A) → (y : B) × (f x ≡ ok y))
      → (xs : List A) → (ys : List B) × (traverse f xs ≡ ok ys)
  traverse_total f h [] = ([], refl)
  traverse_total f h (x ∷ xs) =
      let (y, ey) = h x in let (ys, eys) = traverse_total f h xs in (y ∷ ys, rw (ey, eys) refl)
