-- ===== src/Prelude/Lists.antt =====
-- Lists with Boolean tests, Python's dicts with numeric keys, and membership.
use Prim.Native.Nat.{ℕ, suc, ◌+◌, ◌≤◌}
use Prim.Native.String.{String}
use mathlib.Core.Path.{◌≡◌, refl, sym, subst}
use mathlib.Core.Logic.{◌⊎◌, inl, inr}
use mathlib.Core.Bool.{Bool, true, false, ◌&&◌, ◌||◌, not}
use mathlib.Core.Option.{Option, none, some}
use mathlib.Core.List.{List, [], ◌∷◌, ◌++◌}
use native.Mathlib.Omega.{arith}
use agora_opencode.Prelude.Tests.{◌==◌, str_eq, if◌then◌else◌, Bool-cases}

-- No element, at any level.
pub data Empty {ℓ} : Type ℓ where

module _ {ℓ} {A : Type ℓ} where
  abbrev pub length : List A → ℕ
  length [] = 0
  length (x ∷ xs) = suc (length xs)

  abbrev pub any : (A → Bool) → List A → Bool
  any p [] = false
  any p (x ∷ xs) = p x || any p xs

  abbrev pub all : (A → Bool) → List A → Bool
  all p [] = true
  all p (x ∷ xs) = p x && all p xs

  -- `[x for x in xs if p(x)]`
  abbrev pub filter : (A → Bool) → List A → List A
  filter p [] = []
  filter p (x ∷ xs) = if p x then x ∷ filter p xs else filter p xs

  -- `next((x for x in xs if p(x)), None)`
  abbrev pub find? : (A → Bool) → List A → Option A
  find? p [] = none
  find? p (x ∷ xs) = if p x then some x else find? p xs

  abbrev pub is_nil : List A → Bool
  is_nil [] = true
  is_nil (x ∷ xs) = false

  abbrev pub All {κ} : (A → Type κ) → List A → Type κ
  All P [] = Unit
  All P (x ∷ xs) = P x × All P xs

  -- Membership by recursion: the tactics take it apart as a sum.
  abbrev pub Mem : A → List A → Type ℓ
  Mem a [] = Empty
  Mem a (x ∷ xs) = (a ≡ x) ⊎ Mem a xs

  pub mem-filter :
      (p : A → Bool) (a : A) (xs : List A) → Mem a (filter p xs) → Mem a xs × (p a ≡ true)
  mem-filter p a (x ∷ xs) m = ground (arith, mem-filter p a xs)
  mem-filter p a [] m = elim m [ ]

  pub filter-mem :
      (p : A → Bool) (a : A) (xs : List A) → Mem a xs → p a ≡ true → Mem a (filter p xs)
  filter-mem p a [] m e = elim m [ ]
  filter-mem p a (x ∷ xs) m e = ground (arith, filter-mem p a xs)

  pub is_nil-filter : (p : A → Bool) (xs : List A) → is_nil (filter p xs) ≡ not (any p xs)
  is_nil-filter p [] = refl
  is_nil-filter p (x ∷ xs) = ground (arith, is_nil-filter p xs)

  pub any-mem : (p : A → Bool) (a : A) (xs : List A) → Mem a xs → p a ≡ true → any p xs ≡ true
  any-mem p a [] m e = elim m [ ]
  any-mem p a (x ∷ xs) m e = ground (arith, any-mem p a xs)

  pub mem-any : (p : A → Bool) (xs : List A) → any p xs ≡ true → (a : A) × Mem a xs × (p a ≡ true)
  mem-any p [] e = cc
  mem-any p (x ∷ xs) e = elim (Bool-cases (p x)) [
    | inl here ↦ (x, inl refl, here)
    | inr there ↦ let (a, m, h) = mem-any p xs (rw there at e) in (a, inr m, h)
  ]

  pub all-mem : (p : A → Bool) (a : A) (xs : List A) → all p xs ≡ true → Mem a xs → p a ≡ true
  all-mem p a [] e m = elim m [ ]
  all-mem p a (x ∷ xs) e m = ground (arith, all-mem p a xs)

  pub All-of_mem {κ} : (P : A → Type κ) (xs : List A) → ((a : A) → Mem a xs → P a) → All P xs
  All-of_mem P [] h = tt
  All-of_mem P (x ∷ xs) h = (h x (inl refl), All-of_mem P xs (λ a m. h a (inr m)))

  pub mem-All {κ} : (P : A → Type κ) (a : A) (xs : List A) → All P xs → Mem a xs → P a
  mem-All P a [] h m = elim m [ ]
  mem-All P a (x ∷ xs) h (inl e) = subst P (sym e) h.0
  mem-All P a (x ∷ xs) h (inr m) = mem-All P a xs h.1 m

  pub length-append : (xs ys : List A) → length (xs ++ ys) ≡ length xs + length ys
  length-append [] ys = omega arith
  length-append (x ∷ xs) ys = omega (arith, length-append xs ys)

  pub length-filter-le : (p : A → Bool) (xs : List A) → length (filter p xs) ≤ length xs
  length-filter-le p [] = omega arith
  length-filter-le p (x ∷ xs) = ground (arith, length-filter-le p xs)

  -- The latest entry of a key stands first, so that `d[k] = v` is a `∷`.
  abbrev pub lookup : ℕ → List (ℕ × A) → Option A
  lookup k [] = none
  lookup k ((j, v) ∷ d) = if j == k then some v else lookup k d

  -- `d.get(k, default)`
  abbrev pub get_or : A → ℕ → List (ℕ × A) → A
  get_or z k d = elim (lookup k d) [ none ↦ z | some v ↦ v ]

-- `{key(x): x for x in xs}`: a later element of the same key wins.
abbrev pub dict_of {ℓ} : {A : Type ℓ} → (A → ℕ) → List A → List (ℕ × A)
dict_of key [] = []
dict_of key (x ∷ xs) = dict_of key xs ++ ((key x, x) ∷ [])

-- `xs[0]`, and `none` for the `IndexError` of an empty sequence
abbrev pub head? {ℓ} : {A : Type ℓ} → List A → Option A
head? [] = none
head? (x ∷ xs) = some x

abbrev pub flat_map {ℓ κ} : {A : Type ℓ} {B : Type κ} → (A → List B) → List A → List B
flat_map f [] = []
flat_map f (x ∷ xs) = f x ++ flat_map f xs

-- `k in ks`
abbrev pub contains : ℕ → List ℕ → Bool
contains k = any (λ j. j == k)

-- `len(set(ks)) == len(ks)`
abbrev pub are_distinct : List ℕ → Bool
are_distinct [] = true
are_distinct (k ∷ ks) = not (contains k ks) && are_distinct ks

-- `s in (…)` for a tuple of texts
abbrev pub text_in : String → List String → Bool
text_in s = any (λ t. str_eq s t)

-- `d.get(k)` in a dict with text keys
abbrev pub lookup_text {ℓ} : {A : Type ℓ} → String → List (String × A) → Option A
lookup_text k [] = none
lookup_text k ((j, v) ∷ d) = if str_eq j k then some v else lookup_text k d

pub List-cases {ℓ} :
    {A : Type ℓ} (xs : List A) → (xs ≡ []) ⊎ ((x : A) × (rest : List A) × (xs ≡ x ∷ rest))
List-cases [] = inl refl
List-cases (x ∷ xs) = inr (x, xs, refl)
