-- ===== src/Prelude/Sort.antt =====
-- `sorted(xs, key=key, reverse=True)`, which is stable: an insertion sort, over any test `below`
-- that is the strict part of a total preorder.
use mathlib.Core.Path.{◌≡◌, refl, ap}
use mathlib.Core.Logic.{◌⊎◌, inl, inr}
use mathlib.Core.Bool.{Bool, true, false}
use mathlib.Core.List.{List, [], ◌∷◌, ◌++◌, Permᴰ}
use mathlib.Core.List.Permᴰ as PermD
use native.Mathlib.Omega.{arith}
use agora_opencode.Prelude.Tests.{if◌then◌else◌, Bool-cases}
use agora_opencode.Prelude.Lists.{All, Mem}

module _ {A K : Type 0} (below : K → K → Bool) (key : A → K) where
  -- An element goes before those that its key is not below.
  unfoldable pub insert_desc : A → List A → List A
  insert_desc x [] = x ∷ []
  insert_desc x (y ∷ ys) = if below (key x) (key y) then y ∷ insert_desc x ys else x ∷ y ∷ ys

  unfoldable pub sort_desc : List A → List A
  unfolding insert_desc
  sort_desc [] = []
  sort_desc (x ∷ xs) = insert_desc x (sort_desc xs)

  pub insert_desc-Permᴰ : (x : A) (xs : List A) → Permᴰ (insert_desc x xs) (x ∷ xs)
  unfolding insert_desc
  insert_desc-Permᴰ x [] = PermD.refl _
  insert_desc-Permᴰ x (y ∷ ys) = elim (Bool-cases (below (key x) (key y))) [
    | inl lt ↦ rw lt (Permᴰ.trans (Permᴰ.cons refl (insert_desc-Permᴰ x ys)) (Permᴰ.swap refl refl))
    | inr ge ↦ rw ge (PermD.refl _)
  ]

  pub sort_desc-Permᴰ : (xs : List A) → Permᴰ (sort_desc xs) xs
  unfolding sort_desc
  sort_desc-Permᴰ [] = Permᴰ.nil
  sort_desc-Permᴰ (x ∷ xs) =
      Permᴰ.trans (insert_desc-Permᴰ x (sort_desc xs)) (Permᴰ.cons refl (sort_desc-Permᴰ xs))

  insert_desc-cons : (x : A) (xs : List A) → (y : A) × (ys : List A) × (insert_desc x xs ≡ y ∷ ys)
  unfolding insert_desc
  insert_desc-cons x [] = (x, [], refl)
  insert_desc-cons x (y ∷ ys) = elim (Bool-cases (below (key x) (key y))) [
    | inl lt ↦ (y, insert_desc x ys, rw lt refl)
    | inr ge ↦ (x, y ∷ ys, rw ge refl)
  ]

  -- What is sorted is not empty where the list is not.
  pub sort_desc-cons :
      (x : A) (xs : List A) → (y : A) × (ys : List A) × (sort_desc (x ∷ xs) ≡ y ∷ ys)
  unfolding sort_desc
  sort_desc-cons x xs = insert_desc-cons x (sort_desc xs)

  pub mem-insert_desc : (a x : A) (xs : List A) → Mem a (insert_desc x xs) → (a ≡ x) ⊎ Mem a xs
  unfolding insert_desc
  mem-insert_desc a x [] m = m
  mem-insert_desc a x (y ∷ ys) m = ground (arith, mem-insert_desc a x ys)

  pub mem-sort_desc : (a : A) (xs : List A) → Mem a (sort_desc xs) → Mem a xs
  unfolding sort_desc
  mem-sort_desc a [] m = m
  mem-sort_desc a (x ∷ xs) m =
      ground (arith, mem-insert_desc a x (sort_desc xs), mem-sort_desc a xs)

  pub insert_desc-mem : (a x : A) (xs : List A) → (a ≡ x) ⊎ Mem a xs → Mem a (insert_desc x xs)
  unfolding insert_desc
  insert_desc-mem a x [] m = m
  insert_desc-mem a x (y ∷ ys) m = ground (arith, insert_desc-mem a x ys)

  pub sort_desc-mem : (a : A) (xs : List A) → Mem a xs → Mem a (sort_desc xs)
  unfolding sort_desc
  sort_desc-mem a [] m = m
  sort_desc-mem a (x ∷ xs) (inl e) = insert_desc-mem a x (sort_desc xs) (inl e)
  sort_desc-mem a (x ∷ xs) (inr m) = insert_desc-mem a x (sort_desc xs) (inr (sort_desc-mem a xs m))

  -- An element whose key is below all others comes last.
  insert_desc-last :
      (x : A) (ys : List A)
      → All (λ y. below (key x) (key y) ≡ true) ys
      → insert_desc x ys ≡ ys ++ (x ∷ [])
  unfolding insert_desc
  insert_desc-last x [] h = refl
  insert_desc-last x (y ∷ ys) h = rw h.0 (ap (λ zs. y ∷ zs) (insert_desc-last x ys h.1))

  pub sort_desc-last :
      (x : A) (xs : List A)
      → All (λ y. below (key x) (key y) ≡ true) (sort_desc xs)
      → sort_desc (x ∷ xs) ≡ sort_desc xs ++ (x ∷ [])
  unfolding sort_desc
  sort_desc-last x xs h = insert_desc-last x (sort_desc xs) h

  -- No key further down is above a key further up.
  abbrev pub IsDescending : List A → Type 0
  IsDescending [] = Unit
  IsDescending (x ∷ xs) = All (λ y. below (key x) (key y) ≡ false) xs × IsDescending xs

  module _ (asym : (a b : K) → below a b ≡ true → below b a ≡ false)
      (between : (a b c : K) → below a b ≡ false → below b c ≡ false → below a c ≡ false) where
    All-insert_desc :
        (z x : A) (xs : List A)
        → below (key z) (key x) ≡ false
        → All (λ y. below (key z) (key y) ≡ false) xs
        → All (λ y. below (key z) (key y) ≡ false) (insert_desc x xs)
    unfolding insert_desc
    All-insert_desc z x [] h a = (h, tt)
    All-insert_desc z x (y ∷ ys) h a = ground (arith, All-insert_desc z x ys h a.1)

    All-lower :
        (z x : A) (xs : List A)
        → below (key z) (key x) ≡ false
        → All (λ y. below (key x) (key y) ≡ false) xs
        → All (λ y. below (key z) (key y) ≡ false) xs
    All-lower z x [] h a = tt
    All-lower z x (y ∷ ys) h a = (between (key z) (key x) (key y) h a.0, All-lower z x ys h a.1)

    insert_desc-IsDescending :
        (x : A) (xs : List A) → IsDescending xs → IsDescending (insert_desc x xs)
    unfolding insert_desc
    insert_desc-IsDescending x [] d = (tt, tt)
    insert_desc-IsDescending x (y ∷ ys) d = elim (Bool-cases (below (key x) (key y))) [
      | inl lt ↦
          rw lt (
            All-insert_desc y x ys (asym (key x) (key y) lt) d.0,
            insert_desc-IsDescending x ys d.1,
          )
      | inr ge ↦ rw ge ((ge, All-lower x y ys ge d.0), d)
    ]

    pub sort_desc-IsDescending : (xs : List A) → IsDescending (sort_desc xs)
    unfolding sort_desc
    sort_desc-IsDescending [] = tt
    sort_desc-IsDescending (x ∷ xs) =
        insert_desc-IsDescending x (sort_desc xs) (sort_desc-IsDescending xs)
