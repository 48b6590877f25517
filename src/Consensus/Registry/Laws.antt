-- ===== src/Consensus/Registry/Laws.antt =====
-- A registry holds exactly the strategies that it was built from, each documented and under a name
-- and version of its own.
use agora_opencode.Prelude.{
  ◌≡◌, refl, sym, ◌⊎◌, inl, inr, ◌↔◌, false, Option, none, some, String, List, [], ◌∷◌, arith, Mem,
  ok, >>=-eq-ok, ok-injective, subst,
}
use text.Mathlib.TextEquality.{eq_iff}
use agora_opencode.Consensus.Registry.{
  Strategy, Registry, find_strategy, lacks_document, register_one, register_from, make_registry,
  resolve,
}

module _ {D : Type 0} where
  -- What a registration that goes through has checked and done.
  register_one-inv :
      (documented : Option (List String)) (s : Strategy D) (r r' : Registry D)
      → register_one documented s r ≡ ok r'
      → (r' ≡ ((s.name, s.version), s) ∷ r)
        × (lacks_document documented s.name ≡ false)
        × (find_strategy s.name s.version r ≡ none)
  unfolding register_one
  register_one-inv documented s r r' e = ground arith

  find-kept :
      (documented : Option (List String)) (s : Strategy D) (r r' : Registry D) (t : Strategy D)
      (n v : String)
      → register_one documented s r ≡ ok r'
      → find_strategy n v r ≡ some t
      → find_strategy n v r' ≡ some t
  find-kept documented s r r' t n v e f =
      let (e', doc, fresh) = register_one-inv documented s r r' e in
      rw e' (ground (arith, eq_iff s.name n, eq_iff s.version v))

  all-kept :
      (documented : Option (List String)) (ss : List (Strategy D)) (r r' : Registry D)
      (t : Strategy D) (n v : String)
      → register_from documented r ss ≡ ok r'
      → find_strategy n v r ≡ some t
      → find_strategy n v r' ≡ some t
  unfolding register_from
  all-kept documented [] r r' t n v e f =
      subst (λ q. find_strategy n v q ≡ some t) (ok-injective e) f
  all-kept documented (s ∷ ss) r r' t n v e f =
      let (q, eq, e') = >>=-eq-ok (register_one documented s r) _ e in
      all-kept documented ss q r' t n v e' (find-kept documented s r q t n v eq f)

  found-new :
      (s : Strategy D) (r : Registry D)
      → find_strategy s.name s.version (((s.name, s.version), s) ∷ r) ≡ some s
  found-new s r = ground (arith, eq_iff s.name s.name, eq_iff s.version s.version)

  all-found :
      (documented : Option (List String)) (ss : List (Strategy D)) (r r' : Registry D)
      (s : Strategy D)
      → register_from documented r ss ≡ ok r'
      → Mem s ss
      → (find_strategy s.name s.version r' ≡ some s) × (lacks_document documented s.name ≡ false)
  unfolding register_from
  all-found documented [] r r' s e m = elim m [ ]
  all-found documented (t ∷ ss) r r' s e m =
      let (q, eq, e') = >>=-eq-ok (register_one documented t r) _ e in
      let (shape, doc, fresh) = register_one-inv documented t r q eq in
      elim m [
        | inl same ↦ (
          all-kept documented ss q r' s s.name s.version e' (rw (shape, ← same) (found-new s r)),
          rw same doc,
        )
        | inr n ↦ all-found documented ss q r' s e' n
      ]

  -- What is found is one of the strategies given, under the name and version asked for.
  all-given :
      (documented : Option (List String)) (ss : List (Strategy D)) (r r' : Registry D)
      (s : Strategy D) (n v : String)
      → register_from documented r ss ≡ ok r'
      → find_strategy n v r' ≡ some s
      → (find_strategy n v r ≡ some s) ⊎ Mem s ss × (s.name ≡ n) × (s.version ≡ v)
  unfolding register_from
  all-given documented [] r r' s n v e f =
      inl (subst (λ q. find_strategy n v q ≡ some s) (sym (ok-injective e)) f)
  all-given documented (t ∷ ss) r r' s n v e f =
      let (q, eq, e') = >>=-eq-ok (register_one documented t r) _ e in
      let (shape, doc, fresh) = register_one-inv documented t r q eq in
      elim (all-given documented ss q r' s n v e' f) [
        | inr (m, a, b) ↦ inr (inr m, a, b)
        | inl g ↦ new_or_old t r n v s (rw shape at g)
      ]
    where
      new_or_old :
          (t : Strategy D) (r : Registry D) (n v : String) (s : Strategy D)
          → find_strategy n v (((t.name, t.version), t) ∷ r) ≡ some s
          → (find_strategy n v r ≡ some s) ⊎ Mem s (t ∷ ss) × (s.name ≡ n) × (s.version ≡ v)
      new_or_old t r n v s g = ground (arith, eq_iff t.name n, eq_iff t.version v)

  -- A registry that could be built resolves a name and version to a strategy exactly when that
  -- strategy was given under them and, where documents are asked for, the name has one.
  pub make_registry-resolve :
      (ss : List (Strategy D)) (documented : Option (List String)) (r : Registry D)
      → make_registry ss documented ≡ ok r
      → (s : Strategy D) (n v : String)
      → resolve r n v ≡ ok s
        ↔ Mem s ss × (s.name ≡ n) × (s.version ≡ v) × (lacks_document documented n ≡ false)
  unfolding make_registry resolve
  make_registry-resolve ss documented r e s n v = (
    λ h. elim (all-given documented ss [] r s n v e (ground arith)) [
      | inl none_yet ↦ absurd (ground arith)
      | inr (m, a, b) ↦ (m, a, b, rw a at ((all-found documented ss [] r s e m).1))
    ],
    λ (m, a, b, documented_name). rw (sym a, sym b, (all-found documented ss [] r s e m).0) refl,
  )
