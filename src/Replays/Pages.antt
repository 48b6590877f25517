-- ===== src/Replays/Pages.antt =====
-- The loop over the pages of the ledger reads all events of a verified session.
use agora_opencode.Prelude.{
  subst, some, ℕ, zero, suc, ◌+◌, ◌≤◌, ◌<◌, ◌≡◌, refl, sym, ap, ◌∙◌, true, false, none, List, [],
  ◌∷◌, ◌++◌, arith, ok, ltb, leb, length, length-append, filter, Bool-cases, inl, inr, Option,
}
use agora_opencode.Ledger.Defs.{
  Hashing, LedgerEvent, Head, Tables, read, take, verify, verify_head, verify_loop, session_events,
  find_head,
}
use agora_opencode.Ledger.Chain.{loop-inv, check_event-inv, verify_events-inv}
use agora_opencode.Replays.Service.{read_pages, next_of}

module _ {H : Type 0} where
  -- The events carry the numbers from `n` on.
  abbrev pub Numbered : ℕ → List (LedgerEvent H) → Type 0
  Numbered n [] = Unit
  Numbered n (e ∷ es) = (e.ledger_seq ≡ n) × Numbered (suc n) es

  abbrev drop : ℕ → List (LedgerEvent H) → List (LedgerEvent H)
  drop zero xs = xs
  drop (suc n) [] = []
  drop (suc n) (x ∷ xs) = drop n xs

  take-drop : (n : ℕ) (xs : List (LedgerEvent H)) → take n xs ++ drop n xs ≡ xs
  take-drop zero xs = refl
  take-drop (suc n) [] = refl
  take-drop (suc n) (x ∷ xs) = ap (λ ys. x ∷ ys) (take-drop n xs)

  -- A page that is not full is the last one.
  take-short :
      (n : ℕ) (xs : List (LedgerEvent H)) → ltb (length (take n xs)) n ≡ true → take n xs ≡ xs
  take-short zero xs e = absurd (ground arith)
  take-short (suc n) [] e = refl
  take-short (suc n) (x ∷ xs) e = ap (λ ys. x ∷ ys) (take-short n xs (ground arith))

  drop-shorter :
      (n : ℕ) (xs : List (LedgerEvent H))
      → ltb (length (take n xs)) n ≡ false
      → length (drop n xs) + n ≤ length xs
  drop-shorter zero xs e = omega arith
  drop-shorter (suc n) [] e = absurd (ground arith)
  drop-shorter (suc n) (x ∷ xs) e = omega (arith, drop-shorter n xs (ground arith))

  Numbered-split :
      (n : ℕ) (xs ys : List (LedgerEvent H))
      → Numbered n (xs ++ ys)
      → Numbered n xs × Numbered (n + length xs) ys
  Numbered-split n [] ys k = (tt, rw (shift n) k)
    where
      shift : (m : ℕ) → m + 0 ≡ m
      shift m = omega arith
  Numbered-split n (x ∷ xs) ys k =
      let (front, back) = Numbered-split (suc n) xs ys k.1 in
      let shift : n + suc (length xs) ≡ suc n + length xs = omega arith in
      ((k.0, front), rw shift back)

  filter-from :
      (m n : ℕ) (xs : List (LedgerEvent H))
      → Numbered n xs
      → m ≤ n
      → filter (λ (e : LedgerEvent H). leb m e.ledger_seq) xs ≡ xs
  filter-from m n [] k b = refl
  filter-from m n (x ∷ xs) k b = ground (arith, filter-from m (suc n) xs k.1)

  filter-behind :
      (m n : ℕ) (xs ys : List (LedgerEvent H))
      → Numbered n xs
      → n + length xs ≤ m
      → filter (λ (e : LedgerEvent H). leb m e.ledger_seq) (xs ++ ys)
        ≡ filter (λ (e : LedgerEvent H). leb m e.ledger_seq) ys
  filter-behind m n [] ys k b = refl
  filter-behind m n (x ∷ xs) ys k b = ground (arith, filter-behind m (suc n) xs ys k.1)

  next_of-Numbered :
      (n : ℕ) (xs : List (LedgerEvent H)) → Numbered n xs → next_of n xs ≡ n + length xs
  next_of-Numbered n [] k = omega arith
  next_of-Numbered n (x ∷ xs) k =
      let step : x.ledger_seq + 1 ≡ suc n = omega arith in
      rw step (next_of-Numbered (suc n) xs k.1 ∙ omega arith)

  append_assoc : (xs ys zs : List (LedgerEvent H)) → (xs ++ ys) ++ zs ≡ xs ++ (ys ++ zs)
  append_assoc [] ys zs = refl
  append_assoc (x ∷ xs) ys zs = ap (λ r. x ∷ r) (append_assoc xs ys zs)

  module _ (w s limit : ℕ) (t : Tables H) (some_limit : 0 < limit) where
    -- What a page holds, where the events before `next_seq` were read.
    page :
        (read_before rest : List (LedgerEvent H))
        → session_events w s t ≡ read_before ++ rest
        → Numbered 1 (read_before ++ rest)
        → read w s (1 + length read_before) limit t ≡ ok (take limit rest)
    unfolding read
    page before rest e k =
        let (front, back) = Numbered-split 1 before rest k in
        let same =
          filter-behind (1 + length before) 1 before rest front (omega arith)
          ∙ filter-from (1 + length before) (1 + length before) rest back (omega arith) in
        rw (e, same) (ground arith)

    last_page :
        (fuel n : ℕ) (batch : List (LedgerEvent H))
        → read w s n limit t ≡ ok batch
        → ltb (length batch) limit ≡ true
        → read_pages (suc fuel) w s limit n t ≡ ok batch
    unfolding read_pages
    last_page fuel n batch e short = ground arith

    full_page :
        (fuel n : ℕ) (batch rest : List (LedgerEvent H))
        → read w s n limit t ≡ ok batch
        → ltb (length batch) limit ≡ false
        → read_pages fuel w s limit (next_of n batch) t ≡ ok rest
        → read_pages (suc fuel) w s limit n t ≡ ok (batch ++ rest)
    unfolding read_pages
    full_page fuel n batch rest e full later = ground arith

    pages :
        (fuel : ℕ) (before rest : List (LedgerEvent H))
        → session_events w s t ≡ before ++ rest
        → Numbered 1 (before ++ rest)
        → length rest < fuel
        → read_pages fuel w s limit (1 + length before) t ≡ ok rest
    pages zero before rest e k enough = absurd (omega arith)
    pages (suc fuel) before rest e k enough =
        elim (Bool-cases (ltb (length (take limit rest)) limit)) [
          | inl short ↦
              last_page fuel (1 + length before) (take limit rest) (page before rest e k) short
              ∙ ap ok (take-short limit rest short)
          | inr full ↦
              full_page fuel (1 + length before) batch more (page before rest e k) full (
                rw next (
                  pages fuel (before ++ batch) more (e ∙ regroup) k'
                    (omega (arith, drop-shorter limit rest full))))
              ∙ ap ok cut
        ]
      where
        batch : List (LedgerEvent H)
        batch = take limit rest

        more : List (LedgerEvent H)
        more = drop limit rest

        cut : batch ++ more ≡ rest
        cut = take-drop limit rest

        regroup : before ++ rest ≡ (before ++ batch) ++ more
        regroup = sym (append_assoc before batch more ∙ ap (λ r. before ++ r) cut)

        k' : Numbered 1 ((before ++ batch) ++ more)
        k' = subst (Numbered 1) regroup k

        batched : Numbered (1 + length before) batch
        batched =
            (Numbered-split (1 + length before) batch more
              (subst (Numbered (1 + length before)) (sym cut) (Numbered-split 1 before rest k).1)).0

        next : next_of (1 + length before) batch ≡ 1 + length (before ++ batch)
        next =
            next_of-Numbered (1 + length before) batch batched
            ∙ omega (arith, length-append before batch)

module _ {H : Type 0} ⦃h : Hashing H⦄ where
  loop-Numbered :
      (n : ℕ) (p q : H) (es : List (LedgerEvent H)) → verify_loop n p es ≡ ok q → Numbered n es
  loop-Numbered n p q [] k = tt
  loop-Numbered n p q (x ∷ xs) k =
      let (fine, k') = loop-inv n p q x xs k in
      let step : n + 1 ≡ suc n = omega arith in
      ((check_event-inv n p x fine).0, loop-Numbered (suc n) x.event_hash q xs (rw step at k'))

  head-Numbered :
      (es : List (LedgerEvent H)) (o : Option (Head H)) → verify_head es o ≡ none → Numbered 1 es
  unfolding verify_head
  head-Numbered es none k = absurd (ground arith)
  head-Numbered es (some hd) k =
      loop-Numbered 1 h.genesis hd.head_hash es (verify_events-inv es hd.next_seq hd.head_hash k).0

  -- For a session that verifies, the loop over the pages, of whatever positive size, returns the
  -- events of the session, in their order, with fuel for one page more than there are events.
  pub read_pages-session_events :
      (fuel w s limit : ℕ) (t : Tables H)
      → verify w s t ≡ none
      → 0 < limit
      → length (session_events w s t) < fuel
      → read_pages fuel w s limit 1 t ≡ ok (session_events w s t)
  unfolding verify
  read_pages-session_events fuel w s limit t sound positive enough =
      pages w s limit t positive fuel [] (session_events w s t) refl
        (head-Numbered (session_events w s t) (find_head w s t.heads) sound) enough
