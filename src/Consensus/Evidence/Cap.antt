-- ===== src/Consensus/Evidence/Cap.antt =====
-- How many citations of one publisher `_capped_by_publisher` counts.
use agora_opencode.Prelude.{
  ap, ℕ, ◌+◌, ◌-◌, if◌then◌else◌, Bool-cases, inl, inr, arith, ◌≡◌, [], ◌∷◌, List, String, str_eq,
}
use Prim.Native.Nat.{min}
use text.Mathlib.TextEquality.{eq_iff}
use agora_opencode.Consensus.Evidence.{cap_from, capped_by_publisher, count_of}
use agora_opencode.Consensus.Types.{EvidenceCitationInput}

-- The number of a publisher's citations.
abbrev pub cited : String → List EvidenceCitationInput → ℕ
cited k [] = 0
cited k (c ∷ cs) = if str_eq c.publisher k then cited k cs + 1 else cited k cs

count-new :
    (p k : String) (n : ℕ) (counts : List (String × ℕ))
    → count_of k ((p, n) ∷ counts) ≡ (if str_eq p k then n else count_of k counts)
count-new p k n counts = ground arith

cited-cap_from :
    (k : String) (cap : ℕ) (counts : List (String × ℕ)) (cs : List EvidenceCitationInput)
    → cited k (cap_from cap counts cs) ≡ min (cap - count_of k counts) (cited k cs)
unfolding cap_from
cited-cap_from k cap counts [] = ground arith
cited-cap_from k cap counts (c ∷ cs) = elim (Bool-cases (str_eq c.publisher k)) [
  | inl same ↦
      let here = (eq_iff c.publisher k).0 same in
      ground (
        arith,
        same,
        ap (λ p. count_of p counts) here,
        count-new c.publisher k (count_of c.publisher counts + 1) counts,
        cited-cap_from k cap ((c.publisher, count_of c.publisher counts + 1) ∷ counts) cs,
      )
  | inr other ↦ ground (
    arith,
    other,
    count-new c.publisher k (count_of c.publisher counts + 1) counts,
    cited-cap_from k cap ((c.publisher, count_of c.publisher counts + 1) ∷ counts) cs,
  )
]

-- Of the citations of one publisher, _capped_by_publisher keeps exactly the smaller of the cap
-- and their number.
pub cited-capped_by_publisher :
    (k : String) (cap : ℕ) (cs : List EvidenceCitationInput)
    → cited k (capped_by_publisher cs cap) ≡ min cap (cited k cs)
unfolding capped_by_publisher
cited-capped_by_publisher k cap cs = ground (arith, cited-cap_from k cap [] cs)
