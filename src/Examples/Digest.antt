-- ===== src/Examples/Digest.antt =====
-- A hash that keeps what it hashes: an instance of the interface without collisions.
use agora_opencode.Prelude.{
  subst, arith, ◌↔◌, ◌&&◌, ap, ℕ, ◌≡◌, refl, true, false, some, none, Bool, String, Option, str_eq,
  ◌==◌,
}
use agora_opencode.Ledger.Defs.{
  Hashing, Preimage, ActorClass, human, agent, service, policy, same_option, same_class,
}
use text.Mathlib.TextEquality.{eq_iff}
use agora_opencode.Ledger.Append.{same_option_refl, same_class_refl}
use agora_opencode.Ledger.Tamper.{CollisionFree}

pub data Digest : Type 0 where
  origin : Digest
  of_payload : String → Digest
  of_event :
      ℕ → ℕ → ℕ → String → ℕ → Option ℕ → ℕ → ActorClass → ℕ → ℕ → ℕ → ℕ → Digest → Digest → Digest

abbrev pub same_digest : Digest → Digest → Bool
same_digest origin origin = true
same_digest (of_payload s) (of_payload t) = str_eq s t
same_digest (of_event a b c d e f g h i j k l m n)
      (of_event a' b' c' d' e' f' g' h' i' j' k' l' m' n') =
    a == a'
    && b == b'
    && c == c'
    && str_eq d d'
    && e == e'
    && same_option f f'
    && g == g'
    && same_class h h'
    && i == i'
    && j == j'
    && k == k'
    && l == l'
    && same_digest m m'
    && same_digest n n'
same_digest _ _ = false

same_option_iff : (a b : Option ℕ) → (same_option a b ≡ true) ↔ (a ≡ b)
same_option_iff none none = ground arith
same_option_iff none (some b) = ground arith
same_option_iff (some a) none = ground arith
same_option_iff (some a) (some b) = ground arith

same_class-eq : (a b : ActorClass) → same_class a b ≡ true → a ≡ b
same_class-eq human human e = refl
same_class-eq agent agent e = refl
same_class-eq service service e = refl
same_class-eq policy policy e = refl
same_class-eq human agent e = cc
same_class-eq human service e = cc
same_class-eq human policy e = cc
same_class-eq agent human e = cc
same_class-eq agent service e = cc
same_class-eq agent policy e = cc
same_class-eq service human e = cc
same_class-eq service agent e = cc
same_class-eq service policy e = cc
same_class-eq policy human e = cc
same_class-eq policy agent e = cc
same_class-eq policy service e = cc

same_digest_refl : (a : Digest) → same_digest a a ≡ true
same_digest_refl origin = refl
same_digest_refl (of_payload s) = (eq_iff s s).1 refl
same_digest_refl (of_event a b c d e f g h i j k l m n) = ground (
  arith,
  (eq_iff d d).1 refl,
  same_option_refl f,
  same_class_refl h,
  same_digest_refl m,
  same_digest_refl n,
)

same_digest-eq : (a b : Digest) → same_digest a b ≡ true → a ≡ b
same_digest-eq origin origin e = refl
same_digest-eq (of_payload s) (of_payload t) e = ap of_payload ((eq_iff s t).0 e)
same_digest-eq (of_event a b c d e f g h i j k l m n)
      (of_event a' b' c' d' e' f' g' h' i' j' k' l' m' n') q =
    ground (
      arith,
      q,
      eq_iff d d',
      same_option_iff f f',
      same_class-eq h h',
      same_digest-eq m m',
      same_digest-eq n n',
    )
same_digest-eq origin (of_payload t) e = cc
same_digest-eq origin (of_event a' b' c' d' e' f' g' h' i' j' k' l' m' n') e = cc
same_digest-eq (of_payload s) origin e = cc
same_digest-eq (of_payload s) (of_event a' b' c' d' e' f' g' h' i' j' k' l' m' n') e = cc
same_digest-eq (of_event a b c d e f g h i j k l m n) origin q = cc
same_digest-eq (of_event a b c d e f g h i j k l m n) (of_payload t) q = cc

abbrev pub event_digest : Preimage Digest → Digest
event_digest p =
    of_event p.id p.workspace_id p.session_id p.event_type p.payload_schema_version p.causation_id
      p.correlation_id p.actor_class p.actor_id p.round p.recorded_at p.ledger_seq p.payload_hash
      p.prev_hash

pub same_digest_iff : (a b : Digest) → (same_digest a b ≡ true) ↔ (a ≡ b)
same_digest_iff a b =
    (same_digest-eq a b, λ e. subst (λ x. same_digest a x ≡ true) e (same_digest_refl a))

instance abbrev pub digest_hashing : Hashing Digest
digest_hashing = record {
  genesis = origin;
  same = same_digest;
  same_iff = same_digest_iff;
  hash_payload = of_payload;
  hash_event = event_digest;
}

-- What a digest was made of, or the default.
text_of : String → Digest → String
text_of z (of_payload s) = s
text_of z _ = z

preimage_of : Preimage Digest → Digest → Preimage Digest
preimage_of z (of_event a b c d e f g h i j k l m n) = record {
  id = a;
  workspace_id = b;
  session_id = c;
  event_type = d;
  payload_schema_version = e;
  causation_id = f;
  correlation_id = g;
  actor_class = h;
  actor_id = i;
  round = j;
  recorded_at = k;
  ledger_seq = l;
  payload_hash = m;
  prev_hash = n;
}
preimage_of z _ = z

pub digest-CollisionFree : CollisionFree Digest
unfolding text_of preimage_of
digest-CollisionFree = record {
  payload_inj = λ a b e. ap (text_of a) e;
  event_inj = λ a b e. ap (preimage_of a) e;
}
