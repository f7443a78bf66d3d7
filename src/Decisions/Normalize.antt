-- ===== src/Decisions/Normalize.antt =====
-- What `normalize_decision` accepts, and that its result is a fixed point.
use sprintctl.Prelude.{
  ℕ, ◌≤◌, ◌≡◌, refl, sym, ap, ◌∙◌, true, false, String, Option, some, List, [], ◌∷◌, ◌++◌, inl, inr,
  arith, string_eq, length, contains, All, All-append, Bool-cases,
}
use mathlib.Core.List.{append_assoc, append-nil}
use sprintctl.Prelude.Text.{len, strip, is_blank, has_nul, strip-strip, has_nul-strip}
use sprintctl.Domain.{Kind, kind_text}
use sprintctl.Ledger.{ok}
use sprintctl.Decisions.{
  Request, parse_kind, is_digest, is_digest_or_none, collect_digests, successor_fits,
  normalize_decision, max_rationale_length, max_evidence_digests,
}

-- No digest of the list is among those before it, nor in `seen`.
abbrev pub IsDistinctAfter : List String → List String → Type 0
IsDistinctAfter seen [] = Unit
IsDistinctAfter seen (d ∷ ds) = (contains seen d ≡ false) × IsDistinctAfter (seen ++ d ∷ []) ds

abbrev pub AreDigests : List String → Type 0
AreDigests ds = All (λ d. is_digest d ≡ true) ds

pub record IsNormal (r : Request) : Type 0 where
  pub rationale_nul : has_nul r.rationale ≡ false
  pub rationale_length : len r.rationale ≤ max_rationale_length
  pub digests : AreDigests r.evidence_digests
  pub distinct : IsDistinctAfter [] r.evidence_digests
  pub digest_count : length r.evidence_digests ≤ max_evidence_digests
  pub release : is_digest_or_none r.release_digest ≡ true
  pub actor_text : is_blank r.actor ≡ false
  pub actor_stripped : strip r.actor ≡ r.actor
  pub actor_nul : has_nul r.actor ≡ false
  pub successor : successor_fits r.kind r.superseded_by_item_id ≡ true

IsDistinctAfter-snoc :
    (seen ds : List String) (d : String)
    → IsDistinctAfter seen ds
    → contains (seen ++ ds) d ≡ false
    → IsDistinctAfter seen (ds ++ d ∷ [])
IsDistinctAfter-snoc seen [] d h e = (rw append-nil at e, tt)
IsDistinctAfter-snoc seen (x ∷ ds) d h e =
    (h.0, IsDistinctAfter-snoc (seen ++ x ∷ []) ds d h.1 (rw append_assoc e))

collect_digests_sound :
    (ds acc out : List String)
    → AreDigests acc
    → IsDistinctAfter [] acc
    → collect_digests acc ds ≡ ok out
    → AreDigests out × IsDistinctAfter [] out
unfolding collect_digests
collect_digests_sound [] acc out a u h = (ground arith, ground arith)
collect_digests_sound (d ∷ ds) acc out a u h = elim (Bool-cases (is_digest d)) [
  | inl e ↦ elim (Bool-cases (contains acc d)) [
    | inl old ↦ collect_digests_sound ds acc out a u (rw (e, old) at h)
    | inr new ↦
        collect_digests_sound ds (acc ++ d ∷ []) out (All-append _ acc (d ∷ []) a (e, tt))
          (IsDistinctAfter-snoc [] acc d u new) (rw (e, new) at h)
  ]
  | inr e ↦ absurd (cc (rw e at h))
]

collect_digests-distinct :
    (ds acc : List String)
    → AreDigests ds
    → IsDistinctAfter acc ds
    → collect_digests acc ds ≡ ok (acc ++ ds)
unfolding collect_digests
collect_digests-distinct [] acc a u = ap ok (sym (append-nil acc))
collect_digests-distinct (d ∷ ds) acc a u =
    rw (a.0, u.0)
      (collect_digests-distinct ds (acc ++ d ∷ []) a.1 u.1 ∙ ap ok (append_assoc acc (d ∷ []) ds))

parse_kind-text : (k : Kind) → parse_kind (kind_text k) ≡ some k
unfolding parse_kind
parse_kind-text Kind.accept = refl
parse_kind-text Kind.reject = refl
parse_kind-text Kind.withdraw = refl
parse_kind-text Kind.supersede = refl
parse_kind-text Kind.revise = refl

-- Normalizing what is normal changes nothing.
pub normalize_decision-IsNormal :
    (r : Request)
    → IsNormal r
    → normalize_decision
        (kind_text r.kind)
        r.actor
        r.rationale
        r.evidence_digests
        r.release_digest
        r.superseded_by_item_id
      ≡ ok r
unfolding normalize_decision
normalize_decision-IsNormal r n = ground (
  arith,
  parse_kind-text r.kind,
  collect_digests-distinct r.evidence_digests [] n.digests n.distinct,
)

module _ (kind actor rationale : String) (digests : List String) (release : Option String)
    (superseded_by : Option ℕ) (r : Request)
    (h : normalize_decision kind actor rationale digests release superseded_by ≡ ok r) where
  collected : collect_digests [] digests ≡ ok r.evidence_digests
  unfolding normalize_decision
  collected = ground arith

  actor_strip : r.actor ≡ strip actor
  unfolding normalize_decision
  actor_strip = ground arith

  -- An accepted request is in canonical form: a rationale of at most 4000 characters, at most 64
  -- evidence digests, each 64 lowercase hexadecimal characters and none twice, a release digest
  -- of that form if any, an actor that is stripped and not empty, no NUL character in either
  -- text, and a superseding item (at least 1) exactly for a supersede decision.
  pub IsNormal-normalize_decision : IsNormal r
  unfolding normalize_decision
  IsNormal-normalize_decision = record {
    rationale_nul = ground arith;
    rationale_length = ground arith;
    digests = (collect_digests_sound digests [] _ tt tt collected).0;
    distinct = (collect_digests_sound digests [] _ tt tt collected).1;
    digest_count = ground arith;
    release = ground arith;
    actor_text = rw (actor_strip, strip-strip) (ground arith);
    actor_stripped = rw actor_strip (strip-strip actor);
    actor_nul = rw actor_strip (has_nul-strip actor (ground arith));
    successor = ground arith;
  }

  -- Normalizing an accepted request again returns it unchanged.
  pub normalize_decision-normalize_decision :
      normalize_decision
        (kind_text r.kind)
        r.actor
        r.rationale
        r.evidence_digests
        r.release_digest
        r.superseded_by_item_id
      ≡ ok r
  normalize_decision-normalize_decision = normalize_decision-IsNormal r IsNormal-normalize_decision
