-- ===== src/Releases/Content.antt =====
-- What a release keeps, and freezing it again.
use sprintctl.Prelude.{
  ◌+◌, ◌≡◌, refl, sym, ap, ◌∙◌, String, true, false, List, map, any-append, string_eq,
  if◌then◌else◌, beq_refl, Bool-cases, inl, inr,
}
use mathlib.Core.List.{Permᴰ}
use mathlib.Core.List.Permᴰ.{nil, cons, swap, trans}
use sprintctl.Prelude.Order.{
  IsOrder, by_key-IsOrder, list_leb, list_leb-IsOrder, text_leb, text_leb-IsOrder,
}
use sprintctl.Prelude.Sort.{sort_permuted}
use sprintctl.Domain.{Ref, Release}
use sprintctl.Domain.Json.{Json, Fields}
use sprintctl.Ledger.{Ledger, ok, after}
use sprintctl.Schema.Statements.{insert_release, release_ignored, with_release_added, digest_is}
use sprintctl.Releases.Freeze.{
  ContextRef, Basis, frozen_ref, ref_key, ref_leb, canonical_context_refs, freeze, freeze_digest,
  release_row, refs_of,
}

ref_key-apart : (a b : ContextRef) → ref_key a ≡ ref_key b → a ≡ b
ref_key-apart a b h =
    let kind : a.ref_type ≡ b.ref_type = cc in
    let url : a.url ≡ b.url = cc in
    let label : a.label ≡ b.label = cc in
    λ i. record { ref_type = kind i; url = url i; label = label i }

ref_leb-IsOrder : IsOrder ref_leb
ref_leb-IsOrder =
    by_key-IsOrder (list_leb text_leb) ref_key ref_key-apart
      (list_leb-IsOrder text_leb text_leb-IsOrder)

map_permuted :
    {A B : Type 0} (f : A → B) (xs ys : List A) → Permᴰ xs ys → Permᴰ (map f xs) (map f ys)
map_permuted f _ _ nil = nil
map_permuted f _ _ (cons e p) = cons (ap f e) (map_permuted f _ _ p)
map_permuted f _ _ (swap e g) = swap (ap f e) (ap f g)
map_permuted f _ _ (trans p q) = trans (map_permuted f _ _ p) (map_permuted f _ _ q)

-- The references of an item freeze to the same list in whatever order the table gives them.
pub canonical_context_refs_permuted :
    (refs others : List Ref)
    → Permᴰ refs others
    → canonical_context_refs refs ≡ canonical_context_refs others
unfolding canonical_context_refs
canonical_context_refs_permuted refs others p =
    sort_permuted ref_leb ref_leb-IsOrder (map frozen_ref refs) (map frozen_ref others)
      (map_permuted frozen_ref refs others p)

module _ (lower : String → String) (sha256 : String → String) (dumps : Json → String) (b : Basis)
    (actor : String) (c : Fields) where
  abbrev row_at : Ledger → Release
  row_at s =
      release_row lower sha256 dumps b (freeze_digest lower sha256 dumps b c s) actor c
        (canonical_context_refs (refs_of b.item.id s)) s.clock (s.last.release + 1)

  freeze-ignored :
      (s : Ledger)
      → release_ignored s.releases (row_at s) ≡ true
      → freeze lower sha256 dumps b actor c s ≡ (ok (freeze_digest lower sha256 dumps b c s), s)
  unfolding freeze insert_release
  freeze-ignored s e =
      ap
        (λ x. (
          ok (freeze_digest lower sha256 dumps b c s),
          if x then s else with_release_added (row_at s) s,
        ))
        e

  freeze-added :
      (s : Ledger)
      → release_ignored s.releases (row_at s) ≡ false
      → freeze lower sha256 dumps b actor c s
        ≡ (ok (freeze_digest lower sha256 dumps b c s), with_release_added (row_at s) s)
  unfolding freeze insert_release
  freeze-added s e =
      ap
        (λ x. (
          ok (freeze_digest lower sha256 dumps b c s),
          if x then s else with_release_added (row_at s) s,
        ))
        e

  added-ignored :
      (s : Ledger)
      → release_ignored
          (with_release_added (row_at s) s).releases
          (row_at (with_release_added (row_at s) s))
        ≡ true
  added-ignored s =
      let digest = freeze_digest lower sha256 dumps b c s in
      rw (any-append (digest_is digest) s.releases (row_at s) (beq_refl digest)) refl

  -- Freezing an item again while it is unchanged gives the same digest and writes nothing.
  pub freeze-freeze :
      (s : Ledger)
      → freeze lower sha256 dumps b actor c (after (freeze lower sha256 dumps b actor c) s) ≡ (
        ok (freeze_digest lower sha256 dumps b c s),
        after (freeze lower sha256 dumps b actor c) s,
      )
  freeze-freeze s = elim (Bool-cases (release_ignored s.releases (row_at s))) [
    | inl e ↦
        ap (λ p. freeze lower sha256 dumps b actor c p.1) (freeze-ignored s e)
        ∙ freeze-ignored s e
        ∙ ap (λ p. (ok (freeze_digest lower sha256 dumps b c s), p.1)) (sym (freeze-ignored s e))
    | inr e ↦
        ap (λ p. freeze lower sha256 dumps b actor c p.1) (freeze-added s e)
        ∙ freeze-ignored (with_release_added (row_at s) s) (added-ignored s)
        ∙ ap (λ p. (ok (freeze_digest lower sha256 dumps b c s), p.1)) (sym (freeze-added s e))
  ]
