-- ===== src/Decisions/Admission.antt =====
-- Which decision an item accepts.
use sprintctl.Prelude.{◌≡◌, ◌≢◌, ◌↔◌, ◌⊎◌, true, false, none, arith, inl, inr, Bool-cases}
use sprintctl.Prelude.Text.{is_blank}
use sprintctl.Domain.{Status, Kind, Item, is_terminal}
use sprintctl.Decisions.{
  Request, decision_error, is_legacy_remark_target, closes_without_acceptance, is_nil,
}

-- An open item takes `revise` in any status, `accept` when it is active, and `reject`, `withdraw`
-- or `supersede` with a rationale that is not blank.
pub record OpenRule (item : Item) (decision : Request) : Type 0 where
  pub still_open : item.status ≢ Status.done
  pub accepts : decision.kind ≡ Kind.accept → item.status ≡ Status.active
  pub says_why :
      closes_without_acceptance decision.kind ≡ true → is_blank decision.rationale ≡ false

-- A legacy item that was done before decisions existed takes one terminal decision, with a
-- rationale and at least one evidence digest.
pub record RemarkRule (item : Item) (decision : Request) : Type 0 where
  pub was_done : item.status ≡ Status.done
  pub legacy : item.legacy ≡ true
  pub unbound : item.terminal_decision_id ≡ none
  pub terminal : is_terminal decision.kind ≡ true
  pub says_why : is_blank decision.rationale ≡ false
  pub evidence : is_nil decision.evidence_digests ≡ false

module _ (item : Item) (decision : Request) where
  remark-of_none :
      is_legacy_remark_target item ≡ true
      → decision_error item decision ≡ none
      → RemarkRule item decision
  unfolding decision_error
  remark-of_none e h = record {
    was_done = ground arith;
    legacy = ground arith;
    unbound = ground arith;
    terminal = ground arith;
    says_why = ground arith;
    evidence = ground arith;
  }

  open-of_none :
      is_legacy_remark_target item ≡ false
      → decision_error item decision ≡ none
      → OpenRule item decision
  unfolding decision_error
  open-of_none e h = record {
    still_open = λ d. ground arith;
    accepts = λ k. ground arith;
    says_why = λ k. ground arith;
  }

  none-of_open : OpenRule item decision → decision_error item decision ≡ none
  unfolding decision_error
  none-of_open o = ground (arith, o.still_open, o.accepts, o.says_why)

  none-of_remark : RemarkRule item decision → decision_error item decision ≡ none
  unfolding decision_error
  none-of_remark o = ground arith

  -- `decision_error` accepts a decision exactly under one of the two rules: on an open item,
  -- accept needs an active item and a closing decision other than accept needs a rationale; on a
  -- legacy item that is done and bound to no decision, the decision must be terminal and carry a
  -- rationale and evidence. No other done item accepts a decision.
  pub decision_error-eq_none :
      (decision_error item decision ≡ none) ↔ (OpenRule item decision ⊎ RemarkRule item decision)
  decision_error-eq_none = (
    λ h. elim (Bool-cases (is_legacy_remark_target item)) [
      | inl e ↦ inr (remark-of_none e h)
      | inr e ↦ inl (open-of_none e h)
    ],
    λ d. elim d [ inl o ↦ none-of_open o | inr r ↦ none-of_remark r ],
  )
