-- ===== src/Examples/Briefing.antt =====
-- The theorems on the token budget and on the trimming of a briefing, at small inputs.
use contextd.Prelude.{
  ◌+◌, ◌≤◌, ◌<◌, ◌*◌, ◌≡◌, ◌⊎◌, false, none, some, List, [], ◌∷◌, arith, ltb, length,
}
use contextd.Text.{Text, byte_len, len_utf8}
use contextd.Core.Claim.{inferred, user, active}
use contextd.Broker.Budget.{new, estimate_tokens, fit_to_tokens, truncated}
use contextd.Broker.Budget.Spending.{offer, offer_lem, total_cost}
use contextd.Broker.Budget.Fitting.{fit_to_tokens-fits}
use contextd.Broker.Snapshot.{ContextSnapshot, trim_to_budget}
use contextd.Broker.Snapshot.Trimming.{trim_to_budget-IsTrimmed, IsTrimmed}
use contextd.Broker.Snapshot.View.{FocalTaskView, RenderedClaim}

-- Seven letters for two tokens: three letters and an ellipsis.
fit_to_tokens-fits_example :
    (r : Text) × (fit_to_tokens (65 ∷ 66 ∷ 67 ∷ 68 ∷ 69 ∷ 70 ∷ 71 ∷ []) 2 ≡ some r)
    × (estimate_tokens r ≤ 2)
    × ((r ≡ 65 ∷ 66 ∷ 67 ∷ 68 ∷ 69 ∷ 70 ∷ 71 ∷ [])
        ⊎ (2 * 3 < byte_len (65 ∷ 66 ∷ 67 ∷ 68 ∷ 69 ∷ 70 ∷ 71 ∷ [])))
unfolding byte_len len_utf8
fit_to_tokens-fits_example =
    fit_to_tokens-fits (65 ∷ 66 ∷ 67 ∷ 68 ∷ 69 ∷ 70 ∷ 71 ∷ []) 2 (omega arith)

-- The second of three texts does not fit.
abbrev three_texts : List Text
three_texts = (65 ∷ []) ∷ (65 ∷ 66 ∷ 67 ∷ 68 ∷ []) ∷ (66 ∷ []) ∷ []

offer_lem_example :
    ((offer (new 2) three_texts).0.spent ≡ total_cost (offer (new 2) three_texts).1)
    × ((offer (new 2) three_texts).0.remaining + (offer (new 2) three_texts).0.spent ≡ 2)
    × (truncated (offer (new 2) three_texts).0
        ≡ ltb (length (offer (new 2) three_texts).1) (length three_texts))
    × (((offer (new 2) three_texts).1 ≡ three_texts) ⊎ (2 < total_cost three_texts))
offer_lem_example = offer_lem 2 three_texts

-- A briefing on one task, with two decisions and an artifact, that never fits.
abbrev first_decision : RenderedClaim
first_decision = record {
  id = 1 ∷ [];
  text = 65 ∷ [];
  confidence = inferred;
  origin = user;
  evidence_ids = [];
}

abbrev focal : FocalTaskView
focal = record {
  id = 7 ∷ [];
  status = active;
  intent = none;
  constraints = [];
  reality = [];
  decisions = first_decision ∷ first_decision ∷ [];
  ruled_out = [];
  unknowns = [];
  next_action = none;
  artifacts = (66 ∷ []) ∷ [];
}

abbrev briefing : ContextSnapshot
briefing = record {
  session_id = none;
  notice = 67 ∷ [];
  constraints = [];
  passed_checks = [];
  open_work = focal ∷ [];
  focal_task = some focal;
  other_active_tasks = record { id = 8 ∷ []; status = active; summary = [] } ∷ [];
  truncated = false;
  estimated_tokens = 0;
}

abbrev four_bytes : ContextSnapshot → Text
four_bytes s = 65 ∷ 66 ∷ 67 ∷ 68 ∷ []

trim_to_budget-IsTrimmed_example :
    (r : ContextSnapshot) × (trim_to_budget four_bytes briefing 1 ≡ some r)
    × IsTrimmed four_bytes 1 briefing r
trim_to_budget-IsTrimmed_example = trim_to_budget-IsTrimmed four_bytes 1 briefing
