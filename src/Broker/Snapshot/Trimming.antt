-- ===== src/Broker/Snapshot/Trimming.antt =====
-- The loop of `trim_to_budget` of crates/broker/src/snapshot.rs.
use contextd.Prelude.{
  ℕ, zero, suc, ◌≤◌, ◌<◌, ◌≡◌, refl, subst, sym, ◌∙◌, true, some, arith, leb, tests, ◌⊎◌,
  Bool-cases, Option-cases, inl, inr,
}
use contextd.Text.{Text}
use contextd.Broker.Budget.{estimate_tokens}
use contextd.Broker.Snapshot.{
  ContextSnapshot, packet_cost, trim_once, trim_loop, trim_to_budget, weight,
}
use contextd.Broker.Snapshot.Skeleton.{skeleton, trim_once-some, trim_once-cost, trim_once-none}

module _ (to_json : ContextSnapshot → Text) (budget : ℕ) where
  -- The estimated tokens of a packet as JSON text, with this number as its cost field.
  abbrev pub cost_with : ContextSnapshot → ℕ → ℕ
  cost_with r n = estimate_tokens (to_json (record r { estimated_tokens = n }))

  -- The packet is within the budget, or is this one but for its cost.
  abbrev pub WithinOr : ContextSnapshot → ℕ → ContextSnapshot → Type 0
  WithinOr r n bare =
      (cost_with r n ≤ budget) ⊎ (r ≡ record bare { estimated_tokens = r.estimated_tokens })

  -- What the loop may return for `s`: the skeleton is that of `s`; the cost is what the packet's
  -- text costs; this is within the budget, or nothing but the skeleton is left; and a briefing
  -- that is within the budget loses nothing.
  pub record IsTrimmed (s r : ContextSnapshot) : Type 0 where
    pub bones : skeleton r ≡ skeleton s
    pub cost : r.estimated_tokens ≡ cost_with r s.estimated_tokens
    pub within : WithinOr r s.estimated_tokens (skeleton s)
    pub whole :
        estimate_tokens (to_json s) ≤ budget
        → r ≡ record s { estimated_tokens = r.estimated_tokens }

  trim_loop-IsTrimmed :
      (f : ℕ) (s : ContextSnapshot)
      → weight s < f
      → (r : ContextSnapshot) × (trim_loop to_json f budget s ≡ some r) × IsTrimmed s r
  unfolding trim_loop packet_cost
  trim_loop-IsTrimmed zero s h = absurd (omega arith)
  trim_loop-IsTrimmed (suc f) s h = elim (Bool-cases (leb (packet_cost to_json s) budget)) [
    | inl fits ↦ (
      record s { estimated_tokens = packet_cost to_json s },
      rw fits,
      record { bones = refl; cost = refl; within = inl (omega tests); whole = λ low. refl },
    )
    | inr over ↦ elim (Option-cases (trim_once (record s { truncated = true }))) [
      | inr (smaller, cut) ↦
          let marked : ContextSnapshot = record s { truncated = true } in
          let (same, less) = trim_once-some marked smaller cut in
          let kept = trim_once-cost marked smaller cut in
          let (r, ends, proof) = trim_loop-IsTrimmed f smaller (omega arith) in
          (
            r,
            rw (over, cut, trim_loop) ends,
            record {
              bones = IsTrimmed.bones proof ∙ same;
              cost = subst (λ n. r.estimated_tokens ≡ cost_with r n) kept (IsTrimmed.cost proof);
              within =
                  subst (λ (k : ContextSnapshot). WithinOr r s.estimated_tokens k) same
                    (subst (λ n. WithinOr r n (skeleton smaller)) kept (IsTrimmed.within proof));
              whole = λ low. absurd (omega tests);
            },
          )
      | inl bare ↦
          let marked : ContextSnapshot = record s { truncated = true } in
          let (work, focal, others) = trim_once-none marked bare in
          (
            record marked { estimated_tokens = packet_cost to_json marked },
            rw (over, bare, trim_loop),
            record {
              bones = refl;
              cost = refl;
              within = inr λ i. record marked {
                open_work = sym work i;
                focal_task = sym focal i;
                other_active_tasks = others i;
                estimated_tokens = packet_cost to_json marked;
              };
              whole = λ low. absurd (omega tests);
            },
          )
    ]
  ]

  -- Trimming a briefing to a budget always ends. What it returns has the skeleton of the briefing:
  -- notice, constraints, checks, and of the focal and every open task the intent, the realities,
  -- the first decision, what was ruled out and the next action. Its cost is the estimate for its
  -- JSON text, in which the cost field still has its old value; this is within the budget, or
  -- nothing but the skeleton, marked as truncated, is left. A briefing whose JSON text is within
  -- the budget loses nothing.
  pub trim_to_budget-IsTrimmed :
      (s : ContextSnapshot)
      → (r : ContextSnapshot) × (trim_to_budget to_json s budget ≡ some r) × IsTrimmed s r
  unfolding trim_to_budget
  trim_to_budget-IsTrimmed s = trim_loop-IsTrimmed (suc (weight s)) s (omega arith)
