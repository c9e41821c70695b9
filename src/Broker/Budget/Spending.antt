-- ===== src/Broker/Budget/Spending.antt =====
-- A sequence of `try_spend` of crates/broker/src/budget.rs, and its balance.
use contextd.Prelude.{
  ℕ, ◌+◌, ◌≤◌, ◌≡◌, refl, ◌||◌, List, ◌<◌, ◌⊎◌, inl, inr, [], ◌∷◌, arith, ltb, length,
  if◌then◌else◌,
}
use native.Mathlib.Decide.{dec_le}
use contextd.Text.{Text}
use contextd.Broker.Budget.{TokenBudget, new, try_spend, estimate_tokens, truncated}

-- The texts are offered in turn; those that fit are kept.
unfoldable pub offer : TokenBudget → List Text → TokenBudget × List Text
offer b [] = (b, [])
offer b (t ∷ ts) =
    let (b', fits) = try_spend b t in
    let (b'', kept) = offer b' ts in (b'', if fits then t ∷ kept else kept)

abbrev pub total_cost : List Text → ℕ
total_cost [] = 0
total_cost (t ∷ ts) = estimate_tokens t + total_cost ts

offer-balance :
    (b : TokenBudget) (ts : List Text)
    → ((offer b ts).0.remaining + total_cost (offer b ts).1 ≡ b.remaining)
      × ((offer b ts).0.spent ≡ b.spent + total_cost (offer b ts).1)
unfolding offer try_spend
offer-balance b [] = omega arith
offer-balance b (t ∷ ts) = ground (arith, offer-balance (try_spend b t).0 ts)

length-offer : (b : TokenBudget) (ts : List Text) → length (offer b ts).1 ≤ length ts
unfolding offer
length-offer b [] = omega arith
length-offer b (t ∷ ts) = ground (arith, length-offer (try_spend b t).0 ts)

offer-truncated :
    (b : TokenBudget) (ts : List Text)
    → truncated (offer b ts).0 ≡ (truncated b || ltb (length (offer b ts).1) (length ts))
unfolding offer try_spend
offer-truncated b [] = ground arith
offer-truncated b (t ∷ ts) =
    ground (arith, offer-truncated (try_spend b t).0 ts, length-offer (try_spend b t).0 ts)

-- What fits as a whole is kept as a whole.
offer-all : (b : TokenBudget) (ts : List Text) → total_cost ts ≤ b.remaining → (offer b ts).1 ≡ ts
unfolding offer try_spend
offer-all b [] h = refl
offer-all b (t ∷ ts) h = ground (arith, offer-all (try_spend b t).0 ts)

-- Texts that are offered to a new budget in turn: what is kept costs what is booked as spent, the
-- rest is what remains, so the total is never exceeded; the budget says that it was truncated
-- exactly if some text was left out; and none is left out unless all together cost
-- more than the total.
pub offer_lem :
    (total : ℕ) (ts : List Text)
    → ((offer (new total) ts).0.spent ≡ total_cost (offer (new total) ts).1)
      × ((offer (new total) ts).0.remaining + (offer (new total) ts).0.spent ≡ total)
      × (truncated (offer (new total) ts).0 ≡ ltb (length (offer (new total) ts).1) (length ts))
      × (((offer (new total) ts).1 ≡ ts) ⊎ (total < total_cost ts))
unfolding new
offer_lem total ts =
    let (left, booked) = offer-balance (new total) ts in
    (omega (arith, booked), omega arith, offer-truncated (new total) ts, all_or_more)
  where
    all_or_more : ((offer (new total) ts).1 ≡ ts) ⊎ (total < total_cost ts)
    all_or_more = elim (dec_le (total_cost ts) total) [
      | yes fits ↦ inl (offer-all (new total) ts fits)
      | no more ↦ inr (omega arith)
    ]
