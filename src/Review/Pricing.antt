-- ===== src/Review/Pricing.antt =====
-- backend/src/codesensei/review/pricing.py. Prices are in cents for a million tokens, costs in whole
-- millionths of a dollar; halves, where a float may fall on either side, are rounded up.
pub mod Nearest
use codesensei.Common.{
  ℕ, ◌+◌, ◌*◌, ◌/◌, ◌-◌, ◌≤◌, ◌≡◌, refl, Bool, true, false, ◌&&◌, Option, none, some, List, [], ◌∷◌,
  Text, codes, text_eq, if◌then◌else◌, arith,
}
use codesensei.Common.Options.{Holds}

-- A provider, a model, and the prices of its input and of its output.
abbrev pub Price : Type 0
Price = Text × Text × ℕ × ℕ

abbrev pub pricing_per_1m : List Price
pricing_per_1m =
    (codes "openai", codes "gpt-4o-mini", 15, 60)
    ∷ (codes "openai", codes "gpt-4o", 250, 1000)
    ∷ (codes "openai", codes "gpt-4.1-mini", 40, 160)
    ∷ (codes "anthropic", codes "claude-3-5-sonnet-latest", 300, 1500)
    ∷ (codes "anthropic", codes "claude-3-5-haiku-latest", 80, 400)
    ∷ []

unfoldable pub rates : Text → Text → List Price → Option (ℕ × ℕ)
unfolding text_eq
rates provider model [] = none
rates provider model ((p, m, in_price, out_price) ∷ prices) =
    let rest = rates provider model prices in
    if text_eq p provider && text_eq m model then some (in_price, out_price) else rest

abbrev pub rounded : ℕ → ℕ → Option (ℕ × ℕ) → Option ℕ
rounded prompt completion none = none
rounded prompt completion (some (in_price, out_price)) =
    some ((prompt * in_price + completion * out_price + 50) / 100)

unfoldable pub compute_cost_usd : Text → Option Text → Option ℕ → Option ℕ → Option ℕ
unfolding rates
compute_cost_usd provider model none completion = none
compute_cost_usd provider model (some prompt) none = none
compute_cost_usd provider none (some prompt) (some completion) = none
compute_cost_usd provider (some model) (some prompt) (some completion) =
    rounded prompt completion (rates provider model pricing_per_1m)
