-- ===== src/Review/Pricing/Nearest.antt =====
-- The cost of a call, against the table.
use codesensei.Common.{ℕ, ◌+◌, ◌*◌, ◌/◌, ◌≤◌, ◌<◌, ◌≡◌, some, Text, arith}
use codesensei.Common.Options.{HasValue}
use codesensei.Review.Pricing.{pricing_per_1m, rates, compute_cost_usd}

-- What the table says in hundredths of a millionth, and a cost that is nearest to it.
abbrev pub exact : ℕ → ℕ → ℕ × ℕ → ℕ
exact prompt completion (in_price, out_price) = prompt * in_price + completion * out_price

abbrev pub IsNearest : ℕ → ℕ → Type 0
IsNearest value cost = (100 * cost ≤ value + 50) × (value < 100 * cost + 50)

IsNearest-rounded : (v : ℕ) → IsNearest v ((v + 50) / 100)
IsNearest-rounded v = (omega arith, omega arith)

-- Where the table has a price for the provider and the model, a call whose tokens are known has a cost,
-- the whole number of millionths nearest to what the table says.
pub compute_cost_usd-IsNearest :
    (provider model : Text) (prompt completion : ℕ) (r : ℕ × ℕ)
    → rates provider model pricing_per_1m ≡ some r
    → HasValue
        (IsNearest (exact prompt completion r))
        (compute_cost_usd provider (some model) (some prompt) (some completion))
unfolding compute_cost_usd
compute_cost_usd-IsNearest provider model prompt completion r h =
    rw h (IsNearest-rounded (exact prompt completion r))
