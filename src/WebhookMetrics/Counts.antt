-- ===== src/WebhookMetrics/Counts.antt =====
-- `bump` of src/claudestruct/server/webhook_metrics.py.
use claude_struct.Prelude.{ℕ, ◌+◌, ◌≡◌, arith, [], ◌∷◌, eq_iff, if◌then◌else◌}
use claude_struct.WebhookMetrics.{Label, same_label, Counter, add_to, bump, get, total}

get-add_to :
    (l k : Label) (by : ℕ) (c : Counter)
    → get k (add_to l by c) ≡ get k c + (if same_label l k then by else 0)
unfolding get add_to
get-add_to l k by [] = ground arith
get-add_to l k by ((j, n) ∷ c) = ground (
  arith,
  get-add_to l k by c,
  eq_iff j.path l.path,
  eq_iff j.path k.path,
  eq_iff l.path k.path,
  eq_iff j.reason l.reason,
  eq_iff j.reason k.reason,
  eq_iff l.reason k.reason,
)

total-add_to : (l : Label) (by : ℕ) (c : Counter) → total (add_to l by c) ≡ total c + by
unfolding total add_to
total-add_to l by [] = ground arith
total-add_to l by ((j, n) ∷ c) = ground (arith, total-add_to l by c)

-- A bump adds its amount to the count of its own label and to the total, and to no other count.
pub bump_counts :
    (l : Label) (by : ℕ) (c : Counter)
    → ((k : Label) → get k (bump l by c) ≡ get k c + (if same_label l k then by else 0))
      × (total (bump l by c) ≡ total c + by)
unfolding bump
bump_counts l by c = (λ k. ground (arith, get-add_to l k by c), ground (arith, total-add_to l by c))
