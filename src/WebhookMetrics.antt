-- ===== src/WebhookMetrics.antt =====
-- src/claudestruct/server/webhook_metrics.py: the counter of swallowed outbound failures. Its lock makes
-- each method one step; `by` is a natural number, so the guard `by <= 0` is `by == 0`.
pub mod Counts
use claude_struct.Prelude.{
  ℕ, ◌+◌, Bool, ◌&&◌, String, Option, none, some, List, [], ◌∷◌, ◌==◌, str_eq, if◌then◌else◌,
  sum_of,
}

pub record Label : Type 0 where
  pub path : String
  pub reason : String

abbrev pub same_label : Label → Label → Bool
same_label a b = str_eq a.path b.path && str_eq a.reason b.reason

-- `_counts`.
abbrev pub Counter : Type 0
Counter = List (Label × ℕ)

-- `self._counts[(path, reason)] += by` on a `defaultdict(int)`.
unfoldable pub add_to : Label → ℕ → Counter → Counter
add_to l by [] = (l, by) ∷ []
add_to l by ((k, n) ∷ c) = if same_label k l then (k, n + by) ∷ c else (k, n) ∷ add_to l by c

unfoldable pub bump : Label → ℕ → Counter → Counter
bump l by c = if by == 0 then c else add_to l by c

-- `self._counts.get((path, reason), 0)`.
unfoldable pub get : Label → Counter → ℕ
get l [] = 0
get l ((k, n) ∷ c) = if same_label k l then n else get l c

unfoldable pub total : Counter → ℕ
total c = sum_of (λ e. e.1) c

unfoldable pub reset : Counter → Counter
reset c = []
