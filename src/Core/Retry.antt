-- ===== src/Core/Retry.antt =====
-- core/retry.go: the retry policy, and which errors are worth a retry. A message is a list of bytes.
pub mod Fold
use ao_eo.Base.{
  ℕ, zero, suc, ◌+◌, ◌-◌, ◌≤◌, String, Bool, true, false, ◌&&◌, ◌||◌, List, [], ◌∷◌, ◌++◌, map,
  Option, none, some, ltb, leb, ◌==◌, if◌then◌else◌, codes, ℤ, pos, ltb_ℤ, is_negative,
}

-- `Multiplier` is a float64 of which only its sign is tested.
pub record RetryLimits : Type 0 where
  pub max_retries : ℤ
  pub base_delay : ℤ
  pub max_delay : ℤ
  pub multiplier_negative : Bool

abbrev issue : Bool → String → List String
issue true text = text ∷ []
issue false text = []

-- RetryConfig.Validate
unfoldable pub validate : RetryLimits → List String
validate cfg =
    issue (is_negative cfg.max_retries) "maxRetries must be >= 0"
    ++ issue (is_negative cfg.base_delay) "baseDelay must be >= 0"
    ++ issue (is_negative cfg.max_delay) "maxDelay must be >= 0"
    ++ issue (ltb_ℤ (pos 0) cfg.max_delay && ltb_ℤ cfg.max_delay cfg.base_delay)
        "baseDelay must be <= maxDelay"
    ++ issue cfg.multiplier_negative "multiplier must be >= 0"

unfoldable pub to_lower : ℕ → ℕ
to_lower c = if leb b'A' c && leb c b'Z' then c + 32 else c

-- The inner loop of containsFold: `sub` matches at the start of `s`.
unfoldable pub matches_here : List ℕ → List ℕ → Bool
unfolding to_lower
matches_here s [] = true
matches_here [] (d ∷ sub) = false
matches_here (c ∷ s) (d ∷ sub) = to_lower c == to_lower d && matches_here s sub

-- The outer loop: at each start, the last one being where `sub` just fits.
unfoldable pub contains_fold : List ℕ → List ℕ → Bool
unfolding matches_here
contains_fold [] sub = matches_here [] sub
contains_fold (c ∷ s) sub = matches_here (c ∷ s) sub || contains_fold s sub

abbrev pub transient_patterns : List (List ℕ)
transient_patterns = map codes (
    "timeout" ∷ "deadline exceeded" ∷ "connection refused" ∷ "no such host" ∷ "temporary"
    ∷ "too many requests" ∷ "rate limit" ∷ "503" ∷ "502" ∷ "504" ∷ [])

unfoldable pub matches_any : List ℕ → List (List ℕ) → Bool
unfolding contains_fold
matches_any msg [] = false
matches_any msg (p ∷ ps) = contains_fold msg p || matches_any msg ps

-- What the test reads of an error: whether it is a `net.Error` whose Timeout() holds, and its text.
pub record ErrorView : Type 0 where
  pub net_timeout : Bool
  pub message : List ℕ

-- IsRetryableError; `none` is a nil error.
unfoldable pub is_retryable_error : Option ErrorView → Bool
unfolding matches_any
is_retryable_error none = false
is_retryable_error (some e) = e.net_timeout || matches_any e.message transient_patterns
