-- ===== src/Core/Pricing.antt =====
-- core/pricing.go: the cost of a call. A price is counted in millionths of its currency for a thousand
-- tokens, as Cost itself rounds it; a cost in millionths. Numbers of tokens are not negative.
pub mod Charges
use ao_eo.Base.{
  ℕ, suc, ◌-◌, ◌*◌, ◌/◌, ◌%◌, ◌^◌, String, Bool, ◌&&◌, ltb, if◌then◌else◌, str_eq, ℤ, pos, negsuc,
  pos_part, diff, ◌+ℤ◌, is_negative, is_nonpos,
}
use ao_eo.Core.Types.{Usage}

pub record Pricing : Type 0 where
  pub prompt_per_1k : ℤ
  pub completion_per_1k : ℤ
  pub currency : String

-- A product of int64 values that are not negative, wrapped round
unfoldable pub wrap64 : ℕ → ℤ
wrap64 n = let r = n % 2 ^ 64 in if ltb r (2 ^ 63) then pos r else negsuc (2 ^ 64 - 1 - r)

-- Go's division, towards zero
unfoldable pub div_1000 : ℤ → ℤ
div_1000 (pos n) = pos (n / 1000)
div_1000 (negsuc n) = diff 0 (suc n / 1000)

-- A negative price counts as none.
unfoldable pub charged : ℤ → ℕ
charged price = if is_negative price then 0 else pos_part price

-- Usage.Cost
unfoldable pub cost : Usage → Pricing → ℤ
unfolding wrap64 div_1000 charged
cost u p =
    if is_nonpos p.prompt_per_1k && is_nonpos p.completion_per_1k
    then pos 0
    else div_1000 (wrap64 (u.prompt_tokens * charged p.prompt_per_1k))
      +ℤ div_1000 (wrap64 (u.completion_tokens * charged p.completion_per_1k))

abbrev price : ℕ → ℕ → Pricing
price prompt completion = record {
  prompt_per_1k = pos (prompt * 1_000_000);
  completion_per_1k = pos (completion * 1_000_000);
  currency = "CNY";
}

-- DefaultPricing
unfoldable pub default_pricing : String → String → Pricing
default_pricing name model =
    if str_eq name "deepseek"
    then (if str_eq model "deepseek-v4-pro" then price 2 8 else price 1 2)
    else if str_eq name "kimi"
    then price 3 12
    else if str_eq name "glm"
    then price 5 5
    else if str_eq name "qwen"
    then price 5 10
    else price 0 0
