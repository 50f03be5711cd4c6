-- ===== src/Pricing/Usage.antt =====
-- The token counts of a response: `responseUsage` of internal/app/pricing.go, and `usageCost` of
-- stats.go. A count is an int64.
use codex_balancer.Prelude.{
  if◌then◌else◌, Bool, ◌&&◌, ℤ, pos, int_compare, int64, ◌+ℤ◌, ◌-ℤ◌, ◌*ℤ◌, is_lt, is_eq,
}

abbrev pub add64 : ℤ → ℤ → ℤ
add64 a b = int64 (a +ℤ b)

abbrev pub sub64 : ℤ → ℤ → ℤ
sub64 a b = int64 (a -ℤ b)

abbrev pub mul64 : ℤ → ℤ → ℤ
mul64 a b = int64 (a *ℤ b)

-- `max` and `<` on int64.
abbrev pub max64 : ℤ → ℤ → ℤ
max64 a b = if is_lt (int_compare a b) then b else a

abbrev pub lt64 : ℤ → ℤ → Bool
lt64 a b = is_lt (int_compare a b)

abbrev is_none : ℤ → Bool
is_none a = is_eq (int_compare a (pos 0))

pub record ResponseUsage : Type 0 where
  pub input_tokens : ℤ
  pub output_tokens : ℤ
  pub total_tokens : ℤ
  pub cached_tokens : ℤ
  pub cache_write_tokens : ℤ
  pub reasoning_tokens : ℤ

abbrev pub no_usage : ResponseUsage
no_usage = record {
  input_tokens = pos 0;
  output_tokens = pos 0;
  total_tokens = pos 0;
  cached_tokens = pos 0;
  cache_write_tokens = pos 0;
  reasoning_tokens = pos 0;
}

unfoldable pub empty : ResponseUsage → Bool
empty u =
    is_none u.input_tokens
    && is_none u.output_tokens
    && is_none u.total_tokens
    && is_none u.cached_tokens
    && is_none u.cache_write_tokens
    && is_none u.reasoning_tokens

unfoldable pub add_usage : ResponseUsage → ResponseUsage → ResponseUsage
add_usage u other = record {
  input_tokens = add64 u.input_tokens other.input_tokens;
  output_tokens = add64 u.output_tokens other.output_tokens;
  total_tokens = add64 u.total_tokens other.total_tokens;
  cached_tokens = add64 u.cached_tokens other.cached_tokens;
  cache_write_tokens = add64 u.cache_write_tokens other.cache_write_tokens;
  reasoning_tokens = add64 u.reasoning_tokens other.reasoning_tokens;
}

unfoldable pub context_tokens : ResponseUsage → ℤ
context_tokens u =
    if lt64 (pos 0) u.total_tokens then u.total_tokens else add64 u.input_tokens u.output_tokens

unfoldable pub non_cached_input : ResponseUsage → ℤ
non_cached_input u = max64 (sub64 u.input_tokens (max64 u.cached_tokens (pos 0))) (pos 0)

pub record UsageCost : Type 0 where
  pub api_cost_nano_dollars : ℤ
  pub unpriced_responses : ℤ

abbrev pub no_cost : UsageCost
no_cost = record { api_cost_nano_dollars = pos 0; unpriced_responses = pos 0 }

-- What an estimate gives: a price, and whether it is known.
unfoldable pub add_cost : UsageCost → ℤ × Bool → UsageCost
add_cost c (cost, known) =
    if known
    then record c { api_cost_nano_dollars = add64 c.api_cost_nano_dollars cost }
    else record c { unpriced_responses = add64 c.unpriced_responses (pos 1) }
