-- ===== src/Core/Catalog.antt =====
-- crates/yb-core/src/catalog.rs: what a turn costs. An `f64` is its 64 bits, and its arithmetic is a
-- parameter.
use sovereign_gateway.Base.{ℕ, String, ◌||◌, Option, none, some, if◌then◌else◌}
use sovereign_gateway.Base.Int.{ℤ, ◌-ℤ◌, pos, pos_part}
use sovereign_gateway.Core.Deployments.{ModelPrice}
use sovereign_gateway.Base.Text.{to_ascii_lowercase, contains_text}

-- `as f64` of an `i64`, `*`, `+`, and `round() as i64`.
pub record Arithmetic : Type 0 where
  pub of_i64 : ℤ → ℕ
  pub mul : ℕ → ℕ → ℕ
  pub add : ℕ → ℕ → ℕ
  pub round : ℕ → ℤ

-- `ModelPrice::new`: the multipliers are 1.0.
unfoldable pub new_price : ℕ → ℕ → ModelPrice
new_price input output = record {
  input_per_1m = input;
  output_per_1m = output;
  cache_read_multiplier = 0x3ff0000000000000;
  cache_write_multiplier = 0x3ff0000000000000;
}

unfoldable pub cost_micros : Arithmetic → ModelPrice → ℤ → ℤ → ℤ → ℤ → ℤ
unfolding ◌-ℤ◌
cost_micros f p input_tokens output_tokens cache_read_tokens cache_write_tokens =
    let billable_input = pos (pos_part (input_tokens -ℤ cache_read_tokens -ℤ cache_write_tokens)) in
    let input_cost = f.mul (f.of_i64 billable_input) p.input_per_1m in
    let cache_read_cost =
      f.mul (f.mul (f.of_i64 cache_read_tokens) p.input_per_1m) p.cache_read_multiplier in
    let cache_write_cost =
      f.mul (f.mul (f.of_i64 cache_write_tokens) p.input_per_1m) p.cache_write_multiplier in
    let output_cost = f.mul (f.of_i64 output_tokens) p.output_per_1m in
    f.round (f.add (f.add (f.add input_cost cache_read_cost) cache_write_cost) output_cost)

-- The table of prices, by a part of the model's name; the earlier rows win.
unfoldable pub builtin_price : String → Option ModelPrice
unfolding to_ascii_lowercase contains_text new_price
builtin_price model =
    let m = to_ascii_lowercase model in
    if contains_text m "gpt-4o-mini"
    then some (new_price 0x3fc3333333333333 0x3fe3333333333333)
    else if contains_text m "gpt-4o"
    then some (new_price 0x4004000000000000 0x4024000000000000)
    else if contains_text m "gpt-4.1-mini"
    then some (new_price 0x3fd999999999999a 0x3ff999999999999a)
    else if contains_text m "gpt-4.1"
    then some (new_price 0x4000000000000000 0x4020000000000000)
    else if contains_text m "o3-mini"
    then some (new_price 0x3ff199999999999a 0x401199999999999a)
    else if contains_text m "claude-3-5-haiku" || contains_text m "claude-haiku"
    then some (new_price 0x3fe999999999999a 0x4010000000000000)
    else if contains_text m "claude-3-5-sonnet" || contains_text m "claude-sonnet"
    then some (new_price 0x4008000000000000 0x402e000000000000)
    else if contains_text m "claude-opus" || contains_text m "claude-3-opus"
    then some (new_price 0x402e000000000000 0x4052c00000000000)
    else if contains_text m "gemini-1.5-flash" || contains_text m "gemini-2.0-flash"
    then some (new_price 0x3fb3333333333333 0x3fd3333333333333)
    else if contains_text m "gemini-1.5-pro" || contains_text m "gemini-2.5-pro"
    then some (new_price 0x3ff4000000000000 0x4014000000000000)
    else none
