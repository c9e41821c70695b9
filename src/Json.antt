-- ===== src/Json.antt =====
-- What the modelled crates use of `serde_json`: a payload is a value of an unknown type `V`, read
-- through these operations. No law of them is assumed.
use contextd.Prelude.{ℕ, Option, none, some}
use contextd.Prelude.Int.{ℤ}
use contextd.Text.{Text}

pub record Json (V : Type 0) : Type 0 where
  -- `value.get(key)`
  pub get : V → Text → Option V
  -- `value.as_str()`, `value.as_i64()`, `value.as_u64()`
  pub as_str : V → Option Text
  pub as_i64 : V → Option ℤ
  pub as_u64 : V → Option ℕ
  -- `value.to_string()`
  pub to_string : V → Text

module _ {V : Type 0} (json : Json V) where
  -- `payload.get(key).and_then(Value::as_str)` and its sisters
  unfoldable pub str_at : V → Text → Option Text
  str_at v key = elim (json.get v key) [ none ↦ none | some w ↦ json.as_str w ]

  unfoldable pub i64_at : V → Text → Option ℤ
  i64_at v key = elim (json.get v key) [ none ↦ none | some w ↦ json.as_i64 w ]

  unfoldable pub u64_at : V → Text → Option ℕ
  u64_at v key = elim (json.get v key) [ none ↦ none | some w ↦ json.as_u64 w ]
