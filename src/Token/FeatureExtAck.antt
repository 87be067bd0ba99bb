-- ===== src/Token/FeatureExtAck.antt =====
-- lib/token/feature-ext-ack-parser.js. The loop consumes at least one byte a round, so the length of the
-- buffer bounds its rounds.
pub mod Stable
use tedious.Prelude.{
  ℕ, zero, suc, ◌+◌, ◌-◌, length, Bool, not, Option, none, some, ◌==◌, if◌then◌else◌, get_or,
}
use tedious.Buffer.{Buffer}
use tedious.Read.{
  Read, pure, throw, range_error, ◌>>=◌, ◌>>◌, require, advance, read_uint8, read_uint32_le,
}
use tedious.Token.{Token, feature_ext_ack}

pub record Features : Type 0 where
  pub fed_auth : Option Buffer
  pub utf8_support : Option Bool

-- `let fedAuth; let utf8Support;`
abbrev pub no_features : Features
no_features = record { fed_auth = none; utf8_support = none }

-- `switch (featureId)`; `featureData[0]` of empty data is undefined, hence false.
abbrev pub with_feature : ℕ → Buffer → Features → Features
with_feature id feature_data f =
    if id == 0x02
    then record { fed_auth = some feature_data; utf8_support = f.utf8_support }
    else if id == 0x0A
    then record { fed_auth = f.fed_auth; utf8_support = some (not (get_or feature_data 0 0 == 0)) }
    else f

-- `while (true)`: without fuel the value does not matter, see the lemma read_features_fuel of FeatureExtAck/Stable.
unfoldable pub read_features : ℕ → Features → Read Features
unfolding read_uint8 read_uint32_le require advance ◌>>=◌ pure throw
read_features zero f = throw range_error
read_features (suc fuel) f = read_uint8 >>= λ feature_id.
    let more : Read Features = (do
      feature_ack_data_len ← read_uint32_le
      require feature_ack_data_len
      feature_data ← advance feature_ack_data_len
      read_features fuel (with_feature feature_id feature_data f)) in
    if feature_id == 0xFF then pure f else more

-- The token type byte and what is behind it: a round takes a byte at least.
unfoldable pub read_all_features : Read Features
unfolding read_features
read_all_features buf offset = read_features (suc (length buf - offset)) no_features buf offset

unfoldable pub feature_ext_ack_parser : Read Token
unfolding read_all_features ◌>>=◌ pure
feature_ext_ack_parser = do f ← read_all_features; pure (feature_ext_ack f.fed_auth f.utf8_support)
