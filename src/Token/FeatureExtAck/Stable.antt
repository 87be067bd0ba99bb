-- ===== src/Token/FeatureExtAck/Stable.antt =====
-- The loop of lib/token/feature-ext-ack-parser.js: its fuel, and the parser on a buffer that grows.
use tedious.Prelude.{
  ℕ, zero, suc, ◌+◌, ◌-◌, ◌≤◌, ◌<◌, ◌≡◌, refl, sym, ap, ◌∙◌, ◌++◌, ◌==◌, length, length-append,
  arith,
}
use tedious.Buffer.{Buffer, slice, le}
use tedious.Read.{pure, read_uint8, read_uint32_le, ◌>>=◌, advance}
use tedious.Read.Stable.{
  IsStable, Settles, moved, bind-IsStable, pure-IsStable, throw-IsStable, if-IsStable, weaken,
}
use tedious.Read.Loops.{continue-same, fixed-end, require-same, if-same}
use tedious.Read.Fixed.{require-IsStable, advance-bind-IsStable}
use tedious.Read.Variable.{read_uint8-IsStable, read_uint32_le-IsStable}
use tedious.Token.FeatureExtAck.{
  Features, no_features, with_feature, read_features, read_all_features, feature_ext_ack_parser,
}

read_features-IsStable : (fuel : ℕ) (f : Features) → IsStable 0 (read_features fuel f)
unfolding read_features
read_features-IsStable zero f = throw-IsStable _
read_features-IsStable (suc fuel) f = bind-IsStable _ _ read_uint8-IsStable λ id.
    if-IsStable _ _ _ (pure-IsStable f) (
      bind-IsStable _ _ read_uint32_le-IsStable λ l. require-IsStable l _ (
        advance-bind-IsStable l _ (omega arith)
          λ bytes. weaken (read_features-IsStable fuel (with_feature id bytes f))))

module _ (buf : Buffer) where
  -- From an offset inside the buffer, more fuel than bytes are left is enough for the loop of
  -- featureExtAckParser, and any more changes nothing.
  pub read_features_fuel :
      (m n : ℕ) (f : Features) (offset : ℕ)
      → offset ≤ length buf
      → length buf - offset < m
      → length buf - offset < n
      → read_features m f buf offset ≡ read_features n f buf offset
  unfolding read_features read_uint8 read_uint32_le ◌>>=◌ advance
  read_features_fuel zero n f offset h hm hn = absurd (omega arith)
  read_features_fuel (suc m) zero f offset h hm hn = absurd (omega arith)
  read_features_fuel (suc m) (suc n) f offset h hm hn =
      continue-same (read_uint8 buf offset) _ _ buf λ id o e.
        if-same buf (id == 0xFF) (pure f) _ _ o (
          continue-same (read_uint32_le buf o) _ _ buf λ l o' e'. require-same buf l o' _ _ λ fits.
            read_features_fuel m n (with_feature id (slice buf o' (o' + l)) f) (o' + l) fits
              (omega (arith, fixed-end 1 le buf offset id o e, fixed-end 4 le buf o l o' e'))
              (omega (arith, fixed-end 1 le buf offset id o e, fixed-end 4 le buf o l o' e')))

read_all_features_lem :
    (buf : Buffer) (offset k : ℕ)
    → length buf - offset ≡ k
    → read_all_features buf offset ≡ read_features (suc k) no_features buf offset
unfolding read_all_features
read_all_features_lem buf offset k e = ap (λ k. read_features (suc k) no_features buf offset) e

all-shift :
    (front buf : Buffer) (offset : ℕ)
    → read_all_features (front ++ buf) (length front + offset)
      ≡ moved (length front) (read_all_features buf offset)
all-shift front buf offset =
    read_all_features_lem (front ++ buf) (length front + offset) (length buf - offset)
      (omega (arith, length-append front buf))
    ∙ (read_features-IsStable (suc (length buf - offset)) no_features).shift front buf offset
    ∙ ap (moved (length front)) (sym (read_all_features_lem buf offset (length buf - offset) refl))

-- With the fuel of a longer buffer.
all-longer :
    (buf more : Buffer) (offset : ℕ)
    → offset ≤ length buf
    → read_all_features buf offset
      ≡ read_features (suc (length (buf ++ more) - offset)) no_features buf offset
all-longer buf more offset h =
    read_all_features_lem buf offset (length buf - offset) refl
    ∙ read_features_fuel buf (suc (length buf - offset)) (suc (length (buf ++ more) - offset))
        no_features offset h (omega arith) (omega (arith, length-append buf more))

all-settled :
    (buf more : Buffer) (offset : ℕ)
    → offset ≤ length buf
    → Settles (read_all_features buf offset) (read_all_features (buf ++ more) offset)
all-settled buf more offset h =
    rw
      (
        all-longer buf more offset h,
        read_all_features_lem (buf ++ more) offset (length (buf ++ more) - offset) refl,
      )
      ((read_features-IsStable (suc (length (buf ++ more) - offset)) no_features).settled buf more
        offset (omega arith))

read_all_features-IsStable : {n : ℕ} → IsStable n read_all_features
read_all_features-IsStable = weaken (record {
  shift = all-shift;
  settled = λ buf more offset h. all-settled buf more offset (omega arith);
  bounded = λ buf offset a end h e.
      (read_features-IsStable (suc (length buf - offset)) no_features).bounded buf offset a end h
        (sym (read_all_features_lem buf offset (length buf - offset) refl) ∙ e);
})

pub feature_ext_ack_parser-IsStable : {n : ℕ} → IsStable n (feature_ext_ack_parser)
unfolding feature_ext_ack_parser
feature_ext_ack_parser-IsStable = bind-IsStable _ _ read_all_features-IsStable λ f. pure-IsStable _
