-- ===== src/Callback/Trust.antt =====
-- Which callbacks a receiver accepts.
use srosha.Prelude.{
  ℕ, ◌+◌, ◌^◌, ◌<◌, ◌≡◌, refl, ap, ◌⊎◌, inl, inr, ◌++◌, Bool, Option-cases, true, false, not,
  Option, none, some, Text, text, if◌then◌else◌, ◌||◌, is_empty, text_eqb, text_eqb_iff, cut,
  cut_inv, arith, ltb_ℤ, ℤ, pos,
}
use srosha.Encode.Decimal.{parse_int, parse_int-IsInt64}
use srosha.Encode.Hex.{decode}
use srosha.Delivery.{Time}
use srosha.Callback.{
  Header, header_value, signature_header, timestamp_header, signed_bytes, signature_version,
}
use srosha.Callback.Verifier.{
  Refusal, signature_invalid, signature_missing, fresh, check, check_halves, same_mac, verify,
  verify_values, decode_callback, after_check, Wire, Callback, callback_of,
}
use srosha.Callback.Window.{IsRecent, drift, drift_iff}

same_mac_inv :
    (expected : Text) (given : Option Text)
    → same_mac expected given ≡ inr tt
    → given ≡ some expected
same_mac_inv expected none h = cc
same_mac_inv expected (some given) h = ground (arith, h, text_eqb_iff given expected)

unless_wrong :
    (good : Bool) (rest : Refusal ⊎ Unit {0})
    → (if not good then inl signature_invalid else rest) ≡ inr tt
    → (good ≡ true) × (rest ≡ inr tt)
unless_wrong true rest h = (refl, h)
unless_wrong false rest h = cc

pub check_halves_inv :
    (expected : Text) (halves : Option (Text × Text))
    → check_halves expected halves ≡ inr tt
    → (sum : Text) × (halves ≡ some (signature_version, sum)) × (decode sum ≡ some expected)
unfolding check_halves
check_halves_inv expected none h = cc
check_halves_inv expected (some (version, sum)) h =
    let (same, rest) =
      unless_wrong (text_eqb version signature_version) (same_mac expected (decode sum)) h in
    (
      sum,
      ap (λ v. some (v, sum)) ((text_eqb_iff version signature_version).0 same),
      same_mac_inv expected (decode sum) rest,
    )

module _ (mac : Text → Text → Text) (unmarshal : Text → Option Wire) where
  -- What `verify` goes by when it accepts.
  pub record Verified (secret : Text) (tolerance : ℕ) (now : Time) (signature timestamp body : Text)
      (told : Callback) : Type 0 where
    sum : Text
    signed : signature ≡ signature_version ++ (text "=" ++ sum)
    authentic : decode sum ≡ some (mac secret (signed_bytes timestamp body))
    seconds : ℤ
    stamped : parse_int timestamp ≡ some seconds
    recent : IsRecent tolerance now seconds
    wire : Wire
    read : unmarshal body ≡ some wire
    shown : told ≡ callback_of wire

  after_check_inv :
      {A : Type 0} (first : Refusal ⊎ Unit {0}) (next : Refusal ⊎ A) (a : A)
      → after_check first next ≡ inr a
      → (first ≡ inr tt) × (next ≡ inr a)
  after_check_inv (inl e) next a h = cc
  after_check_inv (inr _) next a h = (refl, h)

  check_inv :
      (secret signature timestamp body : Text)
      → check mac unmarshal secret signature timestamp body ≡ inr tt
      → (sum : Text) × (signature ≡ signature_version ++ (text "=" ++ sum))
        × (decode sum ≡ some (mac secret (signed_bytes timestamp body)))
  unfolding check
  check_inv secret signature timestamp body h =
      let (sum, halves, authentic) =
        check_halves_inv (mac secret (signed_bytes timestamp body)) (cut b'=' signature) h in
      (sum, cut_inv b'=' signature signature_version sum halves, authentic)

  fresh_inv :
      (tolerance : ℕ) (now : Time) (timestamp : Text)
      → fresh tolerance now timestamp ≡ inr tt
      → (seconds : ℤ) × (parse_int timestamp ≡ some seconds)
        × (ltb_ℤ (pos tolerance) (drift now seconds) ≡ false)
  unfolding fresh drift
  fresh_inv tolerance now timestamp h = elim (Option-cases (parse_int timestamp)) [
    | inl p ↦ ground (arith, p, h)
    | inr (seconds, p) ↦ (seconds, p, ground (arith, p, h))
  ]

  decode_callback_inv :
      (wire : Option Wire) (told : Callback)
      → decode_callback wire ≡ inr told
      → (w : Wire) × (wire ≡ some w) × (told ≡ callback_of w)
  decode_callback_inv none told h = cc
  decode_callback_inv (some w) told h = (w, refl, cc)

  unless_missing :
      (bare : Bool) (rest : Refusal ⊎ Callback) (told : Callback)
      → (if bare then inl signature_missing else rest) ≡ inr told
      → rest ≡ inr told
  unless_missing true rest told h = cc
  unless_missing false rest told h = h

  -- With a tolerance below the greatest Duration, a callback is accepted only when its signature
  -- is v1= and the hexadecimal digits of the hash of the timestamp and the body under the secret,
  -- the timestamp is a second within the tolerance of now, on either side, or 2 ^ 63 nanoseconds or
  -- more ahead, and the body reads as the callback that is shown.
  pub verify-Verified :
      (secret : Text) (tolerance : ℕ) (now : Time) (headers : Header) (body : Text)
      (told : Callback)
      → tolerance + 1 < 2 ^ 63
      → verify mac unmarshal secret tolerance now headers body ≡ inr told
      → Verified secret tolerance now
          (header_value signature_header headers)
          (header_value timestamp_header headers)
          body
          told
  unfolding verify verify_values
  verify-Verified secret tolerance now headers body told small h =
      let signature = header_value signature_header headers in
      let timestamp = header_value timestamp_header headers in
      let later = after_check (fresh tolerance now timestamp) (decode_callback (unmarshal body)) in
      let first = check mac unmarshal secret signature timestamp body in
      let rest =
        unless_missing (is_empty signature || is_empty timestamp) (after_check first later) told
          h in
      let (checked, onward) = after_check_inv first later told rest in
      let (timely, decoded) =
        after_check_inv (fresh tolerance now timestamp) (decode_callback (unmarshal body)) told
          onward in
      let (sum, signed, authentic) = check_inv secret signature timestamp body checked in
      let (seconds, stamped, recent) = fresh_inv tolerance now timestamp timely in
      let (wire, read, shown) = decode_callback_inv (unmarshal body) told decoded in
      record {
        sum = sum;
        signed = signed;
        authentic = authentic;
        seconds = seconds;
        stamped = stamped;
        recent =
            (drift_iff tolerance now seconds small (parse_int-IsInt64 timestamp seconds stamped)).0
              recent;
        wire = wire;
        read = read;
        shown = shown;
      }
