-- ===== src/Callback/Verifier.antt =====
-- The receiver's side: sdk/go/srosha/callback.go. JSON is outside the model: `unmarshal` reads a
-- body into the callback as it arrives.
use srosha.Prelude.{
  ℕ, suc, ◌+◌, ◌-◌, ◌*◌, ◌%◌, ◌^◌, ◌⊎◌, inl, inr, Bool, not, ◌&&◌, ◌||◌, Option, none, some, List,
  map, Text, text_eqb, is_empty, cut, trim_space, to_lower, leb, ltb, if◌then◌else◌, ℤ, pos, negsuc,
  ltb_ℤ,
}
use srosha.Encode.Decimal.{parse_int}
use srosha.Encode.Hex.{decode}
use srosha.Delivery.{Time}
use srosha.LoginCode.{minute}
use srosha.Callback.{
  Header, header_value, signature_header, timestamp_header, signature_version, signed_bytes, second,
  to_unix,
}

-- The errors of `Verify`; `unreadable` is that of an authentic body that is no callback.
pub data Refusal : Type 0 where
  signature_missing signature_invalid callback_too_old unreadable : Refusal

-- `wire` and its results, and what a caller reads.
pub record WireResult : Type 0 where
  pub delivery_id : Text
  pub channel : Text
  pub address : Text
  pub status : Text
  pub settled_at : Time
  pub reason : Text
  pub provider_message_id : Text

pub record Wire : Type 0 where
  pub batch_id : Text
  pub notification_id : Text
  pub sent_at : Time
  pub results : List WireResult

pub record CallbackDelivery : Type 0 where
  pub id : Text
  pub channel : Text
  pub address : Text
  pub status : Text
  pub reason : Text
  pub provider_message_id : Text
  pub settled_at : Time

pub record Callback : Type 0 where
  pub id : Text
  pub notification_id : Text
  pub sent_at : Time
  pub deliveries : List CallbackDelivery

abbrev pub callback_delivery : WireResult → CallbackDelivery
callback_delivery r = record {
  id = r.delivery_id;
  channel = to_lower r.channel;
  address = r.address;
  status = to_lower r.status;
  reason = to_lower r.reason;
  provider_message_id = r.provider_message_id;
  settled_at = r.settled_at;
}

abbrev pub callback_of : Wire → Callback
callback_of w = record {
  id = w.batch_id;
  notification_id = w.notification_id;
  sent_at = w.sent_at;
  deliveries = map callback_delivery w.results;
}

-- `defaultTolerance`.
abbrev pub default_tolerance : ℕ
default_tolerance = 5 * minute

-- What `NewVerifier` refuses: a blank secret, and a tolerance that is not above zero. The
-- tolerance is `WithTolerance`'s, or else the default.
unfoldable pub usable_verifier : Text → Option ℤ → Bool
unfolding trim_space
usable_verifier secret none = not (is_empty (trim_space secret))
usable_verifier secret (some d) = not (is_empty (trim_space secret)) && ltb_ℤ (pos 0) d

-- 1970 on the clock of a `time.Time`: seconds from the year 1 in an int64, here moved up by
-- 2 ^ 63.
abbrev pub unix_epoch : ℕ
unix_epoch = 2 ^ 63 + to_unix

-- `time.Unix(s, 0)`, whose sum wraps around at the upper end.
unfoldable pub instant : ℤ → ℕ
instant (pos s) = ((unix_epoch + s) % 2 ^ 64) * second
instant (negsuc s) = (unix_epoch - suc s) * second

-- A moment, in nanoseconds, on the same axis.
abbrev pub instant_of_now : Time → ℕ
instant_of_now now = 2 ^ 63 * second + now

-- `t.Sub(u)`: an int64 of nanoseconds, which stops at its bounds.
unfoldable pub time_sub : ℕ → ℕ → ℤ
time_sub t u =
    if leb u t
    then pos (if ltb (t - u) (2 ^ 63) then t - u else 2 ^ 63 - 1)
    else if leb (u - t) (2 ^ 63)
    then negsuc (u - t - 1)
    else negsuc (2 ^ 63 - 1)

-- `if drift < 0 { drift = -drift }`: the least int64 is its own negation.
unfoldable pub absolute : ℤ → ℤ
absolute (pos d) = pos d
absolute (negsuc d) = if ltb d (2 ^ 63 - 1) then pos (suc d) else negsuc d

-- `fresh`.
unfoldable pub fresh : ℕ → Time → Text → Refusal ⊎ Unit {0}
unfolding parse_int instant time_sub absolute
fresh tolerance now timestamp = elim (parse_int timestamp) [
  | none ↦ inl signature_invalid
  | some seconds ↦
      if ltb_ℤ (pos tolerance) (absolute (time_sub (instant_of_now now) (instant seconds)))
      then inl callback_too_old
      else inr tt
]

-- `decodeCallback`, behind the reader of the body.
abbrev pub decode_callback : Option Wire → Refusal ⊎ Callback
decode_callback none = inl unreadable
decode_callback (some w) = inr (callback_of w)

abbrev pub after_check {ℓ} : {A : Type ℓ} → Refusal ⊎ Unit {0} → Refusal ⊎ A → Refusal ⊎ A
after_check (inl e) next = inl e
after_check (inr _) next = next

-- `hmac.Equal` behind the reader of the digits.
abbrev pub same_mac : Text → Option Text → Refusal ⊎ Unit {0}
same_mac expected none = inl signature_invalid
same_mac expected (some given) = if text_eqb given expected then inr tt else inl signature_invalid

-- The two halves of a signature, against the bytes that are expected.
unfoldable pub check_halves : Text → Option (Text × Text) → Refusal ⊎ Unit {0}
unfolding decode
check_halves expected none = inl signature_invalid
check_halves expected (some (version, sum)) =
    if not (text_eqb version signature_version)
    then inl signature_invalid
    else same_mac expected (decode sum)

module _ (mac : Text → Text → Text) (unmarshal : Text → Option Wire) where
  -- `check`.
  unfoldable pub check : Text → Text → Text → Text → Refusal ⊎ Unit {0}
  unfolding check_halves cut
  check secret signature timestamp body =
      check_halves (mac secret (signed_bytes timestamp body)) (cut b'=' signature)

  -- `Verify` at the values of the two headers.
  unfoldable pub verify_values : Text → ℕ → Time → Text → Text → Text → Refusal ⊎ Callback
  unfolding check fresh
  verify_values secret tolerance now signature timestamp body =
      if is_empty signature || is_empty timestamp
      then inl signature_missing
      else after_check (check secret signature timestamp body)
          (after_check (fresh tolerance now timestamp) (decode_callback (unmarshal body)))

  -- `Verify`.
  unfoldable pub verify : Text → ℕ → Time → Header → Text → Refusal ⊎ Callback
  unfolding verify_values header_value
  verify secret tolerance now headers body =
      verify_values secret tolerance now (header_value signature_header headers)
        (header_value timestamp_header headers) body
