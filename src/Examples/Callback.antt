-- ===== src/Examples/Callback.antt =====
-- A callback that is signed, posted and verified, on concrete values.
use srosha.Prelude.{
  ◌≡◌, ◌%◌, ◌+◌, ◌↔◌, refl, inl, inr, true, some, none, [], ◌∷◌, ◌++◌, Text, text, length, pos,
  arith,
}
use srosha.Errs.Result.{ok}
use srosha.Webhook.{Webhook}
use srosha.Encode.Decimal.{format_int, IsInt64}
use srosha.Encode.Hex.{encode}
use srosha.Dispatch.Program.{Batch}
use srosha.Callback.{sign, header_value, signature_header, timestamp_header}
use srosha.Callback.Notifier.{Post, Port, post, signed_header}
use srosha.Callback.Verifier.{Wire, fresh, verify, decode_callback, callback_too_old, callback_of}
use srosha.Callback.Window.{from_unix, IsRecent, fresh_iff}
use srosha.Callback.Posted.{verify-post}
use srosha.Callback.Trust.{verify-Verified, Verified}

-- A toy in the place of HMAC.
abbrev digest : Text → Text → Text
digest key message = length (key ++ message) % 256 ∷ []

abbrev port : Port
port = record {
  secret_for = λ source. some (text "whsec_k");
  marshal = λ b. ok (text "{}");
  address_error = λ url. none;
}

abbrev shop_hook : Webhook
shop_hook = record {
  id = text "w1";
  source_id = text "shop";
  callback_url = text "https://shop.example/hook";
  created_at = 1;
  updated_at = 1;
  is_active = true;
  consecutive_failures = 0;
}

abbrev batch : Batch
batch = record { id = text "b1"; notification_id = text "n1"; sent_at = 1; results = [] }

abbrev read_wire : Wire
read_wire = record {
  batch_id = text "b1";
  notification_id = text "n1";
  sent_at = 1;
  results =
      record {
        delivery_id = text "d1";
        channel = text "email";
        address = text "a@b.c";
        status = text "SENT";
        settled_at = 1;
        reason = [];
        provider_message_id = text "p";
      }
      ∷ [];
}

abbrev posted : Post
posted = record {
  url = text "https://shop.example/hook";
  header =
      (text "Content-Type", text "application/json")
      ∷ ((signature_header, text "v1=14") ∷ ((timestamp_header, text "1700000000") ∷ []));
  body = text "{}";
}

post_test : post digest port (from_unix 1_700_000_000 + 5) shop_hook batch ≡ ok posted
unfolding post sign signed_header format_int encode
post_test = refl

verify-post_example :
    verify digest
      (λ body. some read_wire)
      (text "whsec_k")
      60_000_000_000
      (from_unix 1_700_000_030)
      posted.header
      posted.body
    ≡ decode_callback (some read_wire)
verify-post_example =
    verify-post digest (λ body. some read_wire) port (from_unix 1_700_000_000 + 5)
      (from_unix 1_700_000_030) 60_000_000_000 shop_hook batch (text "whsec_k") posted
      (λ key message. (omega arith, tt)) refl post_test (omega arith) (omega arith) (omega arith)
      (omega arith) (omega arith)

verify-Verified_example :
    Verified digest
      (λ body. some read_wire)
      (text "whsec_k")
      60_000_000_000
      (from_unix 1_700_000_030)
      (header_value signature_header posted.header)
      (header_value timestamp_header posted.header)
      posted.body
      (callback_of read_wire)
verify-Verified_example =
    verify-Verified digest (λ body. some read_wire) (text "whsec_k") 60_000_000_000
      (from_unix 1_700_000_030) posted.header posted.body (callback_of read_wire) (omega arith)
      verify-post_example

-- A minute before and a minute after, and the year 2262.
stale_test :
    fresh 60_000_000_000 (from_unix 1_700_000_061) (text "1700000000") ≡ inl callback_too_old
unfolding fresh
stale_test = refl

far_test : fresh 60_000_000_000 (from_unix 1_700_000_000) (text "99999999999") ≡ inr tt
unfolding fresh
far_test = refl

fresh_iff_example :
    (fresh 60_000_000_000 (from_unix 1_700_000_000) (format_int (pos 1_700_000_001)) ≡ inr tt)
    ↔ IsRecent 60_000_000_000 (from_unix 1_700_000_000) (pos 1_700_000_001)
unfolding IsInt64
fresh_iff_example =
    fresh_iff 60_000_000_000 (from_unix 1_700_000_000) (pos 1_700_000_001) (omega arith)
      (omega arith)
