-- ===== src/Examples/Senders.antt =====
-- The sender registry and the answers of providers, on concrete values.
use srosha.Prelude.{
  ◌≡◌, ◌≤◌, ◌<◌, ◌↔◌, ◌⊎◌, ◌==◌, refl, true, false, none, some, [], ◌∷◌, Text, text, pos,
}
use srosha.Errs.{is_permanent_send, nil}
use srosha.Errs.Result.{ok}
use srosha.Table.{filter_where, order_by}
use srosha.Shared.Channel.{telegram}
use srosha.Vault.{Keyring, Vault, Row}
use srosha.Senders.Answers.{reply_code, classify_email}
use srosha.Senders.Mail.{IsFirst, reply_code-IsFirst}
use srosha.Senders.Judged.{
  Answer, classify, status_of, says_final, says_setup, says_later, classify-final_iff,
}
use srosha.Senders.Judged
use srosha.Senders.Configs.{Outside, telegram_sender}
use srosha.Senders.Registry.{Fallback}
use srosha.Senders.Lookup.{sender_for}

abbrev outside : Outside
outside = record {
  read_telegram = λ t. some [];
  read_bale = λ t. some [];
  read_email = λ t. none;
  read_matrix = λ t. none;
  read_gotify = λ t. none;
  read_whatsapp = λ t. none;
  read_apns = λ t. none;
  parse_address = λ t. true;
  parse_url = λ t. none;
  dial = λ c p. none;
  open_google = λ t. ok (text "project");
  open_apple = λ k c. none;
}

abbrev own : Fallback
own = record {
  telegram_token = text "1:ours";
  bale_token = [];
  whatsapp_token = [];
  whatsapp_number = [];
  matrix_token = [];
  matrix_homeserver = [];
  gotify_token = [];
  gotify_server = [];
  fcm_service_account = [];
  apns_key = [];
  apns_key_id = [];
  apns_team_id = [];
  apns_topic = [];
  apns_environment = [];
  smtp_host = [];
  smtp_port = pos 0;
  smtp_username = [];
  smtp_from = [];
  smtp_password = [];
}

abbrev keys : Keyring
keys = record { seal = λ p a. ok p; open_sealed = λ v a. ok v; needs_reseal = λ v. false }

abbrev bot : Row
bot = record {
  cred = record {
    id = text "k1";
    source_id = text "shop";
    channel = telegram;
    name = text "news";
    created_at = 1;
    updated_at = 1;
    is_default = true;
    is_active = true;
  };
  config = [];
  secret = some (text "2:theirs");
}

abbrev vault : Vault
vault = record { sources = []; rows = bot ∷ [] }

ours_test :
    (sender_for outside own keys 7 (text "cafe") telegram [] (vault, [])).0
    ≡ ok (telegram_sender (text "1:ours") [])
unfolding sender_for order_by filter_where
ours_test = refl

abbrev apple_refused : Answer
apple_refused =
    Judged.fcm 401 (text "" ∷ text "THIRD_PARTY_AUTH_ERROR" ∷ []) (text "UNAUTHENTICATED") 0

classify-final_iff_example : (is_permanent_send (classify apple_refused) ≡ true) ↔ (
    (says_final apple_refused ≡ true)
    ⊎ (((says_setup apple_refused ≡ true) × ((status_of apple_refused == 429) ≡ false))
        ⊎ ((says_later apple_refused ≡ false)
            × (400 ≤ status_of apple_refused)
            × (status_of apple_refused < 500)
            × ((status_of apple_refused == 429) ≡ false))))
classify-final_iff_example = classify-final_iff apple_refused

reply_test : reply_code (text "421 4.3.2 try again") ≡ 421
unfolding reply_code
reply_test = refl

-- A refused connection reads as reply 587: the port.
port_test : reply_code (text "dial tcp 10.0.0.1:587: connect: connection refused") ≡ 587
unfolding reply_code
port_test = refl

abbrev unreachable_server : Text
unreachable_server = text "dial tcp 10.0.0.1:587: connect: connection refused"

reply_code-IsFirst_example :
    IsFirst true unreachable_server (reply_code unreachable_server)
    × ((is_permanent_send (classify_email (reply_code unreachable_server) nil) ≡ true)
        ↔ (500 ≤ reply_code unreachable_server))
reply_code-IsFirst_example = reply_code-IsFirst unreachable_server nil
