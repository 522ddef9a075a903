-- ===== src/Senders/Registry.antt =====
-- internal/adapter/sender/registry.go: whose identity a message goes out with.
use srosha.Prelude.{
  Bool, not, ◌&&◌, Option, none, some, [], Text, is_empty, trim_space, if◌then◌else◌, ℤ, pos,
}
use srosha.Errs.{Error, app, invalid_input, detailed, no_sender_configured}
use srosha.Errs.Result.{Result, ok, err, ◌>>=◌, ◌>>◌, refuse_if}
use srosha.Shared.Channel.{
  Channel, telegram, bale, email, matrix, gotify, whatsapp, fcm, apns, other,
}
use srosha.Senders.Configs.{
  Outside, Sender, telegram_sender, bale_sender, fcm_sender, apns_sender, EmailConfig, ApnsConfig,
  plain_refusal, parsed, new_bot, new_email, new_matrix, new_gotify, new_whatsapp, validate_email,
  validate_matrix, validate_gotify, validate_whatsapp, validate_apns,
}

-- srosha's own identities.
pub record Fallback : Type 0 where
  pub telegram_token : Text
  pub bale_token : Text
  pub whatsapp_token : Text
  pub whatsapp_number : Text
  pub matrix_token : Text
  pub matrix_homeserver : Text
  pub gotify_token : Text
  pub gotify_server : Text
  pub fcm_service_account : Text
  pub apns_key : Text
  pub apns_key_id : Text
  pub apns_team_id : Text
  pub apns_topic : Text
  pub apns_environment : Text
  pub smtp_host : Text
  pub smtp_port : ℤ
  pub smtp_username : Text
  pub smtp_from : Text
  pub smtp_password : Text

-- `noSender`.
abbrev pub no_sender : Error
no_sender = detailed invalid_input no_sender_configured

-- What JSON leaves unset.
abbrev pub unset_email : EmailConfig
unset_email = record { host = []; port = pos 0; username = []; from = []; content_type = [] }

abbrev pub unset_apns : ApnsConfig
unset_apns = record { key_id = []; team_id = []; topic = []; environment = [] }

module _ (o : Outside) (own : Fallback) where
  unusable : {A : Type 0} → Result A → Result A
  unusable (ok a) = ok a
  unusable (err e) = err (app invalid_input e)

  project : Text → Result Sender
  project id = if is_empty (trim_space id) then err plain_refusal else ok (fcm_sender id)

  -- `buildFCM`, with `fcm.New`.
  unfoldable pub build_fcm : Text → Result Sender
  unfolding trim_space unusable project
  build_fcm service_account = do
    refuse_if (is_empty (trim_space service_account)) plain_refusal
    id ← unusable (o.open_google service_account)
    project id

  signed_by : Option Error → Result (Unit {0})
  signed_by none = ok tt
  signed_by (some e) = err (app invalid_input e)

  -- `buildAPNs`, with `apns.New`.
  unfoldable pub build_apns : ApnsConfig → Text → Result Sender
  unfolding trim_space signed_by validate_apns
  build_apns cfg key = do
    refuse_if (is_empty (trim_space key)) plain_refusal
    signed_by (o.open_apple key cfg)
    checked ← validate_apns o cfg
    ok (apns_sender checked key)

  -- `build`: the settings and the secret as they are stored.
  unfoldable pub build : Channel → Text → Text → Result Sender
  unfolding new_bot new_email new_matrix new_gotify new_whatsapp validate_email validate_matrix
      validate_gotify validate_whatsapp validate_apns build_fcm build_apns
  build telegram config secret = new_bot o telegram_sender o.read_telegram secret config
  build bale config secret = new_bot o bale_sender o.read_bale secret config
  build email config secret = do
    raw ← parsed unset_email o.read_email config
    cfg ← validate_email o raw
    new_email o cfg secret
  build matrix config secret = do
    raw ← parsed (record { homeserver = [] }) o.read_matrix config
    cfg ← validate_matrix o raw
    new_matrix o secret cfg
  build gotify config secret = do
    raw ← parsed (record { server_url = []; content_type = [] }) o.read_gotify config
    cfg ← validate_gotify o raw
    new_gotify o secret cfg
  build whatsapp config secret = do
    raw ← parsed (record { phone_number_id = [] }) o.read_whatsapp config
    cfg ← validate_whatsapp o raw
    new_whatsapp o secret cfg
  build fcm config secret = build_fcm secret
  build apns config secret = do
    raw ← parsed unset_apns o.read_apns config
    cfg ← validate_apns o raw
    build_apns cfg secret
  build (other c) config secret = err no_sender

  -- `buildOwn`.
  unfoldable pub build_own : Channel → Text → Result Sender
  unfolding build
  build_own c token = if is_empty token then err no_sender else build c [] token

  -- `configured` in front of the sender.
  configured : Bool → Result Sender → Result Sender
  configured complete made = if complete then made else err no_sender

  -- `ours`.
  unfoldable pub ours : Channel → Result Sender
  unfolding build_own configured new_email new_matrix new_gotify new_whatsapp build_fcm build_apns
  ours telegram = build_own telegram own.telegram_token
  ours bale = build_own bale own.bale_token
  ours email = configured (not (is_empty own.smtp_host) && not (is_empty own.smtp_from)) (
      new_email o
        (record {
          host = own.smtp_host;
          port = own.smtp_port;
          username = own.smtp_username;
          from = own.smtp_from;
          content_type = [];
        })
        own.smtp_password)
  ours matrix =
      configured (not (is_empty own.matrix_token) && not (is_empty own.matrix_homeserver))
        (new_matrix o own.matrix_token (record { homeserver = own.matrix_homeserver }))
  ours gotify =
      configured (not (is_empty own.gotify_token) && not (is_empty own.gotify_server)) (
        new_gotify o own.gotify_token
          (record { server_url = own.gotify_server; content_type = [] }))
  ours whatsapp =
      configured (not (is_empty own.whatsapp_token) && not (is_empty own.whatsapp_number))
        (new_whatsapp o own.whatsapp_token (record { phone_number_id = own.whatsapp_number }))
  ours fcm = configured (not (is_empty own.fcm_service_account)) (build_fcm own.fcm_service_account)
  ours apns =
      configured
        (not (is_empty own.apns_key)
          && not (is_empty own.apns_key_id)
          && not (is_empty own.apns_team_id)
          && not (is_empty own.apns_topic))
        (build_apns
          (record {
            key_id = own.apns_key_id;
            team_id = own.apns_team_id;
            topic = own.apns_topic;
            environment = own.apns_environment;
          })
          own.apns_key)
  ours (other c) = err no_sender
