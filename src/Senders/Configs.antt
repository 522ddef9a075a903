-- ===== src/Senders/Configs.antt =====
-- The settings of the senders, checked: `validate`, `ParseConfig` and `New` of
-- internal/adapter/sender/*/config.go and sender.go. What the decoder of JSON, net/url and net/mail
-- make of a text, and whether a mail server, Google or Apple take an identity, is given. The
-- clients are those that the registry was built with.
use srosha.Prelude.{
  ℕ, Bool, not, ◌&&◌, ◌||◌, Option, none, some, [], ◌∷◌, Text, text, text_eqb, is_empty, is_digit,
  is_lower, is_upper, all, trim_space, to_lower, ◌==◌, if◌then◌else◌, ℤ,
}
use mathlib.Core.List.{reverse}
use srosha.Errs.{Error, app, nil, str, both, invalid_input}
use srosha.Errs.Result.{Result, ok, err, ◌>>=◌, ◌>>◌, refuse_if}

pub record EmailConfig : Type 0 where
  pub host : Text
  pub port : ℤ
  pub username : Text
  pub from : Text
  pub content_type : Text

pub record MatrixConfig : Type 0 where
  pub homeserver : Text

pub record GotifyConfig : Type 0 where
  pub server_url : Text
  pub content_type : Text

pub record WhatsappConfig : Type 0 where
  pub phone_number_id : Text

pub record ApnsConfig : Type 0 where
  pub key_id : Text
  pub team_id : Text
  pub topic : Text
  pub environment : Text

-- What is read of a `*url.URL`.
pub record Address : Type 0 where
  pub scheme : Text
  pub host : Text
  pub has_user : Bool
  pub path : Text
  pub query : Text
  pub fragment : Text

pub record Outside : Type 0 where
  pub read_telegram : Text → Option Text
  pub read_bale : Text → Option Text
  pub read_email : Text → Option EmailConfig
  pub read_matrix : Text → Option MatrixConfig
  pub read_gotify : Text → Option GotifyConfig
  pub read_whatsapp : Text → Option WhatsappConfig
  pub read_apns : Text → Option ApnsConfig
  pub parse_address : Text → Bool
  pub parse_url : Text → Option Address
  pub dial : EmailConfig → Text → Option Error
  pub open_google : Text → Result Text
  pub open_apple : Text → ApnsConfig → Option Error

-- A sender with the identity it was given.
pub data Sender : Type 0 where
  telegram_sender bale_sender : Text → Text → Sender
  email_sender : EmailConfig → Text → Sender
  matrix_sender : Text → MatrixConfig → Sender
  gotify_sender : Text → GotifyConfig → Sender
  whatsapp_sender : Text → WhatsappConfig → Sender
  fcm_sender : Text → Sender
  apns_sender : ApnsConfig → Text → Sender

abbrev pub plain_refusal : Error
plain_refusal = app invalid_input nil

abbrev pub said_refusal : Error
said_refusal = app invalid_input str

-- `len(raw) > 0` in front of the decoder.
abbrev pub parsed : {A : Type 0} → A → (Text → Option A) → Text → Result A
parsed unset read [] = ok unset
parsed unset read (c ∷ cs) = elim (read (c ∷ cs)) [ none ↦ err said_refusal | some a ↦ ok a ]

drop_slashes : Text → Text
drop_slashes [] = []
drop_slashes (c ∷ cs) = let rest = drop_slashes cs in if c == b'/' then rest else c ∷ cs

-- `strings.TrimRight(strings.TrimSpace(s), "/")`.
trim_slashes : Text → Text
unfolding drop_slashes trim_space
trim_slashes s = reverse (drop_slashes (reverse (trim_space s)))

-- The checks of an address of a server.
check_address : Option Address → Result (Unit {0})
unfolding text_eqb
check_address none = err plain_refusal
check_address (some u) = do
  refuse_if (not (text_eqb u.scheme (text "https"))) plain_refusal
  refuse_if (is_empty u.host) plain_refusal
  refuse_if u.has_user plain_refusal
  refuse_if (not (is_empty u.path) || not (is_empty u.query) || not (is_empty u.fragment))
      plain_refusal

-- The content type: the default, or one of two.
content_type : Text → Text → Result Text
unfolding text_eqb
content_type other [] = ok (text "text/plain")
content_type other (c ∷ cs) =
    if text_eqb (c ∷ cs) (text "text/plain") || text_eqb (c ∷ cs) other
    then ok (c ∷ cs)
    else err said_refusal

module _ (o : Outside) where
  unfoldable pub validate_email : EmailConfig → Result EmailConfig
  unfolding content_type
  validate_email c = do
    refuse_if (not (o.parse_address c.from)) said_refusal
    kind ← content_type (text "text/html") c.content_type
    ok (record c { content_type = kind })

  unfoldable pub validate_matrix : MatrixConfig → Result MatrixConfig
  unfolding trim_slashes check_address
  validate_matrix c = do
    let home = trim_slashes c.homeserver
    refuse_if (is_empty home) plain_refusal
    check_address (o.parse_url home)
    ok (record { homeserver = home })

  unfoldable pub validate_gotify : GotifyConfig → Result GotifyConfig
  unfolding trim_slashes check_address content_type
  validate_gotify c = do
    let server = trim_slashes c.server_url
    refuse_if (is_empty server) plain_refusal
    kind ← content_type (text "text/markdown") c.content_type
    check_address (o.parse_url server)
    ok (record { server_url = server; content_type = kind })

  unfoldable pub validate_whatsapp : WhatsappConfig → Result WhatsappConfig
  unfolding trim_space
  validate_whatsapp c = do
    let number = trim_space c.phone_number_id
    refuse_if (is_empty number) plain_refusal
    refuse_if (not (all is_digit number)) plain_refusal
    ok (record { phone_number_id = number })

  abbrev pub or_production : Text → Text
  or_production [] = text "production"
  or_production (c ∷ cs) = c ∷ cs

  unfoldable pub validate_apns : ApnsConfig → Result ApnsConfig
  unfolding trim_space to_lower text_eqb
  validate_apns c = do
    let environment = or_production (to_lower (trim_space c.environment))
    refuse_if (is_empty (trim_space c.key_id)) plain_refusal
    refuse_if (is_empty (trim_space c.team_id)) plain_refusal
    refuse_if (is_empty (trim_space c.topic)) plain_refusal
    refuse_if
        (not (text_eqb environment (text "production"))
          && not (text_eqb environment (text "sandbox")))
        said_refusal
    ok (record {
      key_id = trim_space c.key_id;
      team_id = trim_space c.team_id;
      topic = trim_space c.topic;
      environment = environment;
    })

  token_byte : ℕ → Bool
  token_byte c =
      is_lower c
      || is_upper c
      || is_digit c
      || (c == b'_')
      || (c == b'-')
      || (c == b':')
      || (c == b'.')

  -- `telegram.New` and `bale.New`.
  unfoldable pub new_bot :
      (Text → Text → Sender) → (Text → Option Text) → Text → Text → Result Sender
  unfolding token_byte
  new_bot made read token config = do
    refuse_if (is_empty token) plain_refusal
    refuse_if (not (all token_byte token)) plain_refusal
    mode ← parsed [] read config
    ok (made token mode)

  taken : Option Error → Result (Unit {0})
  taken none = ok tt
  taken (some e) = err (app invalid_input (both str e))

  unfoldable pub new_email : EmailConfig → Text → Result Sender
  unfolding validate_email taken
  new_email c password = do
    cfg ← validate_email c
    taken (o.dial cfg password)
    ok (email_sender cfg password)

  unfoldable pub new_matrix : Text → MatrixConfig → Result Sender
  unfolding validate_matrix
  new_matrix token c = do
    refuse_if (is_empty token) plain_refusal
    cfg ← validate_matrix c
    ok (matrix_sender token cfg)

  unfoldable pub new_gotify : Text → GotifyConfig → Result Sender
  unfolding validate_gotify
  new_gotify token c = do
    refuse_if (is_empty token) plain_refusal
    cfg ← validate_gotify c
    ok (gotify_sender token cfg)

  unfoldable pub new_whatsapp : Text → WhatsappConfig → Result Sender
  unfolding validate_whatsapp
  new_whatsapp token c = do
    refuse_if (is_empty token) plain_refusal
    cfg ← validate_whatsapp c
    ok (whatsapp_sender token cfg)
