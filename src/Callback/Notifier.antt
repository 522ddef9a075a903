-- ===== src/Callback/Notifier.antt =====
-- `Notifier.Notify` of internal/adapter/notifier/notifier.go. The secrets, the encoding of a batch
-- and the client are parameters.
use srosha.Prelude.{
  ℕ, ◌||◌, Option, none, some, ◌∷◌, [], Text, text, is_empty, ltb, leb, if◌then◌else◌,
}
use srosha.Errs.{Error, app, str, both, internal, invalid_input, unavailable}
use srosha.Errs.Result.{Result, ok, err, ◌>>=◌, refuse_if}
use srosha.Delivery.{Time}
use srosha.Webhook.{Webhook}
use srosha.Dispatch.Program.{Batch}
use srosha.Callback.{Header, sign, signature_header, timestamp_header}

-- What is posted: the address, the headers and the body.
pub record Post : Type 0 where
  pub url : Text
  pub header : Header
  pub body : Text

-- `SecretFor`, `json.Marshal` at a batch, and what `http.NewRequestWithContext` says of an address.
pub record Port : Type 0 where
  pub secret_for : Text → Option Text
  pub marshal : Batch → Result Text
  pub address_error : Text → Option Error

-- The headers of a post with a signature and its timestamp.
unfoldable pub signed_header : Text × Text → Header
signed_header (signature, timestamp) =
    (text "Content-Type", text "application/json")
    ∷ ((signature_header, signature) ∷ ((timestamp_header, timestamp) ∷ []))

module _ (mac : Text → Text → Text) (port : Port) where
  unfoldable pub found_secret : Option Text → Result Text
  found_secret none = err (app internal str)
  found_secret (some secret) = if is_empty secret then err (app internal str) else ok secret

  unfoldable pub encoded : Result Text → Result Text
  encoded (ok body) = ok body
  encoded (err e) = err (app internal e)

  -- `http.NewRequestWithContext` and the headers that are set on it.
  unfoldable pub addressed : Time → Webhook → Text → Text → Option Error → Result Post
  unfolding sign signed_header
  addressed now w secret body (some e) = err (app invalid_input e)
  addressed now w secret body none = ok (record {
    url = w.callback_url;
    header = signed_header (sign mac secret now body);
    body = body;
  })

  -- The request before it is sent.
  unfoldable pub post : Time → Webhook → Batch → Result Post
  unfolding found_secret encoded addressed
  post now w b = do
    secret ← found_secret (port.secret_for w.source_id)
    body ← encoded (port.marshal b)
    addressed now w secret body (port.address_error w.callback_url)

  -- What the answer of the far end means: an error of the client, or a status.
  abbrev pub answered : Result ℕ → Result (Unit {0})
  answered (err e) = err (app unavailable (both str e))
  answered (ok status) = refuse_if (ltb status 200 || leb 300 status) (app unavailable str)

  -- `Notify` at a client that answers a post with a status or an error.
  unfoldable pub notify : (Post → Result ℕ) → Time → Option Webhook → Batch → Result (Unit {0})
  unfolding post
  notify client now none b = err (app internal str)
  notify client now (some w) b = do request ← post now w b; answered (client request)
