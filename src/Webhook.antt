-- ===== src/Webhook.antt =====
-- internal/core/domain/webhook: entity.go and types.go. Where a source wants outcomes pushed to.
-- `ToLower` is that of ASCII: no other rune has a lower case in the names that are compared.
-- What `net/url` and `net/netip` make of a text is outside the model: it is a parameter.
pub mod Policy
use srosha.Prelude.{
  ℕ, Bool, true, false, not, ◌&&◌, ◌||◌, Option, none, some, [], ◌∷◌, Text, text, text_eqb,
  is_empty, to_lower, trim_space, ltb, leb, ◌==◌, if◌then◌else◌, any,
}
use mathlib.Core.List.{reverse}
use srosha.Errs.{
  refused, detailed, Error, nil, internal, invalid_input, invalid_id, missing_source, empty_url,
  malformed_url, credentials_in_url, insecure_url, private_url,
}
use srosha.Errs.Result.{Result, ok, err, ◌>>◌, refuse_if}
use srosha.Shared.Id.{SharedId, is_zero}

abbrev pub Time : Type 0
Time = ℕ

pub record Webhook : Type 0 where
  pub id : SharedId
  pub source_id : Text
  pub callback_url : Text
  pub created_at : Time
  pub updated_at : Time
  pub is_active : Bool
  pub consecutive_failures : ℕ

pub record UrlPolicy : Type 0 where
  pub allow_insecure : Bool
  pub allow_private : Bool

-- What is read of a `*url.URL`: its scheme, host, host name, and whether it names a user.
pub record Url : Type 0 where
  pub scheme : Text
  pub host : Text
  pub hostname : Text
  pub has_user : Bool

-- `url.Parse`, and `netip.ParseAddr` with the disjunction of the five questions that
-- `isPrivateHost` asks an address.
pub record Net : Type 0 where
  pub parse_url : Text → Option Url
  pub parse_addr : Text → Option Bool

-- `strings.HasPrefix`, and `strings.HasSuffix` through the reversed texts.
has_prefix : Text → Text → Bool
has_prefix [] s = true
has_prefix (p ∷ ps) [] = false
has_prefix (p ∷ ps) (c ∷ s) = (p == c) && has_prefix ps s

has_suffix : Text → Text → Bool
unfolding has_prefix
has_suffix suffix s = has_prefix (reverse suffix) (reverse s)

drop_dot : Text → Text
drop_dot [] = []
drop_dot (c ∷ s) = if c == b'.' then s else c ∷ s

-- `strings.TrimSuffix(host, ".")`.
trim_dot : Text → Text
unfolding drop_dot
trim_dot s = reverse (drop_dot (reverse s))

private_name : Text → Bool
unfolding has_suffix text_eqb
private_name h =
    text_eqb h (text "localhost")
    || has_suffix (text ".localhost") h
    || has_suffix (text ".local") h
    || not (any (λ c. c == b'.') h)

unfoldable pub is_private_host : Net → Text → Bool
unfolding to_lower trim_dot private_name
is_private_host net host =
    let h = to_lower (trim_dot host) in
    elim (net.parse_addr h) [ some inside ↦ inside | none ↦ private_name h ]

check_scheme : UrlPolicy → Text → Result (Unit {0})
unfolding text_eqb
check_scheme p scheme =
    if text_eqb scheme (text "https")
    then ok tt
    else if text_eqb scheme (text "http")
    then refuse_if (not p.allow_insecure) (refused invalid_input insecure_url)
    else err (detailed invalid_input insecure_url)

check_url : Net → UrlPolicy → Url → Result (Unit {0})
unfolding check_scheme is_private_host
check_url net p u = do
  refuse_if (is_empty u.host) (detailed invalid_input malformed_url)
  refuse_if u.has_user (refused invalid_input credentials_in_url)
  check_scheme p u.scheme
  refuse_if (not p.allow_private && is_private_host net u.hostname)
      (detailed invalid_input private_url)

unfoldable pub validate_url : Net → Text → UrlPolicy → Result (Unit {0})
unfolding check_url
validate_url net raw p =
    if is_empty (trim_space raw)
    then err (refused invalid_input empty_url)
    else elim (net.parse_url raw) [
      | none ↦ err (detailed invalid_input malformed_url)
      | some u ↦ check_url net p u
    ]

unfoldable pub new : Net → SharedId → Text → Text → UrlPolicy → Time → Result Webhook
new net id source_id url p now = do
  refuse_if (is_zero id) (refused internal invalid_id)
  refuse_if (is_empty source_id) (refused internal missing_source)
  refuse_if (now == 0) (refused internal invalid_id)
  validate_url net url p
  ok (record {
    id = id;
    source_id = source_id;
    callback_url = url;
    created_at = now;
    updated_at = now;
    is_active = true;
    consecutive_failures = 0;
  })

abbrev moved : Result (Unit {0}) → Text → Time → Webhook → Webhook × Error
moved (err e) url now w = (w, e)
moved (ok _) url now w = (
  record w { callback_url = url; is_active = true; consecutive_failures = 0; updated_at = now },
  nil,
)

unfoldable pub redirect : Net → Text → UrlPolicy → Time → Webhook → Webhook × Error
redirect net url p now w = moved (validate_url net url p) url now w

unfoldable pub record_success : Time → Webhook → Webhook
record_success now w = record w { consecutive_failures = 0; updated_at = now }

unfoldable pub record_failure : ℕ → ℕ → Time → Webhook → Webhook
record_failure count max_failures now w = record w {
  consecutive_failures = count;
  updated_at = now;
  is_active = if ltb 0 max_failures && leb max_failures count then false else w.is_active;
}

unfoldable pub deactivate : Time → Webhook → Webhook
deactivate now w = record w { is_active = false; updated_at = now }

unfoldable pub activate : Time → Webhook → Webhook
activate now w = record w { is_active = true; consecutive_failures = 0; updated_at = now }
