-- ===== src/Source/Routes.antt =====
-- From a request's routes to recipients: `Source.Resolve` (entity.go) and `Service.Resolve`
-- (service.go) of internal/core/domain/source.
pub mod Allowed
use srosha.Prelude.{
  Bool, true, false, not, Option, none, some, List, [], ◌∷◌, ◌++◌, Text, is_empty, if◌then◌else◌,
}
use srosha.Errs.{
  detailed, refused, forbidden, invalid_input, custom_address_not_allowed, no_address_for_channel,
  no_routes,
}
use srosha.Errs.Result.{Result, ok, err, ◌>>=◌, ◌>>◌, refuse_if}
use srosha.Shared.Channel.{Channel, channel_eqb}
use srosha.Shared.Recipient.{Recipient, validate}
use srosha.Source.{Addresses, Source}

pub record Route : Type 0 where
  pub channel : Channel
  pub address : Text

-- A key that is absent reads as the empty text, which `Resolve` treats alike.
unfoldable pub default_address : Addresses → Channel → Text
default_address [] c = []
default_address ((d, a) ∷ m) c = if channel_eqb d c then a else default_address m c

-- `Source.one`.
one : (Text → Bool) → Channel → Text → Result (List Recipient)
one is_mail c address =
    let r : Recipient = record { channel = c; address = address } in
    do validate is_mail r; ok (r ∷ [])

unfoldable pub resolve : (Text → Bool) → Source → Channel → Text → Result (List Recipient)
unfolding one default_address
resolve is_mail s c address =
    if is_empty address
    then if is_empty (default_address s.default_addresses c)
      then err (detailed invalid_input no_address_for_channel)
      else one is_mail c (default_address s.default_addresses c)
    else if s.allow_custom_address
    then one is_mail c address
    else err (detailed forbidden custom_address_not_allowed)

-- The loop of `Service.Resolve`.
resolve_each : (Text → Bool) → Source → List Route → Result (List Recipient)
unfolding resolve
resolve_each is_mail s [] = ok []
resolve_each is_mail s (r ∷ rs) = do
  here ← resolve is_mail s r.channel r.address
  rest ← resolve_each is_mail s rs
  ok (here ++ rest)

unfoldable pub resolve_routes : (Text → Bool) → Source → List Route → Result (List Recipient)
unfolding resolve_each
resolve_routes is_mail s [] = err (refused invalid_input no_routes)
resolve_routes is_mail s (r ∷ rs) = resolve_each is_mail s (r ∷ rs)
