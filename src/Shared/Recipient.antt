-- ===== src/Shared/Recipient.antt =====
-- internal/core/shared/recipient.go: one destination.
use srosha.Prelude.{Bool, ◌&&◌, Text, text_eqb, if◌then◌else◌}
use srosha.Errs.{detailed, invalid_input, unknown_channel}
use srosha.Errs.Result.{Result, err}
use srosha.Shared.Channel.{Channel, valid, channel_eqb, validate_address}

pub record Recipient : Type 0 where
  pub channel : Channel
  pub address : Text

-- `Recipient.Validate`.
unfoldable pub validate : (Text → Bool) → Recipient → Result (Unit {0})
validate is_mail r =
    if valid r.channel
    then validate_address is_mail r.channel r.address
    else err (detailed invalid_input unknown_channel)

-- `==` on the struct, as the key of a map.
unfoldable pub recipient_eqb : Recipient → Recipient → Bool
unfolding channel_eqb text_eqb
recipient_eqb r q = channel_eqb r.channel q.channel && text_eqb r.address q.address
