-- ===== src/User/Email.antt =====
-- What `NormalizeEmail` accepts.
use srosha.Prelude.{◌≡◌, sym, ◌≤◌, true, false, not, Text, trim_space, is_empty, length, ltb, arith}
use srosha.Errs.{refused, detailed, invalid_input, empty_email, invalid_email}
use srosha.Errs.Result.{ok, then_inv, refuse_if, refuse_if_inv, ok_injective}
use srosha.User.{Mail, max_email_len, check_email, normalize_email}

-- A normalized address is the text, trimmed and in lower case; it is not empty, not too long, and an
-- address.
pub normalize_email_lem :
    (mail : Mail) (s t : Text)
    → normalize_email mail s ≡ ok t
    → (t ≡ mail.to_lower (trim_space s))
      × (is_empty t ≡ false)
      × (length t ≤ max_email_len)
      × (mail.parses t ≡ true)
unfolding normalize_email check_email
normalize_email_lem mail s t h =
    let low = mail.to_lower (trim_space s) in
    let (a, h1) = then_inv (refuse_if (is_empty low) (refused invalid_input empty_email)) _ h in
    let (b, h2) =
      then_inv (refuse_if (ltb max_email_len (length low)) (detailed invalid_input invalid_email)) _
        h1 in
    let (c, h3) =
      then_inv (refuse_if (not (mail.parses low)) (refused invalid_input invalid_email)) _ h2 in
    let same : low ≡ t = ok_injective low t h3 in
    (
      sym same,
      ground (arith, same, refuse_if_inv _ _ a),
      ground (arith, same, refuse_if_inv _ _ b),
      ground (arith, same, refuse_if_inv _ _ c),
    )
