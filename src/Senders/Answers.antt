-- ===== src/Senders/Answers.antt =====
-- What an answer of a provider means for another attempt: `classify` of
-- internal/adapter/sender/*/errors.go, with internal/infra/smtp/errors.go. The texts of the details
-- are left out. A wait is a number of nanoseconds; one of more than 292 years, at which the code's
-- int64 wraps around, is outside the model.
use srosha.Prelude.{
  ℕ, ◌+◌, ◌-◌, ◌*◌, Bool, true, ◌&&◌, ◌||◌, Option, some, List, [], ◌∷◌, Text, text, text_eqb,
  is_empty, is_digit, leb, ltb, ◌==◌, if◌then◌else◌, ℤ, pos,
}
use srosha.Errs.{Error, nil, send, transient, permanent, unreachable}

abbrev second : ℕ
second = 1_000_000_000

abbrev millisecond : ℕ
millisecond = 1_000_000

-- A wait that the answer states, or else the package's own.
stated : ℕ → ℕ → Option ℤ → ℕ
stated unit otherwise (some (pos n)) = if ltb 0 n then n * unit else otherwise
stated unit otherwise _ = otherwise

-- Telegram and Bale: the status, and `retry_after` of the parameters.
unfoldable pub classify_telegram : ℕ → Option ℤ → Error
unfolding stated
classify_telegram status wait =
    if status == 429
    then send transient (stated second (30 * second) wait) nil
    else if leb 500 status
    then send transient 0 nil
    else if status == 403
    then send unreachable 0 nil
    else if leb 400 status
    then send permanent 0 nil
    else send transient 0 nil

unfoldable pub classify_bale : ℕ → Option ℤ → Error
unfolding stated
classify_bale status wait =
    if status == 429
    then send transient (stated second (30 * second) wait) nil
    else if leb 500 status
    then send transient 0 nil
    else if status == 403
    then send unreachable 0 nil
    else if leb 400 status
    then send permanent 0 nil
    else send transient 0 nil

-- Matrix: the error's name, and `retry_after_ms`.
abbrev pub matrix_gone : Text → Bool
matrix_gone code = text_eqb code (text "M_FORBIDDEN") || text_eqb code (text "M_NOT_FOUND")

abbrev pub matrix_token : Text → Bool
matrix_token code = text_eqb code (text "M_UNKNOWN_TOKEN") || text_eqb code (text "M_MISSING_TOKEN")

abbrev pub matrix_limit : Text → Bool
matrix_limit code = text_eqb code (text "M_LIMIT_EXCEEDED")

unfoldable pub classify_matrix : ℕ → Text → ℤ → Error
unfolding stated
classify_matrix status code wait =
    if matrix_gone code
    then send unreachable 0 nil
    else if matrix_token code
    then send permanent 0 nil
    else if matrix_limit code || (status == 429)
    then send transient (stated millisecond (5 * second) (some wait)) nil
    else if leb 500 status
    then send transient 0 nil
    else if leb 400 status
    then send permanent 0 nil
    else send transient 0 nil

-- WhatsApp: Meta's number for the error, 0 without one.
abbrev pub whatsapp_gone : ℕ → Bool
whatsapp_gone code = (code == 131047) || (code == 131026)

abbrev pub whatsapp_limit : ℕ → Bool
whatsapp_limit code = (code == 130429) || (code == 131056)

unfoldable pub classify_whatsapp : ℕ → ℕ → Error
classify_whatsapp status code =
    if whatsapp_gone code
    then send unreachable 0 nil
    else if whatsapp_limit code || (status == 429)
    then send transient (30 * second) nil
    else if leb 500 status
    then send transient 0 nil
    else if leb 400 status
    then send permanent 0 nil
    else send transient 0 nil

-- FCM: the first code among the details, or else the status of the error, and the wait that
-- `retryAfter` makes of the header, which it never leaves without one.
abbrev pub fcm_gone : Text → Bool
fcm_gone code = text_eqb code (text "UNREGISTERED") || text_eqb code (text "SENDER_ID_MISMATCH")

abbrev pub fcm_limit : Text → Bool
fcm_limit code = text_eqb code (text "QUOTA_EXCEEDED")

abbrev pub fcm_theirs : Text → Bool
fcm_theirs code = text_eqb code (text "UNAVAILABLE") || text_eqb code (text "INTERNAL")

abbrev pub fcm_setup : Text → Bool
fcm_setup code = text_eqb code (text "THIRD_PARTY_AUTH_ERROR")

-- `fcmCode`, and the fallback to the status of the error.
unfoldable pub fcm_code : List Text → Text → Text
fcm_code [] status = status
fcm_code (c ∷ cs) status = let rest = fcm_code cs status in if is_empty c then rest else c

unfoldable pub classify_fcm : ℕ → List Text → Text → ℕ → Error
unfolding fcm_code
classify_fcm status details code_status wait =
    let code = fcm_code details code_status in
    if fcm_gone code
    then send unreachable 0 nil
    else if fcm_limit code || (status == 429)
    then send transient wait nil
    else if fcm_theirs code
    then send transient wait nil
    else if fcm_setup code
    then send permanent 0 nil
    else if leb 500 status
    then send transient 0 nil
    else if leb 400 status
    then send permanent 0 nil
    else send transient 0 nil

-- APNs: the one word of the answer.
abbrev pub apns_gone : Text → Bool
apns_gone word =
    text_eqb word (text "BadDeviceToken")
    || text_eqb word (text "Unregistered")
    || text_eqb word (text "DeviceTokenNotForTopic")

abbrev pub apns_later : Text → Bool
apns_later word =
    text_eqb word (text "ExpiredProviderToken")
    || text_eqb word (text "TooManyProviderTokenUpdates")
    || text_eqb word (text "TooManyRequests")
    || text_eqb word (text "InternalServerError")
    || text_eqb word (text "ServiceUnavailable")

unfoldable pub classify_apns : ℕ → Text → Error
classify_apns status word =
    if apns_gone word
    then send unreachable 0 nil
    else if apns_later word || (status == 429)
    then send transient (10 * second) nil
    else if leb 500 status
    then send transient 0 nil
    else if leb 400 status
    then send permanent 0 nil
    else send transient 0 nil

unfoldable pub classify_gotify : ℕ → Error
classify_gotify status =
    if (status == 401) || (status == 403)
    then send permanent 0 nil
    else if status == 429
    then send transient (30 * second) nil
    else if leb 500 status
    then send transient 0 nil
    else if leb 400 status
    then send permanent 0 nil
    else send transient 0 nil

-- Mail: the reply code of the server, 0 where it never got that far.
unfoldable pub classify_email : ℕ → Error → Error
classify_email code cause =
    if leb 500 code
    then send permanent 0 cause
    else if leb 400 code
    then send transient 0 cause
    else send transient 0 cause

abbrev pub is_boundary : ℕ → Bool
is_boundary c = (c == b' ') || (c == b':') || (c == 9) || (c == 10) || (c == b'"') || (c == b'(')

-- What may follow a code: a boundary, a hyphen, or the end of the text.
abbrev pub ends_code : Text → Bool
ends_code [] = true
ends_code (c ∷ _) = is_boundary c || (c == b'-')

-- The code that a text begins with, 0 if it begins with none.
unfoldable pub code_at : Text → ℕ
code_at (a ∷ b ∷ c ∷ rest) =
    let code = (a - b'0') * 100 + (b - b'0') * 10 + (c - b'0') in
    if is_digit a && is_digit b && is_digit c && ends_code rest && leb 200 code && leb code 599
    then code
    else 0
code_at _ = 0

-- The scan: `after_boundary` says whether a code may begin here.
unfoldable pub scan_code : Bool → Text → ℕ
unfolding code_at
scan_code after_boundary [] = 0
scan_code after_boundary (c ∷ cs) =
    let here = if after_boundary then code_at (c ∷ cs) else 0 in
    let later = scan_code (is_boundary c) cs in if here == 0 then later else here

-- `replyCode` of internal/infra/smtp/errors.go.
unfoldable pub reply_code : Text → ℕ
unfolding scan_code
reply_code message = scan_code true message
