-- ===== src/Senders/Judged.antt =====
-- Which answers of a provider are final.
use srosha.Prelude.{
  ℕ, ◌≡◌, ◌≤◌, ◌<◌, ◌↔◌, ◌⊎◌, Bool, true, false, not, ◌||◌, Option, none, some, List, [], ◌∷◌, Text,
  text, text_eqb, any, is_empty, refl, sym, subst, text_eqb_iff, arith, ◌==◌, ℤ,
}
use srosha.Errs.{Error, is_permanent_send, send_kind_of, as_send}
use srosha.Table.{find_where}
use srosha.Senders.Answers.{
  classify_telegram, classify_bale, classify_matrix, classify_whatsapp, classify_fcm, classify_apns,
  classify_gotify, fcm_code,
}

-- An answer of one of the providers that speak HTTP, as its sender reads it.
pub data Answer : Type 0 where
  telegram bale : ℕ → Option ℤ → Answer
  matrix : ℕ → Text → ℤ → Answer
  whatsapp : ℕ → ℕ → Answer
  fcm : ℕ → List Text → Text → ℕ → Answer
  apns : ℕ → Text → Answer
  gotify : ℕ → Answer

unfoldable pub classify : Answer → Error
unfolding classify_telegram classify_bale classify_matrix classify_whatsapp classify_fcm
    classify_apns classify_gotify
classify (telegram status wait) = classify_telegram status wait
classify (bale status wait) = classify_bale status wait
classify (matrix status code wait) = classify_matrix status code wait
classify (whatsapp status code) = classify_whatsapp status code
classify (fcm status details code wait) = classify_fcm status details code wait
classify (apns status word) = classify_apns status word
classify (gotify status) = classify_gotify status

abbrev pub status_of : Answer → ℕ
status_of (telegram status wait) = status
status_of (bale status wait) = status
status_of (matrix status code wait) = status
status_of (whatsapp status code) = status
status_of (fcm status details code wait) = status
status_of (apns status word) = status
status_of (gotify status) = status

-- One of some names.
abbrev pub is_one_of : Text → List Text → Bool
is_one_of code names = any (text_eqb code) names

-- The first text that is not empty, or else another.
abbrev pub first_of : Option Text → Text → Text
first_of none otherwise = otherwise
first_of (some t) otherwise = t

unfoldable pub named_by : List Text → Text → Text
unfolding find_where
named_by details otherwise = first_of (find_where (λ t. not (is_empty t)) details) otherwise

-- What a provider names that is final: the recipient or the identity is at fault.
unfoldable pub says_final : Answer → Bool
unfolding named_by
says_final (matrix status code wait) =
    is_one_of code (
      text "M_FORBIDDEN"
      ∷ text "M_NOT_FOUND"
      ∷ text "M_UNKNOWN_TOKEN"
      ∷ text "M_MISSING_TOKEN"
      ∷ [])
says_final (whatsapp status code) = (code == 131047) || (code == 131026)
says_final (fcm status details code wait) =
    is_one_of (named_by details code) (text "UNREGISTERED" ∷ text "SENDER_ID_MISMATCH" ∷ [])
says_final (apns status word) =
    is_one_of word
      (text "BadDeviceToken" ∷ text "Unregistered" ∷ text "DeviceTokenNotForTopic" ∷ [])
says_final _ = false

-- What FCM names when it cannot sign in at Apple: final too, but not with a status of 429.
unfoldable pub says_setup : Answer → Bool
unfolding named_by
says_setup (fcm status details code wait) =
    is_one_of (named_by details code) (text "THIRD_PARTY_AUTH_ERROR" ∷ [])
says_setup _ = false

-- What a provider names that passes.
unfoldable pub says_later : Answer → Bool
unfolding named_by
says_later (matrix status code wait) = is_one_of code (text "M_LIMIT_EXCEEDED" ∷ [])
says_later (whatsapp status code) = (code == 130429) || (code == 131056)
says_later (fcm status details code wait) =
    is_one_of (named_by details code)
      (text "QUOTA_EXCEEDED" ∷ text "UNAVAILABLE" ∷ text "INTERNAL" ∷ [])
says_later (apns status word) = is_one_of word (
    text "ExpiredProviderToken"
    ∷ text "TooManyProviderTokenUpdates"
    ∷ text "TooManyRequests"
    ∷ text "InternalServerError"
    ∷ text "ServiceUnavailable"
    ∷ [])
says_later _ = false

fcm_code-named_by :
    (details : List Text) (status : Text) → fcm_code details status ≡ named_by details status
unfolding fcm_code find_where named_by
fcm_code-named_by [] status = refl
fcm_code-named_by (d ∷ ds) status = ground (arith, fcm_code-named_by ds status)

-- A text that is this name is no other.
setup_alone :
    (t : Text)
    → text_eqb t (text "THIRD_PARTY_AUTH_ERROR") ≡ true
    → (text_eqb t (text "QUOTA_EXCEEDED") ≡ false)
      × (text_eqb t (text "UNAVAILABLE") ≡ false)
      × (text_eqb t (text "INTERNAL") ≡ false)
unfolding text_eqb
setup_alone t h =
    subst
      (λ (x : Text).
        (text_eqb x (text "QUOTA_EXCEEDED") ≡ false)
        × (text_eqb x (text "UNAVAILABLE") ≡ false)
        × (text_eqb x (text "INTERNAL") ≡ false))
      (sym ((text_eqb_iff t (text "THIRD_PARTY_AUTH_ERROR")).0 h)) (refl, refl, refl)

-- An answer is final exactly when the provider names a final cause, or FCM names a failure to sign
-- in at a third party and the status is not 429, or the provider names no cause that passes and
-- the status is one of 400 to 499 but not 429.
pub classify-final_iff :
    (a : Answer)
    → (is_permanent_send (classify a) ≡ true) ↔ (
        (says_final a ≡ true)
        ⊎ (((says_setup a ≡ true) × ((status_of a == 429) ≡ false))
            ⊎ ((says_later a ≡ false)
                × (400 ≤ status_of a)
                × (status_of a < 500)
                × ((status_of a == 429) ≡ false))))
unfolding classify is_permanent_send send_kind_of as_send says_final says_setup says_later
classify-final_iff (telegram status wait) = ground arith
classify-final_iff (bale status wait) = ground arith
classify-final_iff (matrix status code wait) = ground arith
classify-final_iff (whatsapp status code) = ground arith
classify-final_iff (fcm status details code wait) =
    rw (fcm_code-named_by details code) (ground (arith, setup_alone (named_by details code)))
classify-final_iff (apns status word) = ground arith
classify-final_iff (gotify status) = ground arith
