-- ===== src/Callback/Posted.antt =====
-- The receiver of a post of the notifier.
use srosha.Prelude.{
  ◌-◌, ℤ, some_injective, ℕ, ◌+◌, ◌*◌, ◌/◌, ◌^◌, ◌≤◌, ◌<◌, ◌≡◌, refl, ap, sym, ◌∙◌, inl, inr, ◌++◌,
  false, Option, none, some, [], ◌∷◌, All, Text, text, is_empty, text_eqb, text_eqb_iff, cut, arith,
  pos,
}
use srosha.Encode.Decimal.{format_int, format_int_not_empty, IsInt64}
use srosha.Encode.Hex.{encode, decode, decode-encode, IsByte}
use srosha.Errs.Result.{ok, bind_inv, ok_injective, ◌>>=◌}
use srosha.Errs.{Error}
use srosha.Delivery.{Time}
use srosha.Webhook.{Webhook}
use srosha.Dispatch.Program.{Batch}
use srosha.Callback.{
  sign, second, to_unix, unix, header_value, signature_header, timestamp_header, signed_bytes,
  signature_version,
}
use srosha.Callback.Notifier.{Post, Port, post, signed_header, found_secret, encoded, addressed}
use srosha.Callback.Verifier.{
  fresh, check, check_halves, same_mac, verify, verify_values, decode_callback, Wire,
}
use srosha.Callback.Window.{fresh_iff}

same_mac_self : (expected : Text) → same_mac expected (some expected) ≡ inr tt
same_mac_self expected = ground (arith, text_eqb_iff expected expected)

header_value_signed :
    (signature timestamp : Text)
    → (header_value signature_header (signed_header (signature, timestamp)) ≡ signature)
      × (header_value timestamp_header (signed_header (signature, timestamp)) ≡ timestamp)
unfolding header_value signed_header text_eqb
header_value_signed signature timestamp = (refl, refl)

module _ (mac : Text → Text → Text) (unmarshal : Text → Option Wire) where
  signed_check :
      (secret timestamp body : Text) (sum : Text)
      → decode sum ≡ some (mac secret (signed_bytes timestamp body))
      → check mac unmarshal secret (signature_version ++ (text "=" ++ sum)) timestamp body ≡ inr tt
  unfolding check check_halves cut text_eqb
  signed_check secret timestamp body sum h =
      ap (same_mac (mac secret (signed_bytes timestamp body))) h
      ∙ same_mac_self (mac secret (signed_bytes timestamp body))

  pub check-sign :
      (secret : Text) (at : Time) (body : Text)
      → ((key message : Text) → All IsByte (mac key message))
      → check mac unmarshal secret (sign mac secret at body).0 (sign mac secret at body).1 body
        ≡ inr tt
  unfolding sign
  check-sign secret at body bytes =
      let timestamp = format_int (unix at) in
      let m = mac secret (signed_bytes timestamp body) in
      signed_check secret timestamp body (encode m)
        (decode-encode m (bytes secret (signed_bytes timestamp body)))

  module _ (port : Port) where
    sign_not_empty :
        (secret : Text) (at : Time) (body : Text) → is_empty (sign mac secret at body).0 ≡ false
    unfolding sign
    sign_not_empty secret at body = refl

    found_secret_inv :
        (held : Option Text) (secret : Text)
        → found_secret mac port held ≡ ok secret
        → held ≡ some secret
    unfolding found_secret
    found_secret_inv none secret h = cc
    found_secret_inv (some []) secret h = cc
    found_secret_inv (some (c ∷ cs)) secret h = ap some (ok_injective (c ∷ cs) secret h)

    addressed_inv :
        (now : Time) (w : Webhook) (secret body : Text) (e : Option Error) (request : Post)
        → addressed mac port now w secret body e ≡ ok request
        → (request.body ≡ body) × (request.header ≡ signed_header (sign mac secret now body))
    unfolding addressed
    addressed_inv now w secret body (some e) request h = cc
    addressed_inv now w secret body none request h =
        let e = ok_injective _ request h in
        (sym (ap (λ (p : Post). p.body) e), sym (ap (λ (p : Post). p.header) e))

    -- The request of `post` and what it was made from.
    post_inv :
        (now : Time) (w : Webhook) (b : Batch) (request : Post) (secret : Text)
        → port.secret_for w.source_id ≡ some secret
        → post mac port now w b ≡ ok request
        → request.header ≡ signed_header (sign mac secret now request.body)
    unfolding post
    post_inv now w b request secret held h =
        let (used, found, later) =
          bind_inv (found_secret mac port (port.secret_for w.source_id))
            (λ (s : Text).
              encoded mac port (port.marshal b)
              >>= (λ (t : Text). addressed mac port now w s t (port.address_error w.callback_url)))
            h in
        let (body, wrote, last) =
          bind_inv (encoded mac port (port.marshal b))
            (λ (t : Text). addressed mac port now w used t (port.address_error w.callback_url))
            later in
        let (same_body, header) =
          addressed_inv now w used body (port.address_error w.callback_url) request last in
        let same =
          some_injective used secret
            (sym (found_secret_inv (port.secret_for w.source_id) used found) ∙ held) in
        header
        ∙ ap (λ k. signed_header (sign mac k now body)) same
        ∙ ap (λ t. signed_header (sign mac secret now t)) (sym same_body)

    -- The values that pass both checks let the body through.
    verify_values_lem :
        (secret : Text) (tolerance : ℕ) (now : Time) (signature timestamp body : Text)
        → is_empty signature ≡ false
        → is_empty timestamp ≡ false
        → check mac unmarshal secret signature timestamp body ≡ inr tt
        → fresh tolerance now timestamp ≡ inr tt
        → verify_values mac unmarshal secret tolerance now signature timestamp body
          ≡ decode_callback (unmarshal body)
    unfolding verify_values
    verify_values_lem secret tolerance now signature timestamp body h k c f =
        ground (arith, h, k, c, f)

    unix_modern : (at : Time) → to_unix ≤ at / second → unix at ≡ pos (at / second - to_unix)
    unix_modern at h = ground (arith, h)

    -- What the notifier posts is accepted by the receiver that holds the same secret, within
    -- the tolerance of the second in which it was signed, and answered with what its body reads as.
    pub verify-post :
        (signed received : Time) (tolerance : ℕ) (w : Webhook) (b : Batch) (secret : Text)
        (request : Post)
        → ((key message : Text) → All IsByte (mac key message))
        → port.secret_for w.source_id ≡ some secret
        → post mac port signed w b ≡ ok request
        → to_unix ≤ signed / second
        → signed / second < 2 ^ 63
        → tolerance + 1 < 2 ^ 63
        → received ≤ signed / second * second + tolerance
        → signed / second * second ≤ received + tolerance
        → verify mac unmarshal secret tolerance received request.header request.body
          ≡ decode_callback (unmarshal request.body)
    unfolding verify sign format_int IsInt64
    verify-post signed received tolerance w b secret request bytes held sent modern early tol late
          ahead =
        let signature = (sign mac secret signed request.body).0 in
        let timestamp = (sign mac secret signed request.body).1 in
        let made = post_inv signed w b request secret held sent in
        let (s, t) = header_value_signed signature timestamp in
        let n = signed / second - to_unix in
        let stamp = unix_modern signed modern in
        let timely = (fresh_iff tolerance received (pos n) tol (omega (arith, early, modern))).1 (
          omega (arith, early, modern),
          inl (omega (arith, modern, late), omega (arith, modern, ahead)),
        ) in
        let accepted =
          verify_values_lem secret tolerance received signature timestamp request.body
            (sign_not_empty secret signed request.body)
            (ap (λ (i : ℤ). is_empty (format_int i)) stamp ∙ format_int_not_empty n)
            (check-sign secret signed request.body bytes)
            (ap (λ (i : ℤ). fresh tolerance received (format_int i)) stamp ∙ timely) in
        ap (λ headers. verify mac unmarshal secret tolerance received headers request.body) made
        ∙ ap
            (λ v.
              verify_values mac unmarshal secret tolerance received v
                (header_value timestamp_header (signed_header (signature, timestamp))) request.body)
            s
        ∙ ap (λ v. verify_values mac unmarshal secret tolerance received signature v request.body) t
        ∙ accepted
