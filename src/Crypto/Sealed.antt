-- ===== src/Crypto/Sealed.antt =====
-- The fields of a sealed value.
use srosha.Prelude.{
  ◌≡◌, refl, ap, ◌∙◌, false, Option, some, List, [], ◌∷◌, ◌++◌, All, Text, text, arith,
}
use srosha.Errs.Result.{ok, ◌>>=◌}
use srosha.Encode.Hex.{IsByte}
use srosha.Encode.Base64.{encode, has_dot, has_dot-encode, decode-encode}
use srosha.Crypto.{version, sealed_value, split_dots, decoded, Fields, fields_of}

split_dots-text : (t : Text) → has_dot t ≡ false → split_dots t ≡ t ∷ []
unfolding split_dots
split_dots-text [] h = refl
split_dots-text (x ∷ xs) h = ground (arith, h, split_dots-text xs)

-- A part without a full stop stands alone in front of the next one.
split_dots-join :
    (t rest : Text) → has_dot t ≡ false → split_dots (t ++ (text "." ++ rest)) ≡ t ∷ split_dots rest
unfolding split_dots
split_dots-join [] rest h = refl
split_dots-join (x ∷ xs) rest h = ground (arith, h, split_dots-join xs rest)

split_dots-sealed_value :
    (id nonce ciphertext : Text)
    → has_dot id ≡ false
    → All IsByte nonce
    → All IsByte ciphertext
    → split_dots (sealed_value id nonce ciphertext)
      ≡ version ∷ (id ∷ (encode nonce ∷ (encode ciphertext ∷ [])))
unfolding sealed_value
split_dots-sealed_value id nonce ciphertext h n c =
    split_dots-join version (id ++ (text "." ++ (encode nonce ++ (text "." ++ encode ciphertext))))
      refl
    ∙ ap (λ (r : List Text). version ∷ r)
        (split_dots-join id (encode nonce ++ (text "." ++ encode ciphertext)) h
          ∙ ap (λ (r : List Text). id ∷ r)
              (split_dots-join (encode nonce) (encode ciphertext) (has_dot-encode nonce n)
                ∙ ap (λ (r : List Text). encode nonce ∷ r)
                    (split_dots-text (encode ciphertext) (has_dot-encode ciphertext c))))

both_decoded :
    (f : Text → Text → Fields) {p q : Option Text} {a b : Text}
    → p ≡ some a
    → q ≡ some b
    → (decoded p >>= (λ x. decoded q >>= (λ y. ok (f x y)))) ≡ ok (f a b)
both_decoded f h k = cc

pub fields_of-sealed_value :
    (id nonce ciphertext : Text)
    → has_dot id ≡ false
    → All IsByte nonce
    → All IsByte ciphertext
    → fields_of (split_dots (sealed_value id nonce ciphertext))
      ≡ ok (record { ver = version; id = id; nonce = nonce; ciphertext = ciphertext })
unfolding fields_of
fields_of-sealed_value id nonce ciphertext h n c =
    ap fields_of (split_dots-sealed_value id nonce ciphertext h n c)
    ∙ both_decoded (λ n c. record { ver = version; id = id; nonce = n; ciphertext = c })
        (decode-encode nonce n) (decode-encode ciphertext c)
