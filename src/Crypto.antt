-- ===== src/Crypto.antt =====
-- pkg/crypto/keyring.go: values are sealed with the active key, and name the key that sealed them.
-- AES-256-GCM is outside the model: a cipher is given for each key.
pub mod Sealed
pub mod Checked
pub mod Rotation
pub mod Interface
use srosha.Prelude.{
  ℕ, Bool, true, false, not, ◌||◌, Option, none, some, List, [], ◌∷◌, ◌++◌, Text, text, text_eqb,
  length, is_empty, ◌==◌, if◌then◌else◌,
}
use srosha.Errs.{
  app, str, internal, detailed, refused, no_keys, no_active_key, key_size, key_id, malformed,
  old_version, unknown_sealing_key, cannot_open,
}
use srosha.Errs.Result.{Result, ok, err, ◌>>=◌, ◌>>◌, refuse_if}
use srosha.Encode.Base64.{encode, decode, has_dot}

-- `cipher.AEAD`: nonce, text and bound data.
pub record Aead : Type 0 where
  pub seal_with : Text → Text → Text → Text
  pub open_with : Text → Text → Text → Option Text

-- `NonceSize` of what `cipher.NewGCM` makes.
abbrev pub nonce_size : ℕ
nonce_size = 12

-- `KeySize`.
abbrev pub key_bytes : ℕ
key_bytes = 32

abbrev pub version : Text
version = text "v1"

-- `Keyring`, its map as a list of pairs.
pub record Ring : Type 0 where
  pub keys : List (Text × Aead)
  pub active : Text

unfoldable pub key_of : {A : Type 0} → Text → List (Text × A) → Option A
key_of id [] = none
key_of id ((name, a) ∷ rest) =
    let further = key_of id rest in if text_eqb name id then some a else further

-- An error of the standard library, within one of the program's.
unfoldable pub usable : {A : Type 0} → Result A → Result A
usable (ok a) = ok a
usable (err e) = err (app internal e)

-- `aes.NewCipher` and `cipher.NewGCM`.
module _ (cipher : Text → Result Aead) where
  -- The loop of `NewKeyring`.
  unfoldable pub check_keys : List (Text × Text) → Result (List (Text × Aead))
  unfolding usable
  check_keys [] = ok []
  check_keys ((id, key) ∷ rest) = do
    refuse_if (is_empty id || has_dot id) (detailed internal key_id)
    refuse_if (not (length key == key_bytes)) (detailed internal key_size)
    aead ← usable (cipher key)
    others ← check_keys rest
    ok ((id, aead) ∷ others)

  unfoldable pub with_active : Text → List (Text × Aead) → Option Aead → Result Ring
  with_active active_id ring none = err (detailed internal no_active_key)
  with_active active_id ring (some _) = ok (record { keys = ring; active = active_id })

  -- `NewKeyring`.
  unfoldable pub new_keyring : List (Text × Text) → Text → Result Ring
  unfolding check_keys with_active key_of
  new_keyring [] active_id = err (refused internal no_keys)
  new_keyring (k ∷ ks) active_id = do
    ring ← check_keys (k ∷ ks)
    with_active active_id ring (key_of active_id ring)

-- The four fields, joined.
unfoldable pub sealed_value : Text → Text → Text → Text
unfolding encode
sealed_value id nonce ciphertext =
    version ++ (text "." ++ (id ++ (text "." ++ (encode nonce ++ (text "." ++ encode ciphertext)))))

unfoldable pub sealed_by : Text → Text → Text → Text → Option Aead → Result Text
unfolding sealed_value
sealed_by id nonce plaintext aad none = err (app internal str)
sealed_by id nonce plaintext aad (some aead) =
    ok (sealed_value id nonce (aead.seal_with nonce plaintext aad))

-- `Seal`, at the bytes that `rand.Read` drew or its error. The call at a missing active key
-- panics; `new_keyring` makes no such ring.
unfoldable pub seal : Ring → Result Text → Text → Text → Result Text
unfolding key_of usable sealed_by
seal ring drawn plaintext aad = do
  nonce ← usable drawn
  sealed_by ring.active nonce plaintext aad (key_of ring.active ring.keys)

prepend : ℕ → List Text → List Text
prepend x [] = (x ∷ []) ∷ []
prepend x (part ∷ parts) = (x ∷ part) ∷ parts

-- `strings.Split(value, ".")`.
unfoldable pub split_dots : Text → List Text
unfolding prepend
split_dots [] = [] ∷ []
split_dots (x ∷ xs) = let rest = split_dots xs in if x == b'.' then [] ∷ rest else prepend x rest

-- The four fields of a sealed value.
pub record Fields : Type 0 where
  pub ver : Text
  pub id : Text
  pub nonce : Text
  pub ciphertext : Text

-- `split`.
abbrev pub decoded : Option Text → Result Text
decoded none = err (detailed internal malformed)
decoded (some t) = ok t

unfoldable pub fields_of : List Text → Result Fields
unfolding decode
fields_of (v ∷ id ∷ n ∷ c ∷ []) = do
  nonce ← decoded (decode n)
  ciphertext ← decoded (decode c)
  ok (record { ver = v; id = id; nonce = nonce; ciphertext = ciphertext })
fields_of _ = err (detailed internal malformed)

unfoldable pub opened : Text → Fields → Option Aead → Result Text
opened aad f none = err (detailed internal unknown_sealing_key)
opened aad f (some aead) = do
  refuse_if (not (length f.nonce == nonce_size)) (detailed internal malformed)
  elim (aead.open_with f.nonce f.ciphertext aad) [
    | none ↦ err (refused internal cannot_open)
    | some plaintext ↦ ok plaintext
  ]

-- `Open`.
unfoldable pub open_value : Ring → Text → Text → Result Text
unfolding fields_of split_dots opened key_of
open_value ring value aad = do
  f ← fields_of (split_dots value)
  refuse_if (not (text_eqb f.ver version)) (detailed internal old_version)
  opened aad f (key_of f.id ring.keys)

-- `NeedsReseal`.
unfoldable pub needs_reseal : Ring → Text → Bool
unfolding fields_of split_dots text_eqb
needs_reseal ring value = elim (fields_of (split_dots value)) [
  | err e ↦ false
  | ok f ↦ not (text_eqb f.id ring.active)
]
