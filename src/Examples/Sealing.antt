-- ===== src/Examples/Sealing.antt =====
-- Sealing, the change of a key, and the signing secret of a callback, on concrete values.
use srosha.Prelude.{
  ℕ, zero, suc, ◌+◌, ◌≡◌, refl, ap, subst, sym, ◌∙◌, Bool, ◌==◌, true, false, not, none, some, List,
  [], ◌∷◌, All, Text, text, text_eqb, is_empty, trim_space, pos, arith,
}
use srosha.Errs.Result.{Result, ok, ok_injective}
use srosha.Source.{Source}
use srosha.Shared.Channel.{telegram}
use srosha.Webhook.{Webhook, Net, UrlPolicy, validate_url}
use srosha.Encode.Hex.{IsByte}
use srosha.Crypto.{Aead, Ring, seal, open_value, needs_reseal, new_keyring, key_of}
use srosha.Crypto.Rotation.{IsSound, open_value-seal}
use srosha.Crypto.Interface.{IsKeyring, keyring_of, keyring_of-IsKeyring}
use srosha.Vault.{Keyring, Vault, Row}
use srosha.Vault.Methods.{material}
use srosha.Vault.Resealed.{material_again}
use srosha.Table.{find_where, count_where, change_where}
use srosha.Registrar.{Hooks, register, rotate_secret, secret_for, read_hook}
use srosha.Registrar.Issued.{register-secret_for}
use srosha.Registrar.Again.{register_again, rotate_secret-secret_for}

-- A toy in the place of a cipher: numbers as strokes.
ones : ℕ → Text → Text
ones zero rest = rest
ones (suc n) rest = 1 ∷ ones n rest

strokes : Text → Text
unfolding ones
strokes [] = []
strokes (x ∷ xs) = ones x (0 ∷ strokes xs)

counted : ℕ → Text → Text
counted n [] = []
counted n (zero ∷ t) = n ∷ counted 0 t
counted n (suc _ ∷ t) = counted (suc n) t

counted-ones : (k n : ℕ) (rest : Text) → counted k (ones n (0 ∷ rest)) ≡ (k + n) ∷ counted 0 rest
unfolding ones counted
counted-ones k zero rest = ap (λ (y : ℕ). y ∷ counted 0 rest) (omega arith)
counted-ones k (suc n) rest =
    counted-ones (suc k) n rest ∙ ap (λ (y : ℕ). y ∷ counted 0 rest) (omega arith)

counted-strokes : (t : Text) → counted 0 (strokes t) ≡ t
unfolding strokes counted
counted-strokes [] = refl
counted-strokes (x ∷ xs) =
    counted-ones 0 x (strokes xs)
    ∙ ap (λ (y : ℕ). y ∷ counted 0 (strokes xs)) (omega arith)
    ∙ ap (λ (r : Text). x ∷ r) (counted-strokes xs)

ones-bytes : (n : ℕ) (rest : Text) → All IsByte rest → All IsByte (ones n rest)
unfolding ones
ones-bytes zero rest h = h
ones-bytes (suc n) rest h = (omega arith, ones-bytes n rest h)

strokes-bytes : (t : Text) → All IsByte (strokes t)
unfolding strokes
strokes-bytes [] = tt
strokes-bytes (x ∷ xs) = ones-bytes x (0 ∷ strokes xs) (omega arith, strokes-bytes xs)

abbrev toy : Aead
toy = record { seal_with = λ n p a. strokes p; open_with = λ n c a. some (counted 0 c) }

abbrev cipher : Text → Result Aead
cipher key = ok toy

abbrev old_key : Text × Text
old_key = (text "k1", text "0123456789abcdef0123456789abcdef")

abbrev new_key : Text × Text
new_key = (text "k2", text "fedcba9876543210fedcba9876543210")

abbrev before : List (Text × Text)
before = old_key ∷ []

abbrev after_change : List (Text × Text)
after_change = new_key ∷ (old_key ∷ [])

abbrev old_ring : Ring
old_ring = record { keys = (text "k1", toy) ∷ []; active = text "k1" }

abbrev new_ring : Ring
new_ring = record { keys = (text "k2", toy) ∷ ((text "k1", toy) ∷ []); active = text "k2" }

abbrev nonce : Text
nonce = text "abcdefghijkl"

toy-IsSound : (key : Text) (aead : Aead) → cipher key ≡ ok aead → IsSound aead
toy-IsSound key aead h =
    subst IsSound (ok_injective toy aead h)
      (record { reopens = λ n p a. ap some (counted-strokes p); bytes = λ n p a. strokes-bytes p })

nonce-bytes : All IsByte nonce
nonce-bytes = (
  omega arith,
  (
    omega arith,
    (
      omega arith,
      (
        omega arith,
        (
          omega arith,
          (
            omega arith,
            (
              omega arith,
              (omega arith, (omega arith, (omega arith, (omega arith, (omega arith, tt))))),
            ),
          ),
        ),
      ),
    ),
  ),
)

open_value-seal_example :
    (value : Text) × (seal old_ring (ok nonce) (text "token") (text "a|b") ≡ ok value)
    × (open_value new_ring value (text "a|b") ≡ ok (text "token"))
    × (needs_reseal new_ring value ≡ not (text_eqb (text "k1") (text "k2")))
unfolding new_keyring key_of text_eqb
open_value-seal_example =
    open_value-seal cipher before after_change (text "k1") (text "k2") old_ring new_ring nonce
      (text "token") (text "a|b") toy-IsSound refl refl refl nonce-bytes refl

keyring_of-IsKeyring_example : IsKeyring (keyring_of old_ring nonce)
unfolding new_keyring key_of text_eqb
keyring_of-IsKeyring_example =
    keyring_of-IsKeyring cipher before (text "k1") old_ring nonce toy-IsSound refl nonce-bytes refl

-- A simpler keyring: a mark in front of the secret, `m` for the active key and `o` for an old one.
abbrev marked : Keyring
marked = record {
  seal = λ p a. ok (b'm' ∷ p);
  open_sealed = λ v a. ok (unmarked v);
  needs_reseal = is_old;
}
  where
    is_old : Text → Bool
    is_old [] = false
    is_old (x ∷ t) = x == b'o'

    unmarked : Text → Text
    unmarked [] = []
    unmarked (x ∷ t) = t

marked-IsKeyring : IsKeyring marked
marked-IsKeyring = record {
  reopens =
      λ p a v h. ap (λ (x : Text). marked.open_sealed x a) (sym (ok_injective (b'm' ∷ p) v h));
  filled = λ p a v h. ap is_empty (sym (ok_injective (b'm' ∷ p) v h));
  current = λ p a v h. ap marked.needs_reseal (sym (ok_injective (b'm' ∷ p) v h));
}

abbrev shop : Source
shop = record {
  id = text "shop";
  name = text "Shop";
  description = [];
  max_priority = pos 1;
  is_active = true;
  owner_user_id = text "u2";
  approved_at = some 3;
  reviewed_at = some 3;
  review_note = [];
  allow_custom_address = true;
  default_addresses = [];
  created_at = 1;
  updated_at = 3;
}

abbrev net : Net
net = record {
  parse_url = λ t. some (record {
    scheme = text "https";
    host = text "shop.example";
    hostname = text "shop.example";
    has_user = false;
  });
  parse_addr = λ t. none;
}

abbrev strict : UrlPolicy
strict = record { allow_insecure = false; allow_private = false }

abbrev empty_hooks : Hooks
empty_hooks = record { sources = shop ∷ []; rows = [] }

abbrev hook : Webhook
hook = record {
  id = text "w1";
  source_id = text "shop";
  callback_url = text "https://shop.example/hook";
  created_at = 5;
  updated_at = 5;
  is_active = true;
  consecutive_failures = 0;
}

abbrev hooks : Hooks
hooks = record {
  sources = shop ∷ [];
  rows = record { hook = hook; secret = some (text "mwhsec_YWJj") } ∷ [];
}

register_test :
    register marked net strict
      (ok (text "abc"))
      (text "w1")
      5
      (text "shop")
      (text "https://shop.example/hook")
      (empty_hooks, [])
    ≡ (ok (hook, text "whsec_YWJj"), (hooks, []))
unfolding register find_where text_eqb validate_url trim_space count_where change_where
register_test = refl

register-secret_for_example : secret_for marked (text "shop") hooks ≡ some (text "whsec_YWJj")
unfolding read_hook find_where
register-secret_for_example =
    register-secret_for marked marked-IsKeyring net strict (ok (text "abc")) (text "w1") 5
      (text "shop") (text "https://shop.example/hook") (empty_hooks, []) (hooks, []) hook
      (text "whsec_YWJj") refl register_test

abbrev moved_hook : Webhook
moved_hook = record hook { callback_url = text "https://new.shop.example"; updated_at = 9 }

abbrev moved_hooks : Hooks
moved_hooks = record hooks {
  rows = record { hook = moved_hook; secret = some (text "mwhsec_YWJj") } ∷ [];
}

again_test :
    register marked net strict
      (ok (text "xyz"))
      (text "w2")
      9
      (text "shop")
      (text "https://new.shop.example")
      (hooks, [])
    ≡ (ok (moved_hook, []), (moved_hooks, []))
unfolding register find_where text_eqb validate_url trim_space count_where change_where
again_test = refl

register_again_example :
    ◌≡◌ {A = Text} [] []
    × (secret_for marked (text "shop") moved_hooks ≡ secret_for marked (text "shop") hooks)
unfolding read_hook find_where text_eqb
register_again_example =
    register_again marked net strict (ok (text "xyz")) (text "w2") 9 (text "shop")
      (text "https://new.shop.example") (hooks, []) (moved_hooks, []) hook moved_hook [] refl
      again_test

abbrev rotated_hooks : Hooks
rotated_hooks = record hooks {
  rows = record { hook = record hook { updated_at = 9 }; secret = some (text "mwhsec_eHl6") } ∷ [];
}

rotate_test :
    rotate_secret marked (ok (text "xyz")) 9 (text "shop") (hooks, [])
    ≡ (ok (text "whsec_eHl6"), (rotated_hooks, []))
unfolding rotate_secret find_where text_eqb count_where change_where
rotate_test = refl

rotate_secret-secret_for_example :
    secret_for marked (text "shop") rotated_hooks ≡ some (text "whsec_eHl6")
rotate_secret-secret_for_example =
    rotate_secret-secret_for marked marked-IsKeyring (ok (text "xyz")) 9 (text "shop") (hooks, [])
      (rotated_hooks, []) (text "whsec_eHl6") rotate_test

abbrev bot : Row
bot = record {
  cred = record {
    id = text "k1";
    source_id = text "shop";
    channel = telegram;
    name = text "news";
    created_at = 1;
    updated_at = 1;
    is_default = true;
    is_active = true;
  };
  config = text "{}";
  secret = some (text "otoken");
}

abbrev vault : Vault
vault = record { sources = []; rows = bot ∷ [] }

abbrev resealed_vault : Vault
resealed_vault = record {
  sources = [];
  rows =
      record bot { secret = some (text "mtoken"); cred = record bot.cred { updated_at = 7 } } ∷ [];
}

material_test :
    material marked 7 (text "shop") telegram (text "k1") (vault, [])
    ≡ (ok (text "{}", text "token"), (resealed_vault, []))
unfolding material find_where text_eqb count_where change_where
material_test = refl

material_again_example :
    (material marked 8 (text "shop") telegram (text "k1") (resealed_vault, [])).0
    ≡ ok (text "{}", text "token")
material_again_example =
    material_again marked marked-IsKeyring (text "shop") telegram (text "k1") 7 8 (text "{}")
      (text "token") (vault, []) (resealed_vault, []) material_test
