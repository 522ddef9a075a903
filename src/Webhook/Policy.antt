-- ===== src/Webhook/Policy.antt =====
-- Which callback addresses are accepted.
use srosha.Prelude.{
  ◌≡◌, refl, ◌↔◌, ◌⊎◌, inl, inr, Bool, true, false, not, ◌&&◌, Option, some, none, Text, text,
  text_eqb, text_eqb_iff, is_empty, trim_space, arith, Bool-cases,
}
use srosha.Errs.{refused, detailed, invalid_input, malformed_url, credentials_in_url}
use srosha.Errs.Result.{ok, then_inv, refuse_if, refuse_if_inv}
use srosha.Webhook.{UrlPolicy, Url, Net, is_private_host, check_scheme, check_url, validate_url}

-- `https`, or `http` where that is allowed.
abbrev pub IsSecure : UrlPolicy → Text → Type 0
IsSecure p scheme = (scheme ≡ text "https") ⊎ ((scheme ≡ text "http") × (p.allow_insecure ≡ true))

abbrev pub IsAllowedUrl : Net → UrlPolicy → Url → Type 0
IsAllowedUrl net p u =
    (is_empty u.host ≡ false)
    × (u.has_user ≡ false)
    × IsSecure p u.scheme
    × ((p.allow_private ≡ true) ⊎ (is_private_host net u.hostname ≡ false))

abbrev pub IsAllowed : Net → UrlPolicy → Text → Type 0
IsAllowed net p raw =
    (is_empty (trim_space raw) ≡ false)
    × ((u : Url) × (net.parse_url raw ≡ some u) × IsAllowedUrl net p u)

secure-accepted : (p : UrlPolicy) (s : Text) → IsSecure p s → check_scheme p s ≡ ok tt
unfolding check_scheme text_eqb
secure-accepted p s (inl e) = rw e refl
secure-accepted p s (inr (e, a)) = rw (e, a) refl

check_scheme-IsSecure : (p : UrlPolicy) (s : Text) → (check_scheme p s ≡ ok tt) ↔ IsSecure p s
unfolding check_scheme
check_scheme-IsSecure p s = (
  λ h. ground (arith, text_eqb_iff s (text "https"), text_eqb_iff s (text "http")),
  secure-accepted p s,
)

not_inside : (b c : Bool) → (not b && c ≡ false) ↔ ((b ≡ true) ⊎ (c ≡ false))
not_inside b c = (λ h. ground arith, λ h. ground arith)

check_url-IsAllowedUrl :
    (net : Net) (p : UrlPolicy) (u : Url) → (check_url net p u ≡ ok tt) ↔ IsAllowedUrl net p u
unfolding check_url
check_url-IsAllowedUrl net p u = (forth, back)
  where
    forth : check_url net p u ≡ ok tt → IsAllowedUrl net p u
    forth h =
        let (a, h1) =
          then_inv (refuse_if (is_empty u.host) (detailed invalid_input malformed_url)) _ h in
        let (b, h2) =
          then_inv (refuse_if u.has_user (refused invalid_input credentials_in_url)) _ h1 in
        let (c, d) = then_inv (check_scheme p u.scheme) _ h2 in
        (
          refuse_if_inv _ _ a,
          refuse_if_inv _ _ b,
          (check_scheme-IsSecure p u.scheme).0 c,
          (not_inside p.allow_private (is_private_host net u.hostname)).0 (refuse_if_inv _ _ d),
        )

    back : IsAllowedUrl net p u → check_url net p u ≡ ok tt
    back (a, b, c, d) =
        rw
          (
            a,
            b,
            (check_scheme-IsSecure p u.scheme).1 c,
            (not_inside p.allow_private (is_private_host net u.hostname)).1 d,
          )
          refl

parsed-IsAllowed :
    (net : Net) (p : UrlPolicy) (raw : Text) (found : Option Url)
    → net.parse_url raw ≡ found
    → is_empty (trim_space raw) ≡ false
    → validate_url net raw p ≡ ok tt
    → IsAllowed net p raw
unfolding validate_url
parsed-IsAllowed net p raw none f e h = let bad = rw (e, f) at h in cc
parsed-IsAllowed net p raw (some u) f e h =
    (e, (u, f, (check_url-IsAllowedUrl net p u).0 (rw (e, f) at h)))

-- A callback address is accepted exactly when it is not blank, parses, has a host and no
-- credentials, is `https` or, where the policy says so, `http`, and its host is not private unless
-- the policy allows that.
pub validate_url-IsAllowed :
    (net : Net) (p : UrlPolicy) (raw : Text)
    → (validate_url net raw p ≡ ok tt) ↔ IsAllowed net p raw
unfolding validate_url
validate_url-IsAllowed net p raw = (forth, back)
  where
    forth : validate_url net raw p ≡ ok tt → IsAllowed net p raw
    forth h = elim (Bool-cases (is_empty (trim_space raw))) [
      | inl t ↦ let bad = rw t at h in cc
      | inr t ↦ parsed-IsAllowed net p raw (net.parse_url raw) refl t h
    ]

    back : IsAllowed net p raw → validate_url net raw p ≡ ok tt
    back (e, (u, f, a)) = rw (e, f) ((check_url-IsAllowedUrl net p u).1 a)
