-- ===== src/Source/Routes/Allowed.antt =====
-- To whom a source may send.
use srosha.Prelude.{
  ◌≡◌, refl, sym, ap, subst, ◌∙◌, ◌⊎◌, inl, inr, ◌≢◌, Bool, true, false, List, [], ◌∷◌, ◌++◌, map,
  Text, is_empty, All, Bool-cases,
}
use srosha.Errs.Result.{ok, then_inv, bind_inv, ok_injective}
use srosha.Shared.Channel.{Channel}
use srosha.Shared.Recipient.{Recipient, validate}
use srosha.Source.{Source}
use srosha.Source.Routes.{Route, default_address, one, resolve, resolve_each, resolve_routes}

-- The recipient that a route stands for: its own address, or the source's default.
abbrev chosen : Bool → Text → Text → Text
chosen true own fallback = fallback
chosen false own fallback = own

abbrev pub target : Source → Route → Recipient
target s r = record {
  channel = r.channel;
  address = chosen (is_empty r.address) r.address (default_address s.default_addresses r.channel);
}

one_inv :
    (is_mail : Text → Bool) (c : Channel) (a : Text) (rs : List Recipient)
    → one is_mail c a ≡ ok rs
    → let q : Recipient = record { channel = c; address = a } in
      (rs ≡ q ∷ []) × (validate is_mail q ≡ ok tt)
unfolding one
one_inv is_mail c a rs h =
    let q : Recipient = record { channel = c; address = a } in
    let (good, h1) = then_inv (validate is_mail q) _ h in (cc, good)

-- One route is answered by the one recipient that it stands for, and names an address of its own
-- only where the source may.
resolve_inv :
    (is_mail : Text → Bool) (s : Source) (r : Route) (rs : List Recipient)
    → resolve is_mail s r.channel r.address ≡ ok rs
    → (rs ≡ target s r ∷ [])
      × (validate is_mail (target s r) ≡ ok tt)
      × ((is_empty r.address ≡ true) ⊎ (s.allow_custom_address ≡ true))
unfolding resolve
resolve_inv is_mail s r rs h = elim (Bool-cases (is_empty r.address)) [
  | inl e ↦ elim (Bool-cases (is_empty (default_address s.default_addresses r.channel))) [
    | inl missing ↦ let h1 = rw (e, missing) at h in cc
    | inr found ↦
        let h1 = rw (e, found) at h in
        let (same, good) =
          one_inv is_mail r.channel (default_address s.default_addresses r.channel) rs h1 in
        rw e (same, good, inl refl)
  ]
  | inr own ↦ elim (Bool-cases s.allow_custom_address) [
    | inl allowed ↦
        let h1 = rw (own, allowed) at h in
        let (same, good) = one_inv is_mail r.channel r.address rs h1 in
        rw own (same, good, inr allowed)
    | inr refused ↦ let h1 = rw (own, refused) at h in cc
  ]
]

module _ (is_mail : Text → Bool) (s : Source) where
  abbrev AllValid : List Recipient → Type 0
  AllValid = All (λ r. validate is_mail r ≡ ok tt)

  resolve_each_inv :
      (routes : List Route) (rs : List Recipient)
      → resolve_each is_mail s routes ≡ ok rs
      → (rs ≡ map (target s) routes)
        × All (λ r. validate is_mail r ≡ ok tt) rs
        × All (λ r. (is_empty r.address ≡ true) ⊎ (s.allow_custom_address ≡ true)) routes
  unfolding resolve_each
  resolve_each_inv [] rs h = let e = ok_injective [] rs h in (sym e, subst AllValid e tt, tt)
  resolve_each_inv (r ∷ routes) rs h =
      let (here, e, h1) = bind_inv (resolve is_mail s r.channel r.address) _ h in
      let (rest, e', h2) = bind_inv (resolve_each is_mail s routes) _ h1 in
      let (same, good, own) = resolve_inv is_mail s r here e in
      let (same', good', own') = resolve_each_inv routes rest e' in
      let made : target s r ∷ rest ≡ rs =
        ok_injective _ rs (sym (ap (λ (x : List Recipient). ok (x ++ rest)) same) ∙ h2) in
      (
        sym made ∙ ap (λ (x : List Recipient). target s r ∷ x) same',
        subst AllValid made (good, good'),
        (own, own'),
      )

  -- What a request's routes are resolved to is one recipient for each route, in their order: the
  -- route's own address or, where it names none, the source's default for the channel. All of
  -- them are valid, and a source without the permission for custom addresses has named none.
  pub resolve_routes-targets :
      (routes : List Route) (rs : List Recipient)
      → resolve_routes is_mail s routes ≡ ok rs
      → (rs ≡ map (target s) routes)
        × (rs ≢ [])
        × All (λ r. validate is_mail r ≡ ok tt) rs
        × All (λ r. (is_empty r.address ≡ true) ⊎ (s.allow_custom_address ≡ true)) routes
  unfolding resolve_routes
  resolve_routes-targets [] rs h = cc
  resolve_routes-targets (r ∷ routes) rs h =
      let (same, good, own) = resolve_each_inv (r ∷ routes) rs h in (same, λ e. cc, good, own)
