-- ===== src/Server/Connect/Verdict.antt =====
-- Which CONNECT `inspectV5Connect` of internal/app/server/inspect_v5.go lets go on.
use meshtk.Credentials.{CacheLib, Credential, Fetched, AuthError, Settings, AuthState, verify}
use meshtk.Prelude.{
  ℕ, List, Bool, true, false, Bool-cases, Option, String, str_eq, eq_iff, ◌≡◌, ◌≢◌, ◌⊎◌, inl, inr,
  refl, ap, Result, ok, err,
}
use meshtk.Server.Connect.{
  Connect, ProxyConfig, swap_credentials, strip_will, strip_alias, is_listed, has_auth_method,
  when_valid, authorize, stripped, inspect_v5_connect,
}
use meshtk.Server.ConnTrack.{ConnTrack}
use meshtk.Server.Uplink.{Reason, not_authorized, bad_authentication_method}

module _ (l : CacheLib) (cfg : Settings) (config : ProxyConfig) where
  when_valid_cases :
      (c : Connect) (r : Result AuthError Bool)
      → ((r ≡ ok true) × (when_valid config c r ≡ ok (swap_credentials config c)))
        ⊎ ((r ≢ ok true) × (when_valid config c r ≡ err not_authorized))
  when_valid_cases c (err e) = inr ((λ h. cc), refl)
  when_valid_cases c (ok false) = inr ((λ h. cc), refl)
  when_valid_cases c (ok true) = inl (refl, refl)

  module _ (now : ℕ) (answer : Fetched) (flight : Option (Result AuthError (Option Credential)))
      (s : AuthState l cfg) (c : Connect) where
    abbrev Verified : Type 0
    Verified = (verify l cfg now answer flight c.username c.password s).1 ≡ ok true

    -- A client of the passthrough list, or with a name and a password that verifies.
    abbrev HasAccess : Type 0
    HasAccess = (is_listed c.username config.passthrough ≡ true) ⊎ ((c.username ≢ "") × Verified)

    abbrev NoAccess : Type 0
    NoAccess =
        (is_listed c.username config.passthrough ≡ false)
        × ((c.username ≡ "") ⊎ ((c.username ≢ "") × (Verified → ⊥)))

    abbrev pub Authorized : Type 0
    Authorized = (has_auth_method c.properties ≡ false) × HasAccess

    abbrev pub Refused : Reason → Type 0
    Refused why =
        ((has_auth_method c.properties ≡ true) × (why ≡ bad_authentication_method))
        ⊎ ((has_auth_method c.properties ≡ false) × NoAccess × (why ≡ not_authorized))

    authorize_verdict :
        ((c' : Connect) × ((authorize l cfg config now answer flight c s).1 ≡ ok c') × HasAccess)
        ⊎ (((authorize l cfg config now answer flight c s).1 ≡ err not_authorized) × NoAccess)
    unfolding authorize
    authorize_verdict = elim (Bool-cases (is_listed c.username config.passthrough)) [
      | inl listed ↦ inl (c, (rw (listed, authorize) refl), inl listed)
      | inr unlisted ↦ elim (Bool-cases (str_eq c.username "")) [
        | inl unnamed ↦ inr (
          (rw (unlisted, unnamed, authorize) refl),
          (unlisted, inl ((eq_iff c.username "").0 unnamed)),
        )
        | inr named ↦
            let is_named : c.username ≢ "" = λ h. cc (named, (eq_iff c.username "").1 h) in
            elim (when_valid_cases c (verify l cfg now answer flight c.username c.password s).1) [
              | inl (valid, e) ↦ inl (
                swap_credentials config c,
                (rw (unlisted, named, authorize) e),
                inr (is_named, valid),
              )
              | inr (invalid, e) ↦
                  inr ((rw (unlisted, named, authorize) e), (unlisted, inr (is_named, invalid)))
            ]
      ]
    ]

    pub inspect_v5_connect-verdict :
        (hex : List ℕ → String) (addr : String) (m : ConnTrack)
        → let r = (inspect_v5_connect l cfg config hex now addr answer flight c m s).2 in
          ((c' : Connect) × (r ≡ ok c') × Authorized)
          ⊎ ((why : Reason) × (r ≡ err why) × Refused why)
    unfolding inspect_v5_connect
    inspect_v5_connect-verdict hex addr m = elim (Bool-cases (has_auth_method c.properties)) [
      | inl offers ↦
          inr
            (bad_authentication_method, (rw (offers, inspect_v5_connect) refl), inl (offers, refl))
      | inr plain ↦ elim authorize_verdict [
        | inl (c', e, access) ↦ inl (
          strip_will (strip_alias c'),
          (rw (plain, inspect_v5_connect) (ap (stripped l cfg config) e)),
          (plain, access),
        )
        | inr (e, denied) ↦ inr (
          not_authorized,
          (rw (plain, inspect_v5_connect) (ap (stripped l cfg config) e)),
          inr (plain, denied, refl),
        )
      ]
    ]
