-- ===== src/Server/Connect/Laws.antt =====
-- What a CONNECT is when `inspectV5Connect` of internal/app/server/inspect_v5.go lets it go on.
use meshtk.Prelude.{
  ℕ, List, true, false, Bool-cases, Option, none, some, String, ◌≡◌, ◌⊎◌, inl, inr, refl, subst,
  arith, Result, ok, err,
}
use meshtk.Credentials.{CacheLib, Credential, Fetched, AuthError, Settings, AuthState, verify}
use meshtk.Credentials.Laws.{CacheLaws, Honest, Reachable, verify-Issued}
use meshtk.Server.ConnTrack.{ConnTrack}
use meshtk.Server.Connect.{
  Connect, ConnectProperties, ProxyConfig, swap_credentials, Will, cleared, without_alias,
  is_listed, strip_will, strip_alias, has_auth_method, authorize, stripped, inspect_v5_connect,
}
use meshtk.Server.Uplink.{Reason}

-- What a CONNECT `c` becomes when it goes on: no Will is asked for and no topic aliases are offered,
-- and the rest that the broker acts on is as it was.
pub record Stripped (c c' : Connect) : Type 0 where
  pub willless : c'.will.flag ≡ false
  pub aliasless : (p : ConnectProperties) → c'.properties ≡ some p → p.topic_alias_maximum ≡ none
  pub same_client : c'.client_id ≡ c.client_id
  pub same_user : c'.username ≡ c.username
  pub same_password : c'.password ≡ c.password
  pub same_keep_alive : c'.keep_alive ≡ c.keep_alive
  pub same_others : c'.others ≡ c.others

pub cleared-flag : (w : Will) → (cleared w).flag ≡ false
unfolding cleared
cleared-flag w = ground arith

without_alias-none :
    (o : Option ConnectProperties) (p : ConnectProperties)
    → without_alias o ≡ some p
    → p.topic_alias_maximum ≡ none
unfolding without_alias
without_alias-none none p h = ground arith
without_alias-none (some q) p h = ground arith

strip-Stripped : (c : Connect) → Stripped c (strip_will (strip_alias c))
strip-Stripped c = record {
  willless = cleared-flag (c.will);
  aliasless = without_alias-none (c.properties);
  same_client = refl;
  same_user = refl;
  same_password = refl;
  same_keep_alive = refl;
  same_others = refl;
}

module _ (l : CacheLib) (cfg : Settings) (config : ProxyConfig) where
  pub authorize_cases :
      (now : ℕ) (answer : Fetched) (flight : Option (Result AuthError (Option Credential)))
      (c : Connect) (s : AuthState l cfg) {c' : Connect}
      → (authorize l cfg config now answer flight c s).1 ≡ ok c'
      → ((is_listed (c.username) (config.passthrough) ≡ true) × (c' ≡ c))
        ⊎ (((verify l cfg now answer flight (c.username) (c.password) s).1 ≡ ok true)
            × (c' ≡ swap_credentials config c))
  unfolding authorize
  authorize_cases now answer flight c s h = ground arith

  stripped_ok :
      (r : Result Reason Connect) {c' : Connect}
      → stripped l cfg config r ≡ ok c'
      → (c : Connect) × (r ≡ ok c) × Stripped c c'
  stripped_ok (err e) h = cc
  stripped_ok (ok c) h = (c, refl, subst (Stripped c) (ground arith) (strip-Stripped c))

  -- How a CONNECT `c` came to be let on as `c'`: of a user of the passthrough list with its own
  -- credentials, or with those of the proxy in place of a password that the authenticator accepted.
  abbrev pub LetOn :
      ℕ
      → Fetched
      → Option (Result AuthError (Option Credential))
      → AuthState l cfg
      → Connect
      → Connect
      → Type 0
  LetOn now answer flight s c c' =
      (((is_listed (c.username) (config.passthrough) ≡ true) × Stripped c c'))
      ⊎ (((verify l cfg now answer flight (c.username) (c.password) s).1 ≡ ok true)
          × Stripped (swap_credentials config c) c')

  pub inspect_v5_connect-LetOn :
      (hex : List ℕ → String) (now : ℕ) (addr : String) (answer : Fetched)
      (flight : Option (Result AuthError (Option Credential))) (c c' : Connect) (m : ConnTrack)
      (s : AuthState l cfg)
      → (inspect_v5_connect l cfg config hex now addr answer flight c m s).2 ≡ ok c'
      → (has_auth_method (c.properties) ≡ false) × LetOn now answer flight s c c'
  unfolding inspect_v5_connect
  inspect_v5_connect-LetOn hex now addr answer flight c c' m s h =
      elim (Bool-cases (has_auth_method (c.properties))) [
        | inl offers ↦ absurd (ground arith)
        | inr plain ↦
            let (d, authorized, clean) =
              stripped_ok (authorize l cfg config now answer flight c s).1 {c' = c'}
                (rw (plain, inspect_v5_connect) at h) in
            (
              plain,
              elim (authorize_cases now answer flight c s authorized) [
                | inl (listed, same) ↦ inl (listed, subst (λ x. Stripped x c') same clean)
                | inr (accepted, swapped) ↦ inr (accepted, subst (λ x. Stripped x c') swapped clean)
              ],
            )
      ]

-- Over a cache with its laws and a store whose answers are issued, a CONNECT is let on only without
-- enhanced authentication, and then without a Will and without topic aliases: either its user is on
-- the passthrough list and keeps its own credentials, or its password is that of a credential the
-- store issued to its user and the broker is shown the proxy's credentials instead. The client
-- identifier, the keep-alive and the rest stay.
pub inspect_v5_connect-Issued :
    (l : CacheLib) (cfg : Settings) (config : ProxyConfig) (Issued : String → Credential → Type 0)
    → CacheLaws l
    → (hex : List ℕ → String) (now : ℕ) (addr : String) (answer : Fetched)
      (flight : Option (Result AuthError (Option Credential))) (c c' : Connect) (m : ConnTrack)
      (s : AuthState l cfg)
    → Reachable l cfg Issued s
    → Honest l cfg Issued (c.username) answer flight
    → (inspect_v5_connect l cfg config hex now addr answer flight c m s).2 ≡ ok c'
    → (has_auth_method (c.properties) ≡ false)
      × (((is_listed (c.username) (config.passthrough) ≡ true) × Stripped c c')
          ⊎ ((k : Credential) × Issued (c.username) k
              × (k.password ≡ c.password)
              × Stripped (swap_credentials config c) c'))
inspect_v5_connect-Issued l cfg config Issued laws hex now addr answer flight c c' m s r honest h =
    let (plain, how) =
      inspect_v5_connect-LetOn l cfg config hex now addr answer flight c c' m s h in
    (
      plain,
      elim how [
        | inl (listed, clean) ↦ inl (listed, clean)
        | inr (accepted, clean) ↦
            let (k, issued, same) =
              verify-Issued l cfg Issued laws now answer flight (c.username) (c.password) r honest
                accepted in
            inr (k, issued, same, clean)
      ],
    )
