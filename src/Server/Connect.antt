-- ===== src/Server/Connect.antt =====
-- The CONNECT of an MQTT 5.0 session: `inspectV5Connect` of internal/app/server/inspect_v5.go.
-- `hex` is `fmt.Sprintf("%x", ...)`, and the clock counts nanoseconds.
pub mod Laws
pub mod Verdict
use meshtk.Prelude.{
  ℕ, ◌/◌, List, [], ◌∷◌, Bool, true, false, ◌||◌, not, Option, none, some, String, str_eq,
  if◌then◌else◌, Result, ok, err,
}
use meshtk.Credentials.{CacheLib, Credential, Fetched, AuthError, Settings, AuthState, verify}
use meshtk.Server.ConnTrack.{ConnTrack}
use meshtk.Server.Inspector.{ConnectionInfo}
use meshtk.Server.Uplink.{Reason, not_authorized, bad_authentication_method}

-- The Will of a CONNECT, in either codec. The properties are there in MQTT 5.0 only.
pub record Will : Type 0 where
  pub flag : Bool
  pub topic : String
  pub message : List ℕ
  pub properties : Option (List ℕ)
  pub qos : ℕ
  pub retain : Bool

pub record ConnectProperties : Type 0 where
  pub auth_method : String
  pub topic_alias_maximum : Option ℕ
  pub others : List ℕ

-- `others` stands for the fields that the proxy never writes.
pub record Connect : Type 0 where
  pub client_id : String
  pub username : String
  pub password : List ℕ
  pub keep_alive : ℕ
  pub properties : Option ConnectProperties
  pub will : Will
  pub others : List ℕ

-- What the proxy is configured with.
pub record ProxyConfig : Type 0 where
  pub passthrough : List String
  pub proxy_username : String
  pub proxy_password : List ℕ

abbrev pub no_will : Will
no_will = record {
  flag = false;
  topic = "";
  message = [];
  properties = none;
  qos = 0;
  retain = false;
}

unfoldable pub is_listed : String → List String → Bool
is_listed user [] = false
is_listed user (pt ∷ pts) = str_eq user pt || is_listed user pts

unfoldable pub cleared : Will → Will
cleared w = if w.flag then no_will else w

unfoldable pub without_alias : Option ConnectProperties → Option ConnectProperties
without_alias none = none
without_alias (some p) = some (record p { topic_alias_maximum = none })

abbrev pub strip_will : Connect → Connect
strip_will c = record c { will = cleared (c.will) }

abbrev pub strip_alias : Connect → Connect
strip_alias c = record c { properties = without_alias (c.properties) }

-- A client that offers enhanced authentication.
unfoldable pub has_auth_method : Option ConnectProperties → Bool
has_auth_method none = false
has_auth_method (some p) = not (str_eq (p.auth_method) "")

-- The entry of a connection that sent its CONNECT, written over what was there.
unfoldable pub connect_info : (List ℕ → String) → ℕ → String → ℕ → Connect → ConnectionInfo
connect_info hex now addr version c = record {
  client_id = c.client_id;
  username = c.username;
  password = hex (c.password);
  socket_address = addr;
  connect_time = now / 1000000000;
  gateway_id = "";
  protocol_version = version;
}

abbrev pub put_entry : String → ConnectionInfo → ConnTrack → ConnTrack
put_entry addr info m a = if str_eq a addr then some info else m a

abbrev pub swap_credentials : ProxyConfig → Connect → Connect
swap_credentials config c = record c {
  username = config.proxy_username;
  password = config.proxy_password;
}

-- What the authenticator answered: any error refuses.
abbrev pub when_valid : ProxyConfig → Connect → Result AuthError Bool → Result Reason Connect
when_valid config c (err e) = err not_authorized
when_valid config c (ok false) = err not_authorized
when_valid config c (ok true) = ok (swap_credentials config c)

module _ (l : CacheLib) (cfg : Settings) (config : ProxyConfig) where
  -- The credentials of a CONNECT, before anything is stripped from it: a user of the passthrough
  -- list keeps its own, and any other needs a name and a password that verifies.
  unfoldable pub authorize :
      ℕ
      → Fetched
      → Option (Result AuthError (Option Credential))
      → Connect
      → AuthState l cfg
      → AuthState l cfg × Result Reason Connect
  authorize now answer flight c s =
      if is_listed (c.username) (config.passthrough)
      then (s, ok c)
      else if str_eq (c.username) ""
      then (s, err not_authorized)
      else let (s', r) = verify l cfg now answer flight (c.username) (c.password) s in
        (s', when_valid config c r)

  -- What is stripped from a CONNECT that goes on.
  abbrev pub stripped : Result Reason Connect → Result Reason Connect
  stripped (err e) = err e
  stripped (ok c) = ok (strip_will (strip_alias c))

  unfoldable pub inspect_v5_connect :
      (List ℕ → String)
      → ℕ
      → String
      → Fetched
      → Option (Result AuthError (Option Credential))
      → Connect
      → ConnTrack
      → AuthState l cfg
      → ConnTrack × AuthState l cfg × Result Reason Connect
  inspect_v5_connect hex now addr answer flight c m s =
      let m' = put_entry addr (connect_info hex now addr 5 c) m in
      if has_auth_method (c.properties)
      then (m', s, err bad_authentication_method)
      else let (s', r) = authorize now answer flight c s in (m', s', stripped r)
