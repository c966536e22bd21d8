-- ===== src/Server/ConnTrack.antt =====
-- The connection tracker of internal/app/server/inspect.go. Times are seconds.
pub mod Logins
use meshtk.Prelude.{ℕ, ◌+◌, Option, none, some, String, str_eq, ltb, if◌then◌else◌}
use meshtk.Server.Inspector.{ConnectionInfo}

abbrev pub ConnTrack : Type 0
ConnTrack = String → Option ConnectionInfo

abbrev pub on_entry :
    (ConnectionInfo → ConnectionInfo) → Option ConnectionInfo → Option ConnectionInfo
on_entry f none = none
on_entry f (some info) = some (f info)

-- An update of an entry that exists.
abbrev pub update : String → (ConnectionInfo → ConnectionInfo) → ConnTrack → ConnTrack
update addr f m a = if str_eq a addr then on_entry f (m a) else m a

unfoldable pub touch_conn_track : ℕ → String → ConnTrack → ConnTrack
touch_conn_track now addr m = update addr (λ info. record info { connect_time = now }) m

unfoldable pub remember_gateway : String → String → ConnTrack → ConnTrack
remember_gateway addr gateway m = update addr (λ info. record info { gateway_id = gateway }) m

-- "" for a connection without an entry.
unfoldable pub gateway_for : String → ConnTrack → String
gateway_for addr m = elim (m addr) [ none ↦ "" | some info ↦ info.gateway_id ]

abbrev pub or_given : ConnectionInfo → Option ConnectionInfo → ConnectionInfo
or_given given none = given
or_given given (some info) = info

-- `SetConnTrack`: the entry is refreshed, and the packet is given the entry, if there is one.
unfoldable pub set_conn_track : ℕ → String → ConnectionInfo → ConnTrack → ConnTrack × ConnectionInfo
unfolding touch_conn_track
set_conn_track now addr given m =
    let m' = touch_conn_track now addr m in (m', or_given given (m' addr))

-- One round of the reaper: `now - ConnectTime > 180`, said as a sum.
abbrev pub unless_stale : ℕ → Option ConnectionInfo → Option ConnectionInfo
unless_stale now none = none
unless_stale now (some info) = if ltb (info.connect_time + 180) now then none else some info

unfoldable pub reap : ℕ → ConnTrack → ConnTrack
reap now m a = unless_stale now (m a)
