-- ===== src/Server/Route.antt =====
-- Which protocol a connection speaks, and how long its silence is borne: `peekConnectProtocolVersion`,
-- the branch of `handleProxy` on it, and `proxyReadTimeout` of internal/app/server/proxy.go.
pub mod Laws
use meshtk.Prelude.{
  ℕ, zero, suc, ◌+◌, ◌*◌, ◌/◌, List, [], ◌∷◌, Bool, true, false, ◌&&◌, Option, none, some, length,
  take, drop, ltb, leb, ◌==◌, if◌then◌else◌,
}

-- Durations are nanoseconds.
abbrev pub second : ℕ
second = 1000000000

abbrev pub default_proxy_read_timeout : ℕ
default_proxy_read_timeout = 180 * second

abbrev pub min_proxy_read_timeout : ℕ
min_proxy_read_timeout = 60 * second

-- A keep-alive has 16 bits, so the product does not overflow.
unfoldable pub proxy_read_timeout : ℕ → ℕ
proxy_read_timeout keepalive_secs =
    let d = keepalive_secs * second * 3 / 2 in
    if keepalive_secs == 0
    then default_proxy_read_timeout
    else if ltb d min_proxy_read_timeout
    then min_proxy_read_timeout
    else d

-- The bytes behind the remaining length: its loop looks at four bytes, and steps over the one that
-- ends it, or over the one behind them. The first argument counts the bytes left of the four.
unfoldable pub skip_length : ℕ → List ℕ → List ℕ
skip_length _ [] = []
skip_length zero (_ ∷ hdr) = hdr
skip_length (suc k) (d ∷ hdr) = let rest = skip_length k hdr in if ltb d 128 then hdr else rest

-- The name of the protocol, preceded by its length, and then the level.
unfoldable pub level_of : List ℕ → Option ℕ
level_of (x0 ∷ x1 ∷ m ∷ q ∷ t ∷ t' ∷ level ∷ _) =
    if x0 == 0 && x1 == 4 && m == b'M' && q == b'Q' && t == b'T' && t' == b'T'
    then some level
    else none
level_of _ = none

unfoldable pub peek_level : List ℕ → Option ℕ
peek_level [] = none
peek_level (b0 ∷ hdr) = if b0 / 16 == 1 then level_of (skip_length 4 hdr) else none

-- `Peek(12)`: a connection that sends less is not looked at.
unfoldable pub peek_connect_protocol_version : List ℕ → Option ℕ
peek_connect_protocol_version input =
    if ltb (length input) 12 then none else peek_level (take 12 input)

-- Where `handleProxy` sends a connection.
pub data Route : Type 0 where
  unsupported version5 version3 : Route

unfoldable pub route_level : Option ℕ → Route
route_level none = version3
route_level (some level) =
    if ltb 5 level then unsupported else if level == 5 then version5 else version3

unfoldable pub route : List ℕ → Route
route input = route_level (peek_connect_protocol_version input)
