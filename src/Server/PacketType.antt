-- ===== src/Server/PacketType.antt =====
-- The packet types of MQTT 5.0 that the proxy tells apart: internal/app/server/proxy_v5.go.
use meshtk.Prelude.{ℕ}

abbrev pub connect : ℕ
connect = 1

abbrev pub connack : ℕ
connack = 2

abbrev pub publish : ℕ
publish = 3

abbrev pub subscribe : ℕ
subscribe = 8

abbrev pub suback : ℕ
suback = 9

abbrev pub unsuback : ℕ
unsuback = 11

abbrev pub pingresp : ℕ
pingresp = 13

abbrev pub disconnect : ℕ
disconnect = 14

abbrev pub auth : ℕ
auth = 15
