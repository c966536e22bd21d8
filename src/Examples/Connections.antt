-- ===== src/Examples/Connections.antt =====
-- Connections of the account of the store: over MQTT 5.0, over MQTT 3.1.1, and the way back.
use meshtk.Prelude.{
  ℕ, ◌≡◌, refl, ◌≢◌, ◌↔◌, List, [], ◌∷◌, ◌++◌, true, false, Option, some, none, String, arith, ok,
  err, Result, length, ◌==◌, if◌then◌else◌,
}
use meshtk.Credentials.{found, default_settings}
use meshtk.Credentials.Laws.{start}
use meshtk.Examples.Credentials.{cache_lib, cache_lib-CacheLaws, sensor, cold, Issued}
use meshtk.Examples.Libraries.{libs}
use meshtk.Examples.Server.{envelope_bytes, public_user}
use meshtk.Examples.Session.{pings, round}
use meshtk.Examples.Uplink.{channels, tracked, here}
use meshtk.Server.Connect.{Connect, ProxyConfig}
use meshtk.Server.ConnTrack.{ConnTrack}
use meshtk.Server.Classic.{
  Content, connecting, other, PahoCodec, ClassicRound, Classic, started, uplink_packet,
}
use meshtk.Server.Classic.Laws.{GivesClassic, uplink_packet-GivesClassic}
use meshtk.Server.Downlink.{ConnackCodec, downlink_frame}
use meshtk.Server.Downlink.Laws.{Echo, downlink_frame-Echo}
use meshtk.Server.Handler.{ConnectCodec, Arrival, handle_proxy_v5}
use meshtk.Server.Handler.Answers.{Treated, handle_proxy_v5-Treated}
use meshtk.Server.Handler.Laws.{Brokered, handle_proxy_v5-Brokered}
use meshtk.Server.Inspector.{connect, publish, disconnect}
use meshtk.Server.PacketType
use meshtk.Server.Rules.{installed_rules}
use meshtk.Server.Uplink.{Codec}
use meshtk.Wire.Frame.{eof, fault, Frame, FrameError}

-- A client of the account, with a Will.
abbrev sensor_connect : Connect
sensor_connect = record {
  client_id = "node";
  username = "sensor";
  password = 1 ∷ 2 ∷ [];
  keep_alive = 60;
  properties = some (record { auth_method = ""; topic_alias_maximum = some 8; others = [] });
  will = record {
    flag = true;
    topic = "m";
    message = 7 ∷ [];
    properties = none;
    qos = 1;
    retain = true;
  };
  others = [];
}

abbrev config : ProxyConfig
config = record { passthrough = "public" ∷ []; proxy_username = "proxy"; proxy_password = 9 ∷ [] }

abbrev no_hex : List ℕ → String
no_hex b = ""

-- A codec that reads CONNECT frames, each as that client's.
abbrev read_connect_only : List ℕ → Option (List ℕ)
read_connect_only [] = none
read_connect_only (b0 ∷ b) = if b0 == 0x10 then some b else none

abbrev codec : Codec
codec = record {
  Packet = List ℕ;
  read_packet = read_connect_only;
  content = λ p. connect;
  has_topic_alias = λ p. false;
  subscriptions = λ p. [];
  write_to = λ p c. none;
}

abbrev connects : ConnectCodec codec
connects = record {
  as_connect = λ p. some sensor_connect;
  write_connect = λ p c. some (0x10 ∷ length c.password ∷ c.password);
}

abbrev arrival : Arrival
arrival = record {
  now = 200;
  answer = found sensor;
  flight = none;
  dial_ok = true;
  write_ok = true;
}

handle_proxy_v5-Brokered_example :
    Brokered libs codec connects
      (installed_rules libs)
      channels
      cache_lib
      default_settings
      config
      no_hex
      here
      Issued
      eof
      (0x10 ∷ 0 ∷ pings)
      (handle_proxy_v5 libs codec connects
        (installed_rules libs)
        channels
        cache_lib
        default_settings
        config
        no_hex
        here
        (round ∷ round ∷ [])
        eof
        (0x10 ∷ 0 ∷ pings)
        arrival
        tracked
        cold).session.sent
handle_proxy_v5-Brokered_example =
    handle_proxy_v5-Brokered libs codec connects (installed_rules libs) channels cache_lib
      default_settings config no_hex here Issued cache_lib-CacheLaws (round ∷ round ∷ []) eof
      (0x10 ∷ 0 ∷ pings) arrival tracked cold (start {s = cold} (λ u. refl))
      (λ f cp c read packet content. ((λ k h. ground arith), (λ k h. ground arith)))

handle_proxy_v5-Treated_example :
    Treated libs codec connects
      (installed_rules libs)
      channels
      cache_lib
      default_settings
      config
      no_hex
      here
      eof
      (0x10 ∷ 0 ∷ 0x20 ∷ 0 ∷ [])
      arrival
      cold
      (handle_proxy_v5 libs codec connects
        (installed_rules libs)
        channels
        cache_lib
        default_settings
        config
        no_hex
        here
        (round ∷ [])
        eof
        (0x10 ∷ 0 ∷ 0x20 ∷ 0 ∷ [])
        arrival
        tracked
        cold)
handle_proxy_v5-Treated_example =
    handle_proxy_v5-Treated libs codec connects (installed_rules libs) channels cache_lib
      default_settings config no_hex here (round ∷ []) eof (0x10 ∷ 0 ∷ 0x20 ∷ 0 ∷ []) arrival
      tracked cold

-- The way back: the codec reads each frame as a PUBLISH of the envelope.
abbrev reader : Codec
reader = record {
  Packet = List ℕ;
  read_packet = λ b. some b;
  content = λ p. publish (b'm' ∷ []) envelope_bytes;
  has_topic_alias = λ p. false;
  subscriptions = λ p. [];
  write_to = λ p c. none;
}

abbrev connacks : ConnackCodec reader
connacks = record { alias_maximum = λ p. some (some 8); write_connack = λ p a. some [] }

abbrev publishing : ConnTrack
publishing addr = some (record public_user { gateway_id = "!67ea9400" })

abbrev publication : Frame
publication = record { raw = 0x30 ∷ 1 ∷ 0 ∷ []; pkt_type = 3; rest = [] }

downlink_frame-Echo_example :
    ((downlink_frame libs reader connacks here publishing publication ≡ none)
      ↔ Echo libs reader connacks here publishing publication)
    × ((out : List ℕ)
        → 3 ≢ PacketType.connack
        → downlink_frame libs reader connacks here publishing publication ≡ some out
        → out ≡ publication.raw)
downlink_frame-Echo_example = downlink_frame-Echo libs reader connacks here publishing publication

-- MQTT 3.1.1: one byte is a packet, the first the CONNECT.
abbrev paho_content : ℕ → Content
paho_content p = if p == 0x10 then connecting sensor_connect else other disconnect

abbrev read_byte : List ℕ → Result FrameError (ℕ × List ℕ)
read_byte [] = err (fault eof)
read_byte (b ∷ rest) = ok (b, rest)

abbrev write_classic : ℕ → Content → Option (List ℕ)
write_classic p (connecting c) = some (p ∷ c.password)
write_classic p (other c) = some (p ∷ [])

abbrev paho : PahoCodec
paho = record {
  Packet = ℕ;
  read_packet = read_byte;
  content = paho_content;
  topics = λ p. [];
  type_name = λ p. "DisconnectPacket";
  write = write_classic;
}

abbrev first_round : ClassicRound
first_round = record {
  now = 200;
  is_cancelled = false;
  write_ok = true;
  answer = found sensor;
  flight = none;
}

abbrev beginning :
    Classic libs paho
      (installed_rules libs)
      channels
      cache_lib
      default_settings
      config
      no_hex
      (λ id. id)
      here
beginning =
    started libs paho (installed_rules libs) channels cache_lib default_settings config no_hex
      (λ id. id) here tracked cold

uplink_packet-GivesClassic_example :
    (out : List (List ℕ)) × ((uplink_packet libs paho
        (installed_rules libs)
        channels
        cache_lib
        default_settings
        config
        no_hex
        (λ id. id)
        here
        first_round
        0x10
        beginning).session.sent
      ≡ [] ++ out)
    × GivesClassic libs paho
        (installed_rules libs)
        channels
        cache_lib
        default_settings
        config
        no_hex
        (λ id. id)
        here
        Issued
        first_round
        beginning
        0x10
        out
uplink_packet-GivesClassic_example =
    uplink_packet-GivesClassic libs paho (installed_rules libs) channels cache_lib default_settings
      config no_hex (λ id. id) here Issued cache_lib-CacheLaws first_round beginning 0x10
      (start {s = cold} (λ u. refl)) (λ c is. ((λ k h. ground arith), (λ k h. ground arith)))
