-- ===== src/Lib.antt =====
-- meshtk: the MQTT proxy in front of a Meshtastic broker, and the state that it and its fleet keep.
--
-- A frame of a client is parsed, its envelope is decoded and inspected, the rules may rewrite it,
-- and the decision says whether it goes on to the broker. What was rewritten is marshalled again
-- and spliced into the captured frame. CONNECT is checked against a cached credential store.
--
--   Wire         the hand-written MQTT 5.0 codec: internal/app/server/proxy_v5_rawpublish.go
--                (Varint, Bytes, Scan, Publish), proxy_v5_rawsubscribe.go (Subscribe), and
--                readFrame of proxy_v5.go (Frame). A byte is a number, a read out of range is
--                the error `panic`, and the loops run on fuel, which the length of the input bounds:
--                the error `out_of_fuel` is shown not to come.
--   Server       Libs: the protobuf messages and the libraries that the proxy calls. Inspector:
--                the inspected packet, setPublishPayload, RemarshalEnvelope and
--                RewritePayloadString of internal/app/server/inspect.go. Inspect: inspectMeshtastic
--                and DecryptMeshtastic. Decider: internal/app/server/decider.go. Rules:
--                internal/app/server/rules.go. ConnTrack: the connection tracker of inspect.go.
--                Inspection and Uplink: the inspectors of inspect_v5.go and the two uplink handlers
--                of internal/app/server/proxy_v5.go. Connect, Session, Handler and Downlink:
--                inspectV5Connect, the loop, the whole of handleProxyV5 and handleBackendV5. Route:
--                the choice of the protocol and the read deadline of proxy.go. Classic: the MQTT
--                3.1.1 connection of proxy.go and inspect.go. The codecs are parameters; whether a
--                write succeeds is an argument of each round of a loop, and a loop runs for as many
--                rounds as it is given: one more than the bytes of the input are enough.
--   Credentials  internal/credcache/auth.go over cache.go: Verify with its breaker.
--   RateLimit    internal/app/fleet/llm_ratelimit.go: the bucket of a radio, and pruning, over the
--                floats as a parameter.
--   Snapshot     internal/mqtt/snapshot.go: RestoreSnapshot and Tick.
--   Otp          internal/app/fleet/otpsend.go: a pass over the queue of internal/otpqueue, as the
--                calls that it makes, and what they do to the table.
--   Node         internal/mqtt/node.go: the pruning of a map, and in Database the nodes, what updates
--                them, and NodeDB. A map is the list of its entries in the order in which Go walks
--                them, and floats are of a type that is a parameter.
--   KeyCache     internal/keycache/resolver.go over cache.go: Resolve with its breaker.
--   Dedup        internal/app/fleet/cmd.go: dedupRequest, over a run of requests.
--   Mesh         internal/mqtt: Ccm is AES-CCM of crypto.go over a block cipher, Pki the messages under
--                a shared secret, Keys the keys as text and their sources, Client the dispatcher of
--                mqtt.go with observed_pubkey.go, Publish publish.go, and Delivery one client
--                against another.
--   Fleet        internal/app/fleet: Handler is the text branch of FleetNodeHandler with guardText of
--                guard.go, Pending the queue of the replies that wait, and Chat chatstyle.go up to
--                splitMessages over code points; the fuel of its loop is the length of the text, of
--                which each round takes a code point at least.
--   Examples     concrete libraries and runs.
--
-- Go's errors beside a value are a Result, and beside a changed packet a pair. Times are numbers of
-- nanoseconds, and in Node, as in the source, of seconds. Parameters are the protobuf, cipher, JSON
-- and cache libraries and the floats, with the laws that their documentation gives, and the answers
-- of stores and clocks, which are arguments of each call.
--
-- Not modelled: sockets, listeners, log lines, the paho codecs, the AWS clients, the generated
-- protobuf code and the configuration; and, so far, the files and derived keys of the node
-- database, the connection of the mesh client, the one-time passwords of pkg/otp, the limiter of
-- pkg/network, the node info handlers, the admin server and the other fleet behaviours (the chat
-- with the model, the lyrics with the award at the end of the song, claim links and movement).
pub mod Prelude
pub mod Wire
pub mod Server
pub mod Credentials
pub mod Dedup
pub mod Mesh
pub mod Fleet
pub mod RateLimit
pub mod Snapshot
pub mod Otp
pub mod Node
pub mod KeyCache
pub mod Examples
