-- ===== src/Wire.antt =====
-- The hand-written MQTT 5.0 frame codec of the proxy:
-- internal/app/server/proxy_v5.go, proxy_v5_rawpublish.go and
-- proxy_v5_rawsubscribe.go.
pub mod Varint
pub mod Bytes
pub mod Scan
pub mod Publish
pub mod Subscribe
pub mod Frame
