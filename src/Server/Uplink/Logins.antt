-- ===== src/Server/Uplink/Logins.antt =====
-- The uplink of internal/app/server/proxy_v5.go never changes who is behind an address.
use meshtk.Prelude.{ℕ, List, Bool, String, refl}
use meshtk.Server.ConnTrack.{ConnTrack}
use meshtk.Server.ConnTrack.Logins.{SameLogins}
use meshtk.Server.Decider.{Rule}
use meshtk.Server.Inspect.{Channel}
use meshtk.Server.Libs.{Libs}
use meshtk.Server.Uplink.Cases.{publish_uplink_cases, subscribe_uplink_cases}
use meshtk.Server.Uplink.{Codec, Handled, publish_uplink, subscribe_uplink}

module _ (l : Libs) (codec : Codec) (rules : List (Rule l)) (channels : List (Channel l)) where
  pub publish_uplink-SameLogins :
      (now : ℕ) (addr : String) (write_ok : Bool) (frame : List ℕ) (m : ConnTrack)
      → SameLogins m (publish_uplink l codec rules channels now addr write_ok frame m).track
  publish_uplink-SameLogins now addr write_ok frame m =
      publish_uplink_cases l codec rules channels now addr write_ok frame m
        (λ (h : Handled). SameLogins m h.track) (λ out m' same. same) (λ v m' stops same. same)

  pub subscribe_uplink-SameLogins :
      (now : ℕ) (addr : String) (write_ok : Bool) (frame : List ℕ) (m : ConnTrack)
      → SameLogins m (subscribe_uplink l codec rules channels now addr write_ok frame m).track
  subscribe_uplink-SameLogins now addr write_ok frame m =
      subscribe_uplink_cases l codec rules channels now addr write_ok frame m
        (λ (h : Handled). SameLogins m h.track) (λ m' same. same) (λ m' same. same) (λ a. refl)
