-- ===== src/Node/Database/Parts.antt =====
-- What pruning leaves of a node of internal/mqtt/node.go.
use meshtk.Node.Database.Maps.{Live, prune_map-Live}
use meshtk.Node.{seen_by_limit}
use meshtk.Node.Database.{
  Node, Ttls, same_number, is_stale, neighbor_limit, prune_maps, prune_device, prune_environment,
  prune_map_report, clear_device_metrics, clear_environment_metrics, clear_map_report_data, prune,
}
use meshtk.Prelude.{
  ℕ, zero, suc, ◌+◌, ◌≤◌, Bool, false, Bool-cases, String, ◌≡◌, ◌∙◌, refl, ◌⊎◌, inl, inr, sym,
  subst, arith, str_eq, eq_iff, if-choice, if◌then◌else◌, ◌<◌,
}

-- A time that is not set, or that is young enough.
abbrev pub Recent : ℕ → ℕ → ℕ → Type 0
Recent now ttl last = (last ≡ 0) ⊎ (now ≤ last + ttl)

not_stale : (now ttl last : ℕ) → is_stale now ttl last ≡ false → Recent now ttl last
not_stale now ttl zero h = inl refl
not_stale now ttl (suc last) h = inr (ground arith)

-- The parts of a node, each as one value.
abbrev pub device_part : {Real : Type 0} → Node Real → ℕ × ℕ × Real × Real × Real × ℕ
device_part n =
    (n.last_device_metrics, n.battery_level, n.voltage, n.ch_util, n.air_util_tx, n.uptime)

abbrev pub environment_part :
    {Real : Type 0}
    → Node Real
    → ℕ × Real × Real × Real × Real × ℕ × Real × Real × Real × Real × Real
environment_part n = (
  n.last_environment_metrics, n.temperature, n.relative_humidity, n.barometric_pressure, n.lux,
  n.wind_direction, n.wind_speed, n.wind_gust, n.radiation, n.rainfall1, n.rainfall24,
)

abbrev pub map_report_part : {Real : Type 0} → Node Real → ℕ × String × String × String × Bool × ℕ
map_report_part n = (
  n.last_map_report, n.fw_version, n.region, n.modem_preset, n.has_default_ch, n.online_local_nodes,
)

-- Who and where a node is.
abbrev pub identity_part :
    {Real : Type 0}
    → Node Real
    → ℕ × String × ℕ × String × String × String × String × String × String × ℕ × ℕ × ℕ × ℕ
identity_part n = (
  n.from, n.from_str, n.gps_coordinate_offset, n.long_name, n.short_name, n.hw_model, n.role,
  n.pub_key, n.priv_key, n.latitude, n.longitude, n.altitude, n.precision,
)

-- A part is as it was and not too old, or it was too old and is as a new node has it.
abbrev pub KeptOrReset : {A : Type 0} → ℕ → ℕ → ℕ → A → A → A → Type 0
KeptOrReset now ttl last before unset after =
    (Recent now ttl last × (after ≡ before)) ⊎ ((last + ttl < now) × (after ≡ unset))

if_stale :
    {A : Type 0} {Real : Type 0} (part : Node Real → A) (now ttl last : ℕ) (cleared n : Node Real)
    → KeptOrReset now ttl last
        (part n)
        (part cleared)
        (part (if is_stale now ttl last then cleared else n))
if_stale part now ttl last cleared n = elim (Bool-cases (is_stale now ttl last)) [
  | inl old ↦ rw old (inr ((ground arith), refl))
  | inr young ↦ rw young (inl (not_stale now ttl last young, refl))
]

-- What pruning has left of a node.
pub record Fresh {Real : Type 0} (zero_real : Real) (now : ℕ) (ttls : Ttls) (n m : Node Real)
    : Type 0 where
  pub seen : Live now (ttls.seen_by_ttl) 10 (n.seen_by) (m.seen_by)
  pub near : Live now (ttls.neighbor_ttl) 100 (n.neighbors) (m.neighbors)
  pub device :
      KeptOrReset now
        (ttls.metrics_ttl)
        (n.last_device_metrics)
        (device_part n)
        (0, 0, zero_real, zero_real, zero_real, 0)
        (device_part m)
  pub environment :
      KeptOrReset now
        (ttls.metrics_ttl)
        (n.last_environment_metrics)
        (environment_part n)
        (
          0, zero_real, zero_real, zero_real, zero_real, 0, zero_real, zero_real, zero_real,
          zero_real, zero_real,
        )
        (environment_part m)
  pub map_report :
      KeptOrReset now
        (ttls.map_report_ttl)
        (n.last_map_report)
        (map_report_part n)
        (0, "", "", "", false, 0)
        (map_report_part m)
  pub identity : identity_part m ≡ identity_part n

module _ {Real : Type 0} (zero_real : Real) (now : ℕ) where
  -- Each of the three steps leaves a part alone that its clearing leaves alone.
  prune_device-part :
      {A : Type 0} (part : Node Real → A)
      → ((n : Node Real) → part (clear_device_metrics zero_real n) ≡ part n)
      → (ttl : ℕ) (n : Node Real) → part (prune_device zero_real now ttl n) ≡ part n
  unfolding prune_device
  prune_device-part part same ttl n =
      if-choice (λ m. part m ≡ part n) (is_stale now ttl (n.last_device_metrics)) _ _ (same n) refl

  prune_environment-part :
      {A : Type 0} (part : Node Real → A)
      → ((n : Node Real) → part (clear_environment_metrics zero_real n) ≡ part n)
      → (ttl : ℕ) (n : Node Real) → part (prune_environment zero_real now ttl n) ≡ part n
  unfolding prune_environment
  prune_environment-part part same ttl n =
      if-choice (λ m. part m ≡ part n) (is_stale now ttl (n.last_environment_metrics)) _ _ (same n)
        refl

  prune_map_report-part :
      {A : Type 0} (part : Node Real → A)
      → ((n : Node Real) → part (clear_map_report_data zero_real n) ≡ part n)
      → (ttl : ℕ) (n : Node Real) → part (prune_map_report zero_real now ttl n) ≡ part n
  unfolding prune_map_report
  prune_map_report-part part same ttl n =
      if-choice (λ m. part m ≡ part n) (is_stale now ttl (n.last_map_report)) _ _ (same n) refl

  -- A part that none of them touches.
  prune-part :
      {A : Type 0} (part : Node Real → A)
      → ((n : Node Real) → part (clear_device_metrics zero_real n) ≡ part n)
      → ((n : Node Real) → part (clear_environment_metrics zero_real n) ≡ part n)
      → ((n : Node Real) → part (clear_map_report_data zero_real n) ≡ part n)
      → (ttls : Ttls) (n : Node Real)
      → part (prune zero_real now ttls n) ≡ part (prune_maps zero_real now ttls n)
  prune-part part same same' same'' ttls n =
      prune_map_report-part part same'' (ttls.map_report_ttl) _
      ∙ prune_environment-part part same' (ttls.metrics_ttl) _
      ∙ prune_device-part part same (ttls.metrics_ttl) _

  pub prune-seen_by :
      (ttls : Ttls) (n : Node Real)
      → (prune zero_real now ttls n).seen_by ≡ (prune_maps zero_real now ttls n).seen_by
  prune-seen_by = prune-part (λ x. x.seen_by) (λ x. refl) (λ x. refl) (λ x. refl)

  prune-neighbors :
      (ttls : Ttls) (n : Node Real)
      → (prune zero_real now ttls n).neighbors ≡ (prune_maps zero_real now ttls n).neighbors
  prune-neighbors = prune-part (λ x. x.neighbors) (λ x. refl) (λ x. refl) (λ x. refl)

  device_reset :
      (ttl : ℕ) (n : Node Real)
      → KeptOrReset now ttl
          (n.last_device_metrics)
          (device_part n)
          (device_part (clear_device_metrics zero_real n))
          (device_part (prune_device zero_real now ttl n))
  unfolding prune_device
  device_reset ttl n =
      if_stale device_part now ttl (n.last_device_metrics) (clear_device_metrics zero_real n) n

  environment_reset :
      (ttl : ℕ) (n : Node Real)
      → KeptOrReset now ttl
          (n.last_environment_metrics)
          (environment_part n)
          (environment_part (clear_environment_metrics zero_real n))
          (environment_part (prune_environment zero_real now ttl n))
  unfolding prune_environment
  environment_reset ttl n =
      if_stale environment_part now ttl (n.last_environment_metrics)
        (clear_environment_metrics zero_real n) n

  map_report_reset :
      (ttl : ℕ) (n : Node Real)
      → KeptOrReset now ttl
          (n.last_map_report)
          (map_report_part n)
          (map_report_part (clear_map_report_data zero_real n))
          (map_report_part (prune_map_report zero_real now ttl n))
  unfolding prune_map_report
  map_report_reset ttl n =
      if_stale map_report_part now ttl (n.last_map_report) (clear_map_report_data zero_real n) n

  pub prune-Fresh :
      (ttls : Ttls) (n : Node Real) → Fresh zero_real now ttls n (prune zero_real now ttls n)
  prune-Fresh ttls n =
      let n1 = prune_maps zero_real now ttls n in
      let n2 = prune_device zero_real now (ttls.metrics_ttl) n1 in
      let n3 = prune_environment zero_real now (ttls.metrics_ttl) n2 in
      let device_later =
        prune_map_report-part device_part (λ x. refl) (ttls.map_report_ttl) n3
        ∙ prune_environment-part device_part (λ x. refl) (ttls.metrics_ttl) n2 in
      let environment_later =
        prune_map_report-part environment_part (λ x. refl) (ttls.map_report_ttl) n3 in
      let environment_before =
        prune_device-part environment_part (λ x. refl) (ttls.metrics_ttl) n1 in
      let map_report_before =
        prune_environment-part map_report_part (λ x. refl) (ttls.metrics_ttl) n2
        ∙ prune_device-part map_report_part (λ x. refl) (ttls.metrics_ttl) n1 in
      record {
        seen =
            subst (Live now (ttls.seen_by_ttl) seen_by_limit (n.seen_by))
              (sym (prune-seen_by ttls n))
              (prune_map-Live str_eq "" (λ k. (eq_iff k k).1 refl) now (ttls.seen_by_ttl)
                seen_by_limit (n.seen_by));
        near =
            subst (Live now (ttls.neighbor_ttl) neighbor_limit (n.neighbors))
              (sym (prune-neighbors ttls n))
              (prune_map-Live same_number (0, zero_real) (λ k. (ground arith)) now
                (ttls.neighbor_ttl) neighbor_limit (n.neighbors));
        device =
            subst (KeptOrReset now (ttls.metrics_ttl) _ _ _) (sym device_later)
              (device_reset (ttls.metrics_ttl) n1);
        environment = subst (KeptOrReset now (ttls.metrics_ttl) _ _ _) (sym environment_later) (
            subst
              (λ p.
                KeptOrReset now (ttls.metrics_ttl) p.0 p
                  (environment_part (clear_environment_metrics zero_real n)) (environment_part n3))
              environment_before (environment_reset (ttls.metrics_ttl) n2));
        map_report =
            subst
              (λ p.
                KeptOrReset now (ttls.map_report_ttl) p.0 p
                  (map_report_part (clear_map_report_data zero_real n))
                  (map_report_part (prune zero_real now ttls n)))
              map_report_before (map_report_reset (ttls.map_report_ttl) n3);
        identity = prune-part identity_part (λ x. refl) (λ x. refl) (λ x. refl) ttls n;
      }
