-- ===== src/Node/Database.antt =====
-- The nodes of internal/mqtt/node.go and their database. A 32-bit float is of a type `Real` with a test for
-- NaN; a signed coordinate is its bit pattern, which is 0 just where the number is. A neighbour's entry
-- holds its reading beside its number, and an empty map stands for a nil one.
pub mod Laws
pub mod Maps
pub mod Parts
pub mod Updates
use meshtk.Node.{SeenBy, delete_key, prune_map, prune_seen_by, update_seen_by}
use meshtk.Prelude.{
  ℕ, ◌+◌, List, [], ◌∷◌, Bool, true, false, ◌&&◌, not, String, str_eq, ltb, ◌==◌, if◌then◌else◌,
}

abbrev pub neighbor_limit : ℕ
neighbor_limit = 100

pub record Node (Real : Type 0) : Type 0 where
  pub from : ℕ
  pub from_str : String
  pub gps_coordinate_offset : ℕ
  pub long_name : String
  pub short_name : String
  pub hw_model : String
  pub role : String
  pub pub_key : String
  pub priv_key : String
  pub fw_version : String
  pub region : String
  pub modem_preset : String
  pub has_default_ch : Bool
  pub online_local_nodes : ℕ
  pub last_map_report : ℕ
  pub latitude : ℕ
  pub longitude : ℕ
  pub altitude : ℕ
  pub precision : ℕ
  pub battery_level : ℕ
  pub voltage : Real
  pub ch_util : Real
  pub air_util_tx : Real
  pub uptime : ℕ
  pub last_device_metrics : ℕ
  pub temperature : Real
  pub relative_humidity : Real
  pub barometric_pressure : Real
  pub lux : Real
  pub wind_direction : ℕ
  pub wind_speed : Real
  pub wind_gust : Real
  pub radiation : Real
  pub rainfall1 : Real
  pub rainfall24 : Real
  pub last_environment_metrics : ℕ
  pub neighbors : List ((ℕ × Real) × ℕ)
  pub seen_by : SeenBy

pub record Ttls : Type 0 where
  pub seen_by_ttl : ℕ
  pub neighbor_ttl : ℕ
  pub metrics_ttl : ℕ
  pub map_report_ttl : ℕ

abbrev pub same_number : {Real : Type 0} → ℕ × Real → ℕ × Real → Bool
same_number k k' = k.0 == k'.0

abbrev pub is_unseen : SeenBy → Bool
is_unseen [] = true
is_unseen (_ ∷ _) = false

-- A reading that was taken and is too old.
abbrev pub is_stale : ℕ → ℕ → ℕ → Bool
is_stale now ttl last = ltb 0 last && ltb (last + ttl) now

abbrev pub is_valid : {Real : Type 0} → Node Real → Bool
is_valid n = elim (n.seen_by) [
  | [] ↦ false
  | _ ∷ _ ↦ not (str_eq (n.long_name) "") && not (n.latitude == 0 && n.longitude == 0)
]

module _ {Real : Type 0} (zero_real : Real) where
  abbrev pub new_node : ℕ → String → Node Real
  new_node now topic = record {
    from = 0;
    from_str = "";
    gps_coordinate_offset = 0;
    long_name = "";
    short_name = "";
    hw_model = "";
    role = "";
    pub_key = "";
    priv_key = "";
    fw_version = "";
    region = "";
    modem_preset = "";
    has_default_ch = false;
    online_local_nodes = 0;
    last_map_report = 0;
    latitude = 0;
    longitude = 0;
    altitude = 0;
    precision = 0;
    battery_level = 0;
    voltage = zero_real;
    ch_util = zero_real;
    air_util_tx = zero_real;
    uptime = 0;
    last_device_metrics = 0;
    temperature = zero_real;
    relative_humidity = zero_real;
    barometric_pressure = zero_real;
    lux = zero_real;
    wind_direction = 0;
    wind_speed = zero_real;
    wind_gust = zero_real;
    radiation = zero_real;
    rainfall1 = zero_real;
    rainfall24 = zero_real;
    last_environment_metrics = 0;
    neighbors = [];
    seen_by = (topic, now) ∷ [];
  }

  abbrev pub clear_device_metrics : Node Real → Node Real
  clear_device_metrics n = record n {
    battery_level = 0;
    voltage = zero_real;
    ch_util = zero_real;
    air_util_tx = zero_real;
    uptime = 0;
    last_device_metrics = 0;
  }

  abbrev pub clear_environment_metrics : Node Real → Node Real
  clear_environment_metrics n = record n {
    temperature = zero_real;
    relative_humidity = zero_real;
    barometric_pressure = zero_real;
    lux = zero_real;
    wind_direction = 0;
    wind_speed = zero_real;
    wind_gust = zero_real;
    radiation = zero_real;
    rainfall1 = zero_real;
    rainfall24 = zero_real;
    last_environment_metrics = 0;
  }

  abbrev pub clear_map_report_data : Node Real → Node Real
  clear_map_report_data n = record n {
    fw_version = "";
    region = "";
    modem_preset = "";
    has_default_ch = false;
    online_local_nodes = 0;
    last_map_report = 0;
  }

  abbrev pub prune_maps : ℕ → Ttls → Node Real → Node Real
  prune_maps now ttls n = record n {
    seen_by = prune_seen_by now (ttls.seen_by_ttl) (n.seen_by);
    neighbors =
        prune_map same_number (0, zero_real) now (ttls.neighbor_ttl) neighbor_limit (n.neighbors);
  }

  unfoldable pub prune_device : ℕ → ℕ → Node Real → Node Real
  prune_device now ttl n =
      if is_stale now ttl (n.last_device_metrics) then clear_device_metrics n else n

  unfoldable pub prune_environment : ℕ → ℕ → Node Real → Node Real
  prune_environment now ttl n =
      if is_stale now ttl (n.last_environment_metrics) then clear_environment_metrics n else n

  unfoldable pub prune_map_report : ℕ → ℕ → Node Real → Node Real
  prune_map_report now ttl n =
      if is_stale now ttl (n.last_map_report) then clear_map_report_data n else n

  abbrev pub prune : ℕ → Ttls → Node Real → Node Real
  prune now ttls n = prune_map_report now (ttls.map_report_ttl) (
      prune_environment now (ttls.metrics_ttl)
        (prune_device now (ttls.metrics_ttl) (prune_maps now ttls n)))

  unfoldable pub prune_db : ℕ → Ttls → List (ℕ × Node Real) → List (ℕ × Node Real)
  prune_db now ttls [] = []
  prune_db now ttls ((num, n) ∷ db) =
      let kept = prune_db now ttls db in
      if is_unseen ((prune now ttls n).seen_by) then kept else (num, prune now ttls n) ∷ kept

  unfoldable pub get_valid : List (ℕ × Node Real) → List (ℕ × Node Real)
  get_valid [] = []
  get_valid ((num, n) ∷ db) =
      let kept = get_valid db in if is_valid n then (num, n) ∷ kept else kept
