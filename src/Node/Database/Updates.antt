-- ===== src/Node/Database/Updates.antt =====
-- What updates a node of internal/mqtt/node.go: the `Update` methods and `cleanFloat`.
use meshtk.Node.{delete_key}
use meshtk.Node.Database.{Node, same_number}
use meshtk.Prelude.{ℕ, List, [], ◌∷◌, Bool, String, if◌then◌else◌}

module _ {Real : Type 0} (is_nan : Real → Bool) (zero_real : Real) where
  abbrev pub clean_float : Real → Real
  clean_float f = if is_nan f then zero_real else f

  abbrev pub update_device_metrics : ℕ → ℕ → Real → Real → Real → ℕ → Node Real → Node Real
  update_device_metrics now battery voltage ch air uptime n = record n {
    battery_level = battery;
    voltage = clean_float voltage;
    ch_util = clean_float ch;
    air_util_tx = clean_float air;
    uptime = uptime;
    last_device_metrics = now;
  }

  abbrev pub update_environment_metrics :
      ℕ → Real → Real → Real → Real → ℕ → Real → Real → Real → Real → Real → Node Real → Node Real
  update_environment_metrics now temp humidity pressure lx direction speed gust rads rain1 rain24
        n =
      record n {
        temperature = clean_float temp;
        relative_humidity = clean_float humidity;
        barometric_pressure = clean_float pressure;
        lux = clean_float lx;
        wind_direction = direction;
        wind_speed = clean_float speed;
        wind_gust = clean_float gust;
        radiation = clean_float rads;
        rainfall1 = clean_float rain1;
        rainfall24 = clean_float rain24;
        last_environment_metrics = now;
      }

  abbrev pub update_neighbor_info : ℕ → ℕ → Real → Node Real → Node Real
  update_neighbor_info now num snr n = record n {
    neighbors =
        ((num, clean_float snr), now)
        ∷ delete_key same_number (0, zero_real) (num, snr) (n.neighbors);
  }

  abbrev pub update_map_report : ℕ → String → String → String → Bool → ℕ → Node Real → Node Real
  update_map_report now fw region preset default online n = record n {
    fw_version = fw;
    region = region;
    modem_preset = preset;
    has_default_ch = default;
    online_local_nodes = online;
    last_map_report = now;
  }

  abbrev pub update_position : ℕ → ℕ → ℕ → ℕ → Node Real → Node Real
  update_position lat lon alt precision n = record n {
    latitude = lat;
    longitude = lon;
    altitude = alt;
    precision = precision;
  }

-- `id_text` and `key_text` are `fmt.Sprintf` with the formats of an id and of a key.
abbrev pub or_kept : (List ℕ → String) → List ℕ → String → String
or_kept key_text [] kept = kept
or_kept key_text (b ∷ key) kept = key_text (b ∷ key)

abbrev pub update_user :
    {Real : Type 0}
    → (ℕ → String)
    → (List ℕ → String)
    → ℕ
    → String
    → String
    → String
    → String
    → List ℕ
    → List ℕ
    → Node Real
    → Node Real
update_user id_text key_text from long short hw role pub_bytes priv_bytes n = record n {
  from = from;
  from_str = id_text from;
  long_name = long;
  short_name = short;
  hw_model = hw;
  role = role;
  pub_key = or_kept key_text pub_bytes (n.pub_key);
  priv_key = or_kept key_text priv_bytes (n.priv_key);
}
