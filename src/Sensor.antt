-- ===== src/Sensor.antt =====
-- libklio/sensor.hpp, libklio/sensor.cpp, libklio/sensor-factory.cpp and the check of a time zone in
-- libklio/local-time.cpp. A sensor is a value: the model covers callers that do not change a sensor
-- object through its setters after they have handed it to a store.
use libklio.Prelude.{Bool, true, false, String, List, [], ◌∷◌, ◌&&◌, not, ◌==◌, nat_eq, string_eq}
use libklio.Prelude.{ℕ, if◌then◌else◌}
use libklio.Exec.{Result, ok, err, data_format_exception}
use libklio.DeviceType.{DeviceType, unknown_device, same_device}

-- boost::uuids::uuid, as the number of its 128 bits
abbrev pub Uuid : Type 0
Uuid = ℕ

pub record Sensor : Type 0 where
  pub uuid : Uuid
  pub external_id : String
  pub name : String
  pub description : String
  pub unit : String
  pub timezone : String
  pub device_type : DeviceType

-- operator ==
unfoldable pub same_sensor : Sensor → Sensor → Bool
same_sensor a b =
    a.uuid == b.uuid
    && (a.name == b.name
        && (a.unit == b.unit
            && (a.timezone == b.timezone && same_device a.device_type b.device_type)))

-- operator !=
unfoldable pub different_sensor : Sensor → Sensor → Bool
unfolding same_sensor
different_sensor a b = not (same_sensor a b)

abbrev pub default_sensor_description : String
default_sensor_description = "Unknown"

-- What the code takes from Boost: the text of a uuid, the uuid that `operator>>` leaves behind,
-- `erase_all_copy`, `iequals`, and the regions of the time zone database.
pub record Library : Type 0 where
  pub to_string : Uuid → String
  pub read_uuid : String → Uuid
  pub erase_all_copy : String → String → String
  pub iequals : String → String → Bool
  pub region_list : List String

module _ (l : Library) where
  unfoldable pub uuid_string : Sensor → String
  uuid_string s = l.to_string s.uuid

  unfoldable pub uuid_short : Sensor → String
  unfolding uuid_string
  uuid_short s = l.erase_all_copy (uuid_string s) "-"

  -- The loop of `is_valid_timezone`: it goes on after a hit.
  search_regions : String → Bool → List String → Bool
  search_regions zone valid [] = valid
  search_regions zone valid (region ∷ rest) =
      search_regions zone (if l.iequals region zone then true else valid) rest

  unfoldable pub is_valid_timezone : String → Bool
  unfolding search_regions
  is_valid_timezone zone = search_regions zone false l.region_list

  unfoldable pub create_sensor :
      Uuid → String → String → String → String → String → DeviceType → Result Sensor
  create_sensor uuid external_id name description unit timezone device_type =
      if is_valid_timezone timezone
      then ok (record {
        uuid = uuid;
        external_id = external_id;
        name = name;
        description = description;
        unit = unit;
        timezone = timezone;
        device_type = device_type;
      })
      else err data_format_exception

  -- The overload that reads the uuid from its text.
  unfoldable pub create_sensor_from_text :
      String → String → String → String → String → String → DeviceType → Result Sensor
  unfolding create_sensor
  create_sensor_from_text uuid_text = create_sensor (l.read_uuid uuid_text)

  -- The overload of the stores, which have no device type and give no description a default.
  unfoldable pub create_sensor_without_device :
      String → String → String → String → String → String → Result Sensor
  unfolding create_sensor_from_text
  create_sensor_without_device uuid_text external_id name description unit timezone =
      create_sensor_from_text uuid_text external_id name description unit timezone unknown_device

  -- The overload of a new sensor; `generated` is what the generator of uuids returns.
  unfoldable pub create_new_sensor : Uuid → String → String → String → String → Result Sensor
  unfolding create_sensor
  create_new_sensor generated external_id name unit timezone =
      create_sensor generated external_id name default_sensor_description unit timezone
        unknown_device
