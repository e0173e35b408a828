-- ===== src/DeviceType.antt =====
-- libklio/device-type.hpp and libklio/device-type.cpp. The constructor is private and `add_type` runs
-- once for each constant, so a pointer to a device type is told from another by its id.
use libklio.Prelude.{◌≡◌, refl, Bool, String, List, [], ◌∷◌, Option, none, some, ◌==◌}
use libklio.Prelude.Int.{ℤ, pos, int_eq}
use libklio.Exec.{Result, ok, err, data_format_exception}
use libklio.OrdMap
use libklio.OrdMap.{OrdMap}
use libklio.Time.{timestamp_less}

pub record DeviceType : Type 0 where
  pub id : ℤ
  pub name : String

-- operator ==
abbrev pub same_device : DeviceType → DeviceType → Bool
same_device a b = a.id == b.id

abbrev Registry : Type 0
Registry = OrdMap ℤ DeviceType

-- `_all[id] = DeviceType(id, name)`
add_type : ℤ → String → Registry → Registry
unfolding OrdMap.assign
add_type id name all = OrdMap.assign id (record { id = id; name = name }) all

-- The initialisers of the static constants, in their order.
abbrev constants : List (ℤ × String)
constants =
    (pos 0, "Unknown Device")
    ∷ (pos 1, "Disabled Device")
    ∷ (pos 100, "Single-phase Energy Consumption")
    ∷ (pos 101, "Triple-phase Energy Consumption")
    ∷ (pos 102, "Single-phase Energy Production")
    ∷ (pos 103, "Triple-phase Energy Production")
    ∷ (pos 200, "Heating Circulating Pump")
    ∷ (pos 201, "Heating Pump")
    ∷ (pos 202, "Infrared Radiator")
    ∷ (pos 203, "Single-phase Radiator")
    ∷ (pos 204, "Triple-phase Radiator")
    ∷ (pos 205, "Air Conditioner")
    ∷ (pos 300, "Fridge")
    ∷ (pos 301, "Freezer")
    ∷ (pos 302, "Fridge-freezer Combination")
    ∷ (pos 303, "Top-lid Freezer")
    ∷ (pos 304, "Wash Machine")
    ∷ (pos 305, "Drier")
    ∷ (pos 306, "Dishwasher")
    ∷ (pos 307, "Expresso Machine")
    ∷ (pos 308, "Coffee Machine")
    ∷ (pos 309, "Toaster")
    ∷ (pos 310, "Kettle")
    ∷ (pos 311, "Microwave")
    ∷ (pos 312, "Hair Drier")
    ∷ (pos 313, "Aquarium")
    ∷ (pos 314, "Kitchen Aid")
    ∷ (pos 400, "TV")
    ∷ (pos 401, "Radio")
    ∷ (pos 403, "Lamp")
    ∷ (pos 404, "Computer")
    ∷ (pos 405, "Laptop")
    ∷ (pos 406, "Photocopier")
    ∷ (pos 407, "Printer")
    ∷ (pos 408, "Other IT device")
    ∷ (pos 409, "Xbox One")
    ∷ (pos 410, "Cable Receiver")
    ∷ (pos 501, "EMOS")
    ∷ (pos 502, "Well pump")
    ∷ []

-- `_all` after the initialisers have run
initialise : List (ℤ × String) → Registry → Registry
unfolding add_type
initialise [] all = all
initialise ((id, name) ∷ rest) all = initialise rest (add_type id name all)

unfoldable pub get_all : Registry
unfolding initialise
get_all = initialise constants []

or_invalid : Option DeviceType → Result DeviceType
or_invalid none = err data_format_exception
or_invalid (some t) = ok t

unfoldable pub get_by_id : ℤ → Result DeviceType
unfolding get_all or_invalid OrdMap.find
get_by_id id = or_invalid (OrdMap.find id get_all)

abbrev pub unknown_device : DeviceType
unknown_device = record { id = pos 0; name = "Unknown Device" }

get_by_id_test : get_by_id (pos 403) ≡ ok (record { id = pos 403; name = "Lamp" })
unfolding get_by_id timestamp_less
get_by_id_test = refl

get_by_id_test2 : get_by_id (pos 402) ≡ err data_format_exception
unfolding get_by_id timestamp_less
get_by_id_test2 = refl
