-- ===== src/Store/Sync/Known.antt =====
-- The sensor of another store as this store enters it.
use libklio.Prelude.{
  ◌≡◌, ◌⊎◌, refl, true, false, some, arith, ==_iff, string_eq, nat_eq, Bool-cases, inl, inr,
}
use libklio.Exec.{ok}
use libklio.DeviceType.{same_device}
use libklio.HashMap
use libklio.Sensor.{Sensor, Uuid, Library, is_valid_timezone, create_sensor}
use libklio.Store.{Store, Records}
use libklio.Store.Sensors.{buffered_sensor}
use libklio.Store.Sync.{sync_sensor_record, properties_changed}

-- Two sensors have the same name, description, unit, time zone and type of device.
abbrev pub Same : Sensor → Sensor → Type 0
Same a b =
    (a.name ≡ b.name)
    × (a.description ≡ b.description)
    × (a.unit ≡ b.unit)
    × (a.timezone ≡ b.timezone)
    × (same_device a.device_type b.device_type ≡ true)

Same-cases :
    (a b : Sensor)
    → (Same a b × (properties_changed a b ≡ false))
      ⊎ ((Same a b → ⊥) × (properties_changed a b ≡ true))
unfolding properties_changed
Same-cases a b = elim (Bool-cases (properties_changed a b)) [
  | inl changed ↦ inr (
    λ (name, description, unit, timezone, device). ground (
      arith,
      ==_iff a.name b.name,
      ==_iff a.description b.description,
      ==_iff a.unit b.unit,
      ==_iff a.timezone b.timezone,
    ),
    changed,
  )
  | inr kept ↦ inl (
    (
      ground (arith, ==_iff a.name b.name),
      ground (arith, ==_iff a.description b.description),
      ground (arith, ==_iff a.unit b.unit),
      ground (arith, ==_iff a.timezone b.timezone),
      ground arith,
    ),
    kept,
  )
]

module _ (l : Library) {D : Type 0} (r : Records D) where
  -- A sensor of another store whose external id this store knows, and whose time zone is valid, is
  -- entered with the properties of the other store and the uuid of this one, and no buffer changes. Where
  -- its name, description, unit, time zone and type of device are those that this store has, the database
  -- stays as it is, and otherwise its record is updated.
  pub sync_sensor_record-known :
      (sensor found : Sensor) (uuid : Uuid) (s : Store D) (d : D)
      → HashMap.find sensor.external_id s.external_ids_buffer ≡ some uuid
      → HashMap.find uuid s.sensors_buffer ≡ some (some found)
      → is_valid_timezone l sensor.timezone ≡ true
      → r.update_sensor_record (record sensor { uuid = uuid }) s ≡ (ok tt, d)
      → (Same found sensor
          × (sync_sensor_record l r sensor s ≡ (ok (record sensor { uuid = uuid }), s)))
        ⊎ ((Same found sensor → ⊥)
            × (sync_sensor_record l r sensor s
                ≡ (ok (record sensor { uuid = uuid }), record s { db = d })))
  unfolding sync_sensor_record create_sensor
  sync_sensor_record-known sensor found uuid s d listed there valid updated =
      elim (Same-cases found sensor) [
        | inl (same, kept) ↦ inl (same, rw (listed, there, buffered_sensor, valid, kept) refl)
        | inr (differs, changed) ↦
            inr (differs, rw (listed, there, buffered_sensor, valid, changed, updated) refl)
      ]
