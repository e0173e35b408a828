-- ===== src/Store/Buffers/Lookups.antt =====
-- What the buffers hold after a sensor has been entered or removed.
use libklio.Prelude.{
  ◌≡◌, ◌∙◌, true, String, Option, none, some, arith, ◌==◌, ==_iff, ==_refl, nat_eq, string_eq,
  if◌then◌else◌, Option-cases, inl, inr,
}
use libklio.HashMap
use libklio.HashMap.{HashMap, find-assign, find-erase, hash_laws}
use libklio.OrdMap.Laws.{or_else}
use libklio.Sensor.{Sensor, Uuid}
use libklio.Store.{Store, Operations, no_operations}
use libklio.Store.Buffers.{set_buffers, ensure_operations, take_over}

-- The entries of the sensors: the former owner of the external id goes, and the sensor comes.
abbrev entered : Sensor → Option Uuid → Uuid → Option (Option Sensor) → Option (Option Sensor)
entered sensor none u before = if sensor.uuid == u then some (some sensor) else before
entered sensor (some other) u before =
    if sensor.uuid == u then some (some sensor) else if other == u then none else before

find-ensure_operations :
    (uuid u : Uuid) (b : HashMap Uuid Operations)
    → HashMap.find u (ensure_operations uuid b)
      ≡ (if uuid == u then some (or_else (HashMap.find uuid b) no_operations) else HashMap.find u b)
find-ensure_operations uuid u b = ground (arith, find-assign u uuid no_operations b, ==_iff uuid u)

find-take_over :
    (uuid other u : Uuid) (ops : Operations) (b : HashMap Uuid Operations)
    → HashMap.find other b ≡ some ops
    → HashMap.find u (take_over uuid other b)
      ≡ (if other == u then none else if uuid == u then some ops else HashMap.find u b)
find-take_over uuid other u ops b e =
    rw (e, take_over)
      (find-erase u other (HashMap.assign uuid ops b) ∙ rw (find-assign u uuid ops b))

take_over-none :
    (uuid other : Uuid) (b : HashMap Uuid Operations)
    → HashMap.find other b ≡ none
    → take_over uuid other b ≡ b
take_over-none uuid other b e = rw (e, take_over)

abbrev pub pending_of : HashMap Uuid Operations → Option Uuid → Option Operations
pending_of buffer none = none
pending_of buffer (some other) = HashMap.find other buffer

-- The pending operations that a sensor has once it is entered, from its own and from those of the
-- owner of its external id.
abbrev pub inherited : Uuid → Option Uuid → Option Operations → Option Operations → Operations
inherited uuid none own theirs = or_else own no_operations
inherited uuid (some other) own none = or_else own no_operations
inherited uuid (some other) own (some ops) = if other == uuid then no_operations else ops

abbrev pub without_owner : Option Uuid → Uuid → Option Operations → Option Operations
without_owner none u before = before
without_owner (some other) u before = if other == u then none else before

module _ {D : Type 0} (sensor : Sensor) (s : Store D) where
  pub sensors-set_buffers :
      (u : Uuid)
      → HashMap.find u (set_buffers sensor s).sensors_buffer
        ≡ entered sensor
            (HashMap.find sensor.external_id s.external_ids_buffer)
            u
            (HashMap.find u s.sensors_buffer)
  unfolding set_buffers
  sensors-set_buffers u =
      elim (Option-cases (HashMap.find sensor.external_id s.external_ids_buffer)) [
        | inl e ↦ rw e (find-assign u sensor.uuid (some sensor) s.sensors_buffer)
        | inr (other, e) ↦ rw e (
            find-assign u sensor.uuid (some sensor) (HashMap.erase other s.sensors_buffer)
            ∙ rw (find-erase u other s.sensors_buffer))
      ]

  pub ids-set_buffers :
      (e : String)
      → HashMap.find e (set_buffers sensor s).external_ids_buffer ≡ (
          if sensor.external_id == e
          then some sensor.uuid
          else HashMap.find e s.external_ids_buffer)
  unfolding set_buffers
  ids-set_buffers e = elim (Option-cases (HashMap.find sensor.external_id s.external_ids_buffer)) [
    | inl q ↦ rw q (find-assign e sensor.external_id sensor.uuid s.external_ids_buffer)
    | inr (other, q) ↦ rw q (find-assign e sensor.external_id sensor.uuid s.external_ids_buffer)
  ]

  -- Entering a sensor gives it the pending operations of the sensor that had its external id, or
  -- else its own, or else none; where it had the external id itself, its own are dropped. The owner
  -- of the external id has none afterwards, and those of any other sensor stay.
  pub pending-set_buffers :
      (u : Uuid)
      → (let owner = HashMap.find sensor.external_id s.external_ids_buffer in
          let before = s.reading_operations_buffer in
          HashMap.find u (set_buffers sensor s).reading_operations_buffer ≡ (
            if sensor.uuid == u
            then some (
                inherited sensor.uuid owner
                  (HashMap.find sensor.uuid before)
                  (pending_of before owner))
            else without_owner owner u (HashMap.find u before)))
  unfolding set_buffers
  pending-set_buffers u =
      elim (Option-cases (HashMap.find sensor.external_id s.external_ids_buffer)) [
        | inl e ↦ rw e (find-ensure_operations sensor.uuid u s.reading_operations_buffer)
        | inr (other, e) ↦ elim (Option-cases (HashMap.find other s.reading_operations_buffer)) [
          | inl q ↦
              rw (e, take_over-none sensor.uuid other s.reading_operations_buffer q)
                (find-ensure_operations sensor.uuid u s.reading_operations_buffer
                  ∙ ground (arith, q, ==_iff other u))
          | inr (ops, q) ↦ rw e (
              find-ensure_operations sensor.uuid u
                (take_over sensor.uuid other s.reading_operations_buffer)
              ∙ ground (
                arith,
                find-take_over sensor.uuid other u ops s.reading_operations_buffer q,
                find-take_over sensor.uuid other sensor.uuid ops s.reading_operations_buffer q,
                ==_iff sensor.uuid u,
                ==_refl sensor.uuid,
                q,
              ))
        ]
      ]

  pub has_pending :
      (u : Uuid)
      → (sensor.uuid == u) ≡ true
      → (ops : Operations) × (HashMap.find u (set_buffers sensor s).reading_operations_buffer
          ≡ some ops)
  has_pending u same =
      let owner = HashMap.find sensor.external_id s.external_ids_buffer in
      let before = s.reading_operations_buffer in
      (
        inherited sensor.uuid owner (HashMap.find sensor.uuid before) (pending_of before owner),
        pending-set_buffers u ∙ rw same,
      )
