-- ===== src/Store/Buffers/Index.antt =====
-- The three buffers agree, as long as no sensor changes its external id.
use libklio.Prelude.{
  ◌≡◌, ap, ◌∙◌, false, String, Option, some, arith, ◌==◌, ==_iff, ==_refl, nat_eq, string_eq,
  Option-cases, Bool-cases, inl, inr,
}
use libklio.HashMap
use libklio.HashMap.{HashMap, find-assign, find-erase, find-nil}
use libklio.Sensor.{Sensor, Uuid}
use libklio.Store.{Store, Operations}
use libklio.Store.Buffers.{set_buffers, forget_sensor, clear_buffers}
use libklio.Store.Buffers.Lookups.{
  sensors-set_buffers, ids-set_buffers, pending-set_buffers, has_pending,
}

-- The entry of a sensor: it is no null pointer, stands under its uuid, its external id leads to it,
-- and it has its pending operations.
pub record IsEntry {D : Type 0} (s : Store D) (u : Uuid) (q : Option Sensor) : Type 0 where
  pub sensor : Sensor
  pub there : q ≡ some sensor
  pub keyed : sensor.uuid ≡ u
  pub listed : HashMap.find sensor.external_id s.external_ids_buffer ≡ some u
  pub ops : Operations
  pub pending : HashMap.find u s.reading_operations_buffer ≡ some ops

-- What an external id leads to.
pub record IsListed {D : Type 0} (s : Store D) (e : String) (u : Uuid) : Type 0 where
  pub sensor : Sensor
  pub there : HashMap.find u s.sensors_buffer ≡ some (some sensor)
  pub named : sensor.external_id ≡ e

pub record IsIndexed {D : Type 0} (s : Store D) : Type 0 where
  pub entry :
      (u : Uuid) (q : Option Sensor) → HashMap.find u s.sensors_buffer ≡ some q → IsEntry s u q
  pub listing :
      (e : String) (u : Uuid) → HashMap.find e s.external_ids_buffer ≡ some u → IsListed s e u

-- The sensor does not change the external id of the sensor that has its uuid.
abbrev pub KeepsId : {D : Type 0} → Store D → Sensor → Type 0
KeepsId s sensor =
    (y : Sensor)
    → HashMap.find sensor.uuid s.sensors_buffer ≡ some (some y)
    → y.external_id ≡ sensor.external_id

module _ {D : Type 0} (sensor : Sensor) (s : Store D) (h : IsIndexed s)
    (keeps : KeepsId s sensor) where
  set_buffers-IsEntry :
      (u : Uuid) (q : Option Sensor)
      → HashMap.find u (set_buffers sensor s).sensors_buffer ≡ some q
      → IsEntry (set_buffers sensor s) u q
  set_buffers-IsEntry u q found = elim (Bool-cases (sensor.uuid == u)) [
    | inl same ↦ record {
      sensor = sensor;
      there = ground (arith, sensors-set_buffers sensor s u);
      keyed = (==_iff sensor.uuid u).0 same;
      listed =
          ids-set_buffers sensor s sensor.external_id
          ∙ rw (==_refl sensor.external_id) (ap some ((==_iff sensor.uuid u).0 same));
      ops = (has_pending sensor s u same).0;
      pending = (has_pending sensor s u same).1;
    }
    | inr differs ↦
        let kept : HashMap.find u s.sensors_buffer ≡ some q =
          ground (arith, sensors-set_buffers sensor s u) in
        let old = h.entry u q kept in
        record {
          sensor = old.sensor;
          there = old.there;
          keyed = old.keyed;
          listed = ground (
            arith,
            ids-set_buffers sensor s old.sensor.external_id,
            sensors-set_buffers sensor s u,
            ==_iff sensor.external_id old.sensor.external_id,
            ==_refl u,
            old.listed,
          );
          ops = old.ops;
          pending =
              ground (
                arith,
                pending-set_buffers sensor s u,
                sensors-set_buffers sensor s u,
                old.pending,
              );
        }
  ]

  -- Where an external id that is not the sensor's own leads to, no sensor is replaced.
  other_id :
      (e : String) (u : Uuid) (old : IsListed s e u)
      → (sensor.external_id == e) ≡ false
      → HashMap.find u (set_buffers sensor s).sensors_buffer ≡ some (some old.sensor)
  other_id e u old differs =
      elim (Option-cases (HashMap.find sensor.external_id s.external_ids_buffer)) [
        | inl none_there ↦ ground (
          arith,
          sensors-set_buffers sensor s u,
          keeps old.sensor,
          old.there,
          old.named,
          ==_iff sensor.uuid u,
          ==_iff sensor.external_id e,
        )
        | inr (other, owned) ↦
            let owner = h.listing sensor.external_id other owned in
            ground (
              arith,
              sensors-set_buffers sensor s u,
              keeps old.sensor,
              old.there,
              old.named,
              owner.there,
              owner.named,
              ==_iff sensor.uuid u,
              ==_iff other u,
              ==_iff sensor.external_id e,
            )
      ]

  set_buffers-IsListed :
      (e : String) (u : Uuid)
      → HashMap.find e (set_buffers sensor s).external_ids_buffer ≡ some u
      → IsListed (set_buffers sensor s) e u
  set_buffers-IsListed e u found = elim (Bool-cases (sensor.external_id == e)) [
    | inl same ↦ record {
      sensor = sensor;
      there = ground (arith, ids-set_buffers sensor s e, sensors-set_buffers sensor s u, ==_refl u);
      named = (==_iff sensor.external_id e).0 same;
    }
    | inr differs ↦
        let old : IsListed s e u = h.listing e u (ground (arith, ids-set_buffers sensor s e)) in
        record { sensor = old.sensor; there = other_id e u old differs; named = old.named }
  ]

  -- Entering a sensor that keeps its external id keeps the three buffers in agreement.
  pub set_buffers-IsIndexed : IsIndexed (set_buffers sensor s)
  set_buffers-IsIndexed = record { entry = set_buffers-IsEntry; listing = set_buffers-IsListed }

module _ {D : Type 0} where
  -- Removing a sensor that is listed under its external id keeps the buffers in agreement.
  pub forget_sensor-IsIndexed :
      (sensor : Sensor) (s : Store D)
      → IsIndexed s
      → HashMap.find sensor.external_id s.external_ids_buffer ≡ some sensor.uuid
      → IsIndexed (forget_sensor sensor s)
  unfolding forget_sensor
  forget_sensor-IsIndexed sensor s h owned = record {
    entry = λ u q found.
        let gone = find-erase u sensor.uuid s.sensors_buffer in
        let old = h.entry u q (ground (arith, gone)) in
        record {
          sensor = old.sensor;
          there = old.there;
          keyed = old.keyed;
          listed = ground (
            arith,
            gone,
            find-erase old.sensor.external_id sensor.external_id s.external_ids_buffer,
            ==_iff sensor.external_id old.sensor.external_id,
            ==_iff sensor.uuid u,
            old.listed,
          );
          ops = old.ops;
          pending =
              ground
                (arith, gone, find-erase u sensor.uuid s.reading_operations_buffer, old.pending);
        };
    listing = λ e u found.
        let gone = find-erase e sensor.external_id s.external_ids_buffer in
        let old = h.listing e u (ground (arith, gone)) in
        let self = h.listing sensor.external_id sensor.uuid owned in
        record {
          sensor = old.sensor;
          there = ground (
            arith,
            gone,
            find-erase u sensor.uuid s.sensors_buffer,
            old.there,
            old.named,
            self.there,
            self.named,
            ==_iff sensor.external_id e,
            ==_iff sensor.uuid u,
          );
          named = old.named;
        };
  }

  pub clear_buffers-IsIndexed : (s : Store D) → IsIndexed (clear_buffers s)
  unfolding clear_buffers
  clear_buffers-IsIndexed s = record {
    entry = λ u q found. cc (find-nil {V = Option Sensor} u);
    listing = λ e u found. cc (find-nil {V = Uuid} e);
  }
