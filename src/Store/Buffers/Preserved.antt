-- ===== src/Store/Buffers/Preserved.antt =====
-- The buffers agree after a call of the derived class, and after a write to pending operations.
use libklio.Prelude.{◌≡◌, ◌∙◌, some, ◌==◌, nat_eq, string_eq, Bool-cases, Option-cases, inl, inr}
use libklio.Exec.{modify}
use libklio.Exec.Preserves.{Preserves}
use libklio.HashMap
use libklio.HashMap.{HashMap, find-assign}
use libklio.Time.{Readings, Timestamp, timestamp_less}
use libklio.Sensor.{Uuid}
use libklio.Store.{Store, Call, run, Operation, Operations, replace, at}
use libklio.Store.Buffers.{
  write_buffered, get_buffered_readings, get_sensor, or_null, or_out_of_range, or_not_found,
}
use libklio.Store.Buffers.Index.{IsIndexed}

module _ {D : Type 0} where
  -- Only the external ids, the sensors and the keys of the pending operations matter.
  pub same_keys-IsIndexed :
      (s : Store D) (b : HashMap Uuid Operations) (d : D)
      → ((u : Uuid) (ops : Operations)
          → HashMap.find u s.reading_operations_buffer ≡ some ops
          → (ops' : Operations) × (HashMap.find u b ≡ some ops'))
      → IsIndexed s
      → (last : Timestamp)
      → IsIndexed (record s { last_flush = last; reading_operations_buffer = b; db = d })
  same_keys-IsIndexed s b d kept h last = record {
    entry = λ u q found.
        let old = h.entry u q found in
        let (ops', e) = kept u old.ops old.pending in
        record {
          sensor = old.sensor;
          there = old.there;
          keyed = old.keyed;
          listed = old.listed;
          ops = ops';
          pending = e;
        };
    listing = λ e u found.
        let old = h.listing e u found in
        record { sensor = old.sensor; there = old.there; named = old.named };
  }

  pub db-IsIndexed : (s : Store D) (d : D) → IsIndexed s → IsIndexed (record s { db = d })
  db-IsIndexed s d h =
      same_keys-IsIndexed s s.reading_operations_buffer d (λ u ops e. (ops, e)) h s.last_flush

  pub run-IsIndexed : {A : Type 0} (call : Call D A) → Preserves IsIndexed (run call)
  run-IsIndexed call = record { at = λ s h. db-IsIndexed s (call s).1 h }

  pub write_buffered-IsIndexed :
      (u : Uuid) (o : Operation) (readings : Readings)
      → Preserves IsIndexed (modify (write_buffered {D = D} u o readings))
  unfolding write_buffered
  write_buffered-IsIndexed u o readings = record {
    at = λ s h. elim (Option-cases (HashMap.find u s.reading_operations_buffer)) [
      | inl e ↦ rw e h
      | inr (ops, e) ↦ rw e (
          same_keys-IsIndexed s _ s.db
            (λ v before found.
              let written = find-assign v u (replace o readings ops) s.reading_operations_buffer in
              elim (Bool-cases (u == v)) [
                | inl same ↦ (replace o readings ops, written ∙ rw same)
                | inr differs ↦ (before, written ∙ rw differs found)
              ])
            h s.last_flush)
    ];
  }

  -- A buffer is looked up.
  pub get_buffered_readings-IsIndexed :
      (u : Uuid) (o : Operation) → Preserves IsIndexed (get_buffered_readings {D = D} u o)
  unfolding get_buffered_readings get_sensor or_null or_out_of_range or_not_found
  get_buffered_readings-IsIndexed u o = record {
    at = λ s h. elim (Option-cases (HashMap.find u s.sensors_buffer)) [
      | inl missing ↦ rw missing h
      | inr (x, there) ↦ elim (Option-cases (HashMap.find u s.reading_operations_buffer)) [
        | inl null ↦ rw (there, null) h
        | inr (ops, pending) ↦ elim (Option-cases (at o ops)) [
          | inl out_of_range ↦ rw (there, pending, out_of_range) h
          | inr (readings, found) ↦ rw (there, pending, found) h
        ]
      ]
    ];
  }
