-- ===== src/Store/View.antt =====
-- What a reader sees of a store: the readings in the database, with the pending operations of the
-- sensor on top.
use libklio.Prelude.{◌<◌, ◌≡◌, refl, ap, ◌∙◌, Option, none, some, nat_eq}
use libklio.Exec.{Exec, Result, ok, ◌>>◌}
use libklio.HashMap
use libklio.HashMap.{HashMap}
use libklio.OrdMap
use libklio.OrdMap.Sorted.{IsSorted}
use libklio.Time.{Timestamp, Double, Readings, timestamp_less}
use libklio.Sensor.{Sensor, Uuid}
use libklio.Store.{Store, Operations}
use libklio.Store.Reliable.{Policy, put_all, rounded, Model, Kept}

abbrev pub apply : Policy → Option Operations → Readings → Readings
apply p none stored = stored
apply p (some ops) stored = OrdMap.assign_all ops.updates (put_all p ops.inserts stored)

-- The pending operations as the database gives them back.
abbrev pub rounded_ops : (Double → Double) → Operations → Operations
rounded_ops round ops = record {
  inserts = rounded round ops.inserts;
  updates = rounded round ops.updates;
}

abbrev pub rounded_pending : (Double → Double) → Option Operations → Option Operations
rounded_pending round none = none
rounded_pending round (some ops) = some (rounded_ops round ops)

unfoldable pub view : {D : Type 0} → Model D → Policy → Store D → Uuid → Readings
view m p s uuid =
    apply p (rounded_pending m.round (HashMap.find uuid s.reading_operations_buffer))
      (m.stored s.db uuid)

-- The sensor has its entry in the buffer, in the order of a `std::map`, and the database accepts it.
pub record IsReady {D : Type 0} (m : Model D) (s : Store D) (sensor : Sensor) : Type 0 where
  pub ops : Operations
  pub cached : HashMap.find sensor.uuid s.reading_operations_buffer ≡ some ops
  pub sorted : IsSorted ops.inserts
  pub sorted_updates : IsSorted ops.updates
  pub accepted : m.accepts s.sensors_buffer s.db sensor
  pub capacity : 0 < s.max_bulk_size

abbrev pub changed : {D : Type 0} → Store D → Timestamp → HashMap Uuid Operations → D → Store D
changed s last_flush buffer db = record s {
  last_flush = last_flush;
  reading_operations_buffer = buffer;
  db = db;
}

module _ {D : Type 0} (m : Model D) (p : Policy) where
  -- An action that succeeds, and after which every reader sees what it saw before. It may change the
  -- database, the pending operations and the time of the last flush, and nothing else.
  pub record Invisible (s : Store D) (out : Result (Unit {0}) × Store D) : Type 0 where
    pub db : D
    pub buffer : HashMap Uuid Operations
    pub last_flush : Timestamp
    pub result : out ≡ (ok tt, changed s last_flush buffer db)
    pub views : (u : Uuid) → view m p (changed s last_flush buffer db) u ≡ view m p s u
    pub ready : (x : Sensor) → IsReady m s x → IsReady m (changed s last_flush buffer db) x

  pub Invisible-refl : (s : Store D) → Invisible s (ok tt, s)
  Invisible-refl s = record {
    db = s.db;
    buffer = s.reading_operations_buffer;
    last_flush = s.last_flush;
    result = refl;
    views = λ u. refl;
    ready = λ x h. h;
  }

  pub Invisible-trans :
      (s : Store D) {mid out : Result (Unit {0}) × Store D} (i : Invisible s mid)
      → Invisible (changed s i.last_flush i.buffer i.db) out
      → Invisible s out
  Invisible-trans s i j = record {
    db = j.db;
    buffer = j.buffer;
    last_flush = j.last_flush;
    result = j.result;
    views = λ u. j.views u ∙ i.views u;
    ready = λ x h. j.ready x (i.ready x h);
  }

  pub Invisible-of :
      (s : Store D) {out out' : Result (Unit {0}) × Store D}
      → out' ≡ out
      → Invisible s out
      → Invisible s out'
  Invisible-of s e i = record {
    db = i.db;
    buffer = i.buffer;
    last_flush = i.last_flush;
    result = e ∙ i.result;
    views = i.views;
    ready = i.ready;
  }

  pub Invisible-bind :
      (s : Store D) (first second : Exec (Store D) Unit) (i : Invisible s (first s))
      → (let s' = changed s i.last_flush i.buffer i.db in Invisible s' (second s'))
      → Invisible s ((first >> second) s)
  Invisible-bind s first second i j = Invisible-of s (rw i.result) (Invisible-trans s i j)

  -- A call that keeps the readings, as those of a transaction handler.
  unfoldable pub Kept-Invisible :
      (s : Store D) (d : D) → Kept m s d → Invisible s (ok tt, record s { db = d })
  unfolding view
  Kept-Invisible s d k = record {
    db = d;
    buffer = s.reading_operations_buffer;
    last_flush = s.last_flush;
    result = refl;
    views = λ u.
        ap (apply p (rounded_pending m.round (HashMap.find u s.reading_operations_buffer)))
          (k.kept u);
    ready = λ x h. record {
      ops = h.ops;
      cached = h.cached;
      sorted = h.sorted;
      sorted_updates = h.sorted_updates;
      accepted = k.accepts x h.accepted;
      capacity = h.capacity;
    };
  }
