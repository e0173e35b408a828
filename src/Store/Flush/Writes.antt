-- ===== src/Store/Flush/Writes.antt =====
-- Writing the pending inserts, one at a time or in bulks, puts all of them into the database.
use libklio.Prelude.{
  ℕ, zero, suc, ◌*◌, ◌≤◌, ◌<◌, ◌≡◌, refl, sym, ap, subst, ◌∙◌, Bool, [], ◌∷◌, ◌++◌, arith, length,
  take, drop, length-drop, take-append-drop, Bool-cases, inl, inr, leb,
}
use libklio.Exec.{Exec, Result, ok, ◌>>◌}
use libklio.OrdMap
use libklio.OrdMap.Sorted.{IsSorted, IsSorted-append_right, insert_all-append, assign_all-append}
use libklio.Time.{Double, Readings, timestamp_less}
use libklio.Sensor.{Sensor, Uuid}
use libklio.Store.{Store, Records, Call, run}
use libklio.Store.Reliable.{
  Policy, keep_old, take_new, put_all, rounded, Model, Written, Writes, IsReliable,
}
use libklio.Store.Flush.{write_singles, write_bulks, write_inserts, bulk_count}
use libklio.Store.Flush.Bulks.{fill_lem, le-bulk_count}

pub put_all-nil : (p : Policy) (m : Readings) → put_all p [] m ≡ m
unfolding OrdMap.insert_all OrdMap.assign_all
put_all-nil keep_old m = refl
put_all-nil take_new m = refl

pub put_all-append :
    (p : Policy) (q r m : Readings) → put_all p (q ++ r) m ≡ put_all p r (put_all p q m)
put_all-append keep_old q r m = insert_all-append q r m
put_all-append take_new q r m = assign_all-append q r m

rounded-append :
    (f : Double → Double) (q r : Readings) → rounded f (q ++ r) ≡ rounded f q ++ rounded f r
rounded-append f [] r = refl
rounded-append f ((t, v) ∷ q) r = ap (λ rest. (t, f v) ∷ rest) (rounded-append f q r)

module _ {D : Type 0} (m : Model D) where
  -- An action that succeeds, changes only the database, and has written.
  abbrev pub Wrote : Store D → Uuid → Readings → Result (Unit {0}) × Store D → Type 0
  Wrote s uuid new out = (d : D) × (out ≡ (ok tt, record s { db = d })) × Written m s uuid new d

  pub Written-refl : (s : Store D) (uuid : Uuid) → Written m s uuid (m.stored s.db uuid) s.db
  Written-refl s uuid = record { accepts = λ x h. h; written = refl; others = λ u h. refl }

  pub Written-trans :
      (s : Store D) (uuid : Uuid) (a b : Readings) (d e : D)
      → Written m s uuid a d
      → Written m (record s { db = d }) uuid b e
      → Written m s uuid b e
  Written-trans s uuid a b d e w w' = record {
    accepts = λ x h. w'.accepts x (w.accepts x h);
    written = w'.written;
    others = λ u h. w'.others u h ∙ w.others u h;
  }

  pub run-Wrote :
      (s : Store D) (uuid : Uuid) (new : Readings) (call : Call D Unit)
      → Writes m s uuid new (call s)
      → Wrote s uuid new (run call s)
  run-Wrote s uuid new call (d, e, w) = (d, rw e, w)

  pub Wrote-bind :
      (s : Store D) (uuid : Uuid) (a b : Readings) (first second : Exec (Store D) Unit)
      → Wrote s uuid a (first s)
      → ((d : D)
          → Written m s uuid a d
          → Wrote (record s { db = d }) uuid b (second (record s { db = d })))
      → Wrote s uuid b ((first >> second) s)
  Wrote-bind s uuid a b first second (d, e, w) next =
      let (d', e', w') = next d w in (d', rw e e', Written-trans s uuid a b d d' w w')

  -- Writing `q` and then `r` is writing both.
  Wrote-put_all :
      (p : Policy) (q r base : Readings) (s : Store D) (uuid : Uuid)
      {out : Result (Unit {0}) × Store D}
      → m.stored s.db uuid ≡ put_all p q base
      → Wrote s uuid (put_all p r (m.stored s.db uuid)) out
      → Wrote s uuid (put_all p (q ++ r) base) out
  Wrote-put_all p q r base s uuid {out} e w =
      subst (λ new. Wrote s uuid new out) (ap (put_all p r) e ∙ sym (put_all-append p q r base)) w

module _ {D : Type 0} (r : Records D) (m : Model D) (p : Policy) (ignore : Bool)
    (reliable : IsReliable r m p ignore) (sensor : Sensor) where
  pub write_singles-Wrote :
      (readings : Readings) (s : Store D)
      → m.accepts s.sensors_buffer s.db sensor
      → Wrote m s sensor.uuid
          (put_all p (rounded m.round readings) (m.stored s.db sensor.uuid))
          (write_singles r sensor ignore readings s)
  unfolding write_singles
  write_singles-Wrote [] s h = rw put_all-nil (s.db, refl, Written-refl m s sensor.uuid)
  write_singles-Wrote ((t, v) ∷ rest) s h =
      Wrote-bind m s sensor.uuid _ _ single _
        (run-Wrote m s sensor.uuid _ (r.add_single_reading_record sensor t v ignore)
          (reliable.single sensor t v s h))
        λ d w.
          Wrote-put_all m p ((t, m.round v) ∷ []) (rounded m.round rest) _ (record s { db = d })
            sensor.uuid w.written
            (write_singles-Wrote rest (record s { db = d }) (w.accepts sensor h))
    where
      single : Exec (Store D) Unit
      single = run (r.add_single_reading_record sensor t v ignore)

  pub write_bulks-Wrote :
      (max bulks : ℕ) (reading : Readings) (s : Store D)
      → IsSorted reading
      → length reading ≤ bulks * max
      → m.accepts s.sensors_buffer s.db sensor
      → Wrote m s sensor.uuid
          (put_all p (rounded m.round reading) (m.stored s.db sensor.uuid))
          (write_bulks r sensor ignore max bulks reading s)
  unfolding write_bulks
  write_bulks-Wrote max zero [] s o b h = rw put_all-nil (s.db, refl, Written-refl m s sensor.uuid)
  write_bulks-Wrote max zero (x ∷ reading) s o b h = absurd (omega arith)
  write_bulks-Wrote max (suc bulks) reading s o b h =
      let tail : IsSorted (drop max reading) =
        IsSorted-append_right (take max reading) (drop max reading)
          (subst IsSorted (sym (take-append-drop max reading)) o) in
      rw (fill_lem max reading o) (
        subst (λ q. Wrote m s sensor.uuid (put_all p q (m.stored s.db sensor.uuid)) (both s))
          (sym (rounded-append m.round (take max reading) (drop max reading))
            ∙ ap (rounded m.round) (take-append-drop max reading))
          (Wrote-bind m s sensor.uuid _ _ one _
            (run-Wrote m s sensor.uuid _
              (r.add_bulk_reading_records sensor (take max reading) ignore)
              (reliable.bulk sensor (take max reading) s h))
            λ d w.
              Wrote-put_all m p (rounded m.round (take max reading))
                (rounded m.round (drop max reading)) _ (record s { db = d }) sensor.uuid w.written
                (write_bulks-Wrote max bulks (drop max reading) (record s { db = d }) tail
                  (omega (arith, length-drop {0} max reading)) (w.accepts sensor h))))
    where
      one : Exec (Store D) Unit
      one = run (r.add_bulk_reading_records sensor (take max reading) ignore)

      both : Exec (Store D) Unit
      both = one >> write_bulks r sensor ignore max bulks (drop max reading)

  -- Over a reliable database that accepts the sensor, and for every limit on the size of a bulk above
  -- 0, sorted pending inserts change the database as one write of all of them does, whether they are
  -- written one by one or in bulks.
  pub write_inserts-Wrote :
      (readings : Readings) (s : Store D)
      → IsSorted readings
      → 0 < s.max_bulk_size
      → m.accepts s.sensors_buffer s.db sensor
      → Wrote m s sensor.uuid
          (put_all p (rounded m.round readings) (m.stored s.db sensor.uuid))
          (write_inserts r sensor ignore readings s)
  unfolding write_inserts
  write_inserts-Wrote readings s o pos h =
      elim (Bool-cases (leb (length readings) s.min_bulk_size)) [
        | inl few ↦ rw few (write_singles-Wrote readings s h)
        | inr many ↦ rw many (
            write_bulks-Wrote s.max_bulk_size (bulk_count (length readings) s.max_bulk_size)
              readings s o (le-bulk_count (length readings) s.max_bulk_size pos) h)
      ]
