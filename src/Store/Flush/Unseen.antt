-- ===== src/Store/Flush/Unseen.antt =====
-- No flush, of one sensor, of all of them or by the clock, changes what a reader sees.
use libklio.Prelude.{
  ℕ, ◌≡◌, subst, ap, ◌∙◌, Bool, true, Option, none, some, [], ◌∷◌, arith, All, ◌==◌, ==_iff, nat_eq,
  Bool-cases, inl, inr, ◌&&◌,
}
use libklio.Prelude.Int.{◌-ℤ◌, leb_ℤ}
use libklio.Exec.{Exec, Result}
use libklio.HashMap
use libklio.HashMap.{HashMap}
use libklio.OrdMap
use libklio.Time.{Timestamp, Readings, timestamp_less}
use libklio.Sensor.{Sensor, Uuid}
use libklio.Store.{Store, Records, no_operations}
use libklio.Store.Reliable.{Policy, Model, Kept, Reads, IsReliable, IsTransactional}
use libklio.Store.View.{
  apply, view, rounded_pending, IsReady, changed, Invisible, Invisible-refl, Invisible-bind,
  Invisible-of, Invisible-trans, Kept-Invisible,
}
use libklio.Store.Transactions.{in_transaction}
use libklio.Store.Transactions.Committed.{in_transaction_commits}
use libklio.Store.Flush.{flush_sensor, flush_entries, flush_all, auto_flush}
use libklio.Store.Flush.Writes.{put_all-nil}
use libklio.Store.Flush.Flushed.{Flushed, flush_sensor-Flushed}

module _ {D : Type 0} (m : Model D) (p : Policy) where
  apply-no_operations : (stored : Readings) → apply p (some no_operations) stored ≡ stored
  unfolding OrdMap.assign_all
  apply-no_operations stored = put_all-nil p stored

  pub Flushed-views :
      (s : Store D) (sensor : Sensor) {out : Result (Unit {0}) × Store D}
      (f : Flushed m p s sensor out) (u : Uuid)
      → view m p (changed s s.last_flush f.buffer f.db) u ≡ view m p s u
  unfolding view
  Flushed-views s sensor f u = elim (Bool-cases (sensor.uuid == u)) [
    | inl same ↦
        let e : sensor.uuid ≡ u = (==_iff sensor.uuid u).0 same in
        rw (f.cleared u, same)
          (apply-no_operations (m.stored f.db u)
            ∙ subst (λ w. m.stored f.db w ≡ view m p s w) e f.written.written)
    | inr other ↦
        rw (f.cleared u, other)
          (ap (apply p (rounded_pending m.round (HashMap.find u s.reading_operations_buffer)))
            (f.written.others u (λ e. ground (arith, ==_iff sensor.uuid u))))
  ]

  Flushed-ready :
      (s : Store D) (sensor : Sensor) {out : Result (Unit {0}) × Store D}
      (f : Flushed m p s sensor out) (x : Sensor)
      → IsReady m s x
      → IsReady m (changed s s.last_flush f.buffer f.db) x
  Flushed-ready s sensor f x h = elim (Bool-cases (sensor.uuid == x.uuid)) [
    | inl same ↦ record {
      ops = no_operations;
      cached = f.cleared x.uuid ∙ rw same;
      sorted = tt;
      sorted_updates = tt;
      accepted = f.written.accepts x h.accepted;
      capacity = h.capacity;
    }
    | inr other ↦ record {
      ops = h.ops;
      cached = f.cleared x.uuid ∙ rw other h.cached;
      sorted = h.sorted;
      sorted_updates = h.sorted_updates;
      accepted = f.written.accepts x h.accepted;
      capacity = h.capacity;
    }
  ]

  Flushed-Invisible :
      (s : Store D) (sensor : Sensor) {out : Result (Unit {0}) × Store D}
      → Flushed m p s sensor out
      → Invisible m p s out
  Flushed-Invisible s sensor f = record {
    db = f.db;
    buffer = f.buffer;
    last_flush = s.last_flush;
    result = f.result;
    views = Flushed-views s sensor f;
    ready = Flushed-ready s sensor f;
  }

-- Every sensor of the buffer is ready; no entry is a null pointer.
abbrev pub EntryReady : {D : Type 0} → Model D → Store D → Uuid × Option Sensor → Type 0
EntryReady m s (uuid, none) = ⊥
EntryReady m s (uuid, some x) = (x.uuid ≡ uuid) × IsReady m s x

abbrev pub IsWellFormed : {D : Type 0} → Model D → Store D → Type 0
IsWellFormed m s = All (EntryReady m s) s.sensors_buffer

module _ {D : Type 0} {m : Model D} where
  pub entries-ready :
      (s s' : Store D)
      → ((x : Sensor) → IsReady m s x → IsReady m s' x)
      → (entries : HashMap Uuid (Option Sensor)) → All (EntryReady m s) entries
      → All (EntryReady m s') entries
  entries-ready s s' keep [] h = tt
  entries-ready s s' keep ((u, none) ∷ rest) h = absurd h.0
  entries-ready s s' keep ((u, some x) ∷ rest) h =
      ((h.0.0, keep x h.0.1), entries-ready s s' keep rest h.1)

module _ {D : Type 0} (r : Records D) (m : Model D) (p : Policy) (ignore : Bool)
    (reliable : IsReliable r m p ignore) where
  flush_entries-Invisible :
      (entries : HashMap Uuid (Option Sensor)) (s : Store D)
      → All (EntryReady m s) entries
      → Invisible m p s (flush_entries r ignore entries s)
  unfolding flush_entries
  flush_entries-Invisible [] s h = Invisible-refl m p s
  flush_entries-Invisible ((u, none) ∷ rest) s h = absurd h.0
  flush_entries-Invisible ((u, some x) ∷ rest) s h =
      let first =
        Flushed-Invisible m p s x (flush_sensor-Flushed r m p ignore reliable x s h.0.1) in
      Invisible-bind m p s (flush_sensor r x ignore) (flush_entries r ignore rest) first
        (flush_entries-Invisible rest _ (entries-ready s _ first.ready rest h.1))

  -- A flush of all sensors succeeds, and no reader can tell.
  pub flush_all-Invisible :
      (s : Store D) → IsWellFormed m s → Invisible m p s (flush_all r ignore s)
  unfolding flush_all
  flush_all-Invisible s h = flush_entries-Invisible s.sensors_buffer s h

module _ {D : Type 0} (r : Records D) (m : Model D) (p : Policy) (tr : IsTransactional r m)
    (body : Exec (Store D) Unit)
    (quiet : (s : Store D) → IsWellFormed m s → Invisible m p s (body s)) where
  -- Where the store commits by itself, a body that no reader notices stays so in a transaction.
  pub in_transaction-Invisible :
      (s : Store D)
      → IsWellFormed m s
      → s.auto_commit ≡ true
      → Invisible m p s (in_transaction r body s)
  unfolding in_transaction Kept-Invisible
  in_transaction-Invisible s h ac = framed (tr.handler s)
    where
      still :
          (s' : Store D) (d : D)
          → Kept m s' d
          → IsWellFormed m s'
          → IsWellFormed m (record s' { db = d })
      still s' d k = entries-ready s' _ (Kept-Invisible m p s' d k).ready s'.sensors_buffer

      framed :
          ((t : Option ℕ) × Reads m s t (r.get_transaction_handler s))
          → Invisible m p s (in_transaction r body s)
      framed (none, (d, e, k)) =
          let i = quiet (record s { db = d }) (still s d k h) in
          Invisible-of m p s (rw (e, i.result)) (Invisible-trans m p s (Kept-Invisible m p s d k) i)
      framed (some t, (d, e, k)) =
          let s1 : Store D = record s { db = d } in
          let (d2, e2, k2) = tr.start t s1 in
          let s2 : Store D = record s { db = d2 } in
          let i = quiet s2 (still s1 d2 k2 (still s d k h)) in
          let s3 : Store D = changed s i.last_flush i.buffer i.db in
          let (d4, e4, k4) = tr.commit t s3 in
          Invisible-of m p s (in_transaction_commits r body s s3 t tt ac e e2 i.result ac e4) (
            Invisible-trans m p s (Kept-Invisible m p s d k) (
              Invisible-trans m p s1 (Kept-Invisible m p s1 d2 k2)
                (Invisible-trans m p s2 i (Kept-Invisible m p s3 d4 k4))))

module _ {D : Type 0} (r : Records D) (m : Model D) (p : Policy) (tr : IsTransactional r m)
    (reliable : IsReliable r m p true) where
  committed_flush :
      (s : Store D)
      → IsWellFormed m s
      → s.auto_commit ≡ true
      → Invisible m p s (in_transaction r (flush_all r true) s)
  committed_flush s h ac =
      in_transaction-Invisible r m p tr (flush_all r true) (flush_all-Invisible r m p true reliable)
        s h ac

  -- Over a reliable database whose transactions work, in a well-formed store that commits by itself,
  -- the flush by the clock succeeds, whether it is due or not, and no reader can tell.
  pub auto_flush-Invisible :
      (now : Timestamp) (s : Store D)
      → IsWellFormed m s
      → s.auto_commit ≡ true
      → Invisible m p s (auto_flush r now s)
  unfolding auto_flush view
  auto_flush-Invisible now s h ac =
      elim (Bool-cases (s.auto_flush && leb_ℤ s.flush_timeout (now -ℤ s.last_flush))) [
        | inl due ↦
            let i = committed_flush s h ac in
            record {
              db = i.db;
              buffer = i.buffer;
              last_flush = now;
              result = rw (due, i.result);
              views = i.views;
              ready = λ x k.
                  let q = i.ready x k in
                  record {
                    ops = q.ops;
                    cached = q.cached;
                    sorted = q.sorted;
                    sorted_updates = q.sorted_updates;
                    accepted = q.accepted;
                    capacity = q.capacity;
                  };
            }
        | inr not_due ↦ rw not_due (Invisible-refl m p s)
      ]
