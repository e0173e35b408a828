-- ===== src/Sqlite3/Cached.antt =====
-- The cache of statements: what it holds for a text is a live statement of this text.
pub mod Operations
use libklio.Prelude.{
  ◌≡◌, refl, sym, ◌∙◌, ap, ◌≢◌, ℕ, zero, suc, Bool, true, false, Bool-cases, Option, none, some,
  Option-cases, inl, inr, String, List, [], ◌∷◌, ◌==◌, ==_iff, nat_eq, string_eq, arith,
  if◌then◌else◌,
}
use libklio.Prelude.Int.{ℤ}
use libklio.Exec.{
  Exec, Result, ok, err, Error, pure, modify, ◌>>=◌, ◌>>◌, catching, finally, caught_by,
}
use libklio.Exec.Preserves.{
  Preserves, Preserves-pure, Preserves-throw, Preserves-if, Preserves-bind, Preserves-finally,
  Preserves-catching, preserves_rules,
}
use libklio.HashMap
use libklio.HashMap.{find-assign, find-assign_self}
use libklio.Time.{Timestamp, Double, Readings}
use libklio.Sqlite3.SensorRecords.{run_text, run_prepared}
use libklio.Sqlite3.{
  Api, Members, Pointer, act, reset, finalize, prepare_statement, get_statement, execute,
}

-- What SQLite documents of its statements; `sql` is sqlite3_sql on a live statement. A statement that
-- is prepared is a new one, a failure leaves NULL, and only `finalize` ends a statement.
pub record IsPreparing {W : Type 0} (api : Api W) (sql : Pointer → W → Option String) : Type 0 where
  pub prepares :
      (c : Pointer) (text : String) (w : W)
      → (api.prepare_v2 c text w).0.0 ≡ 0
      → (sql (api.prepare_v2 c text w).0.1 w ≡ none)
        × (sql (api.prepare_v2 c text w).0.1 (api.prepare_v2 c text w).1 ≡ some text)
  pub keeps :
      (c : Pointer) (text : String) (q : Pointer) (t : String) (w : W)
      → sql q w ≡ some t
      → sql q (api.prepare_v2 c text w).1 ≡ some t
  pub fails :
      (c : Pointer) (text : String) (w : W)
      → (api.prepare_v2 c text w).0.0 ≢ 0
      → (api.prepare_v2 c text w).0.1 ≡ 0
  pub null : (w : W) → api.sqlite3_finalize 0 w ≡ w
  pub finalizes : (p q : Pointer) (w : W) → q ≢ p → sql q (api.sqlite3_finalize p w) ≡ sql q w
  pub steps : (p q : Pointer) (w : W) → sql q (api.step p w).1 ≡ sql q w
  pub resets : (p q : Pointer) (w : W) → sql q (api.sqlite3_reset p w) ≡ sql q w
  pub clears : (p q : Pointer) (w : W) → sql q (api.clear_bindings p w) ≡ sql q w
  pub binds_text :
      (p q : Pointer) (i : ℕ) (t : String) (w : W) → sql q (api.bind_text p i t w) ≡ sql q w
  pub binds_int : (p q : Pointer) (i : ℕ) (n : ℤ) (w : W) → sql q (api.bind_int p i n w) ≡ sql q w
  pub binds_double :
      (p q : Pointer) (i : ℕ) (v : Double) (w : W) → sql q (api.bind_double p i v w) ≡ sql q w

module _ {W : Type 0} (api : Api W) (sql : Pointer → W → Option String) where
  abbrev pub IsCached : Members W → Type 0
  IsCached s =
      (text : String) (p : Pointer)
      → HashMap.find text s.statements ≡ some p
      → sql p s.world ≡ some text

module _ {W : Type 0} (api : Api W) where
  -- A text for which a statement was found or prepared has the same statement the next time, which
  -- changes nothing and calls nothing.
  pub get_statement-get_statement :
      (text : String) (s : Members W) (stmt : Pointer)
      → (get_statement api text s).0 ≡ ok stmt
      → get_statement api text (get_statement api text s).1
        ≡ (ok stmt, (get_statement api text s).1)
  unfolding get_statement prepare_statement
  get_statement-get_statement text s stmt e = elim (Option-cases (HashMap.find text s.statements)) [
    | inl none_yet ↦ ground (
      arith,
      e,
      none_yet,
      find-assign_self text (api.prepare_v2 s.connection text s.world).0.1 s.statements,
    )
    | inr (p, found) ↦ ground (arith, e, found)
  ]

module _ {W : Type 0} (api : Api W) (sql : Pointer → W → Option String)
    (spec : IsPreparing api sql) where
  -- A call that leaves all live statements as they are.
  pub act-IsCached :
      (f : W → W)
      → ((q : Pointer) (w : W) → sql q (f w) ≡ sql q w)
      → Preserves (IsCached api sql) (modify (act f))
  act-IsCached f same = record { at = λ s h text p found. same p s.world ∙ h text p found }

  pub execute-IsCached :
      (stmt : Pointer) (code : ℕ) → Preserves (IsCached api sql) (execute api stmt code)
  unfolding execute
  execute-IsCached stmt code = record {
    at = λ s h text p found. ground (
      arith,
      h text p,
      spec.steps stmt p s.world,
      spec.resets stmt p (api.step stmt s.world).1,
      spec.clears stmt p (api.sqlite3_reset stmt (api.step stmt s.world).1),
    );
  }

  prepare-IsCached : (text : String) → Preserves (IsCached api sql) (prepare_statement api text)
  unfolding prepare_statement
  prepare-IsCached text = record {
    at = λ s h t p found.
        let w = (api.prepare_v2 s.connection text s.world).1 in
        ground (
          arith,
          h t p,
          spec.keeps s.connection text p t s.world,
          spec.fails s.connection text s.world,
          spec.null w,
        );
  }

  pub get_statement-IsCached :
      (text : String) → Preserves (IsCached api sql) (get_statement api text)
  unfolding get_statement prepare_statement
  get_statement-IsCached text = record {
    at = λ s h t p found.
        let w = (api.prepare_v2 s.connection text s.world).1 in
        let stmt = (api.prepare_v2 s.connection text s.world).0.1 in
        ground (
          arith,
          h t p,
          find-assign t text stmt s.statements,
          ==_iff text t,
          spec.prepares s.connection text s.world,
          spec.keeps s.connection text p t s.world,
          spec.fails s.connection text s.world,
          spec.null w,
        );
  }

  pub reset-IsCached :
      (stmt : Pointer) (s : Members W) → IsCached api sql s → IsCached api sql (reset api stmt s)
  reset-IsCached stmt s h text p found =
      spec.clears stmt p (api.sqlite3_reset stmt s.world)
      ∙ (spec.resets stmt p s.world ∙ h text p found)

  -- A statement that is prepared, executed and finalized is no cached one.
  pub run_text-IsCached : (text : String) → Preserves (IsCached api sql) (run_text api text)
  unfolding prepare_statement execute
  run_text-IsCached text = record {
    at = λ s h t q found.
        let w = (api.prepare_v2 s.connection text s.world).1 in
        let p = (api.prepare_v2 s.connection text s.world).0.1 in
        let w' = (api.step p w).1 in
        let w2 = api.clear_bindings p (api.sqlite3_reset p w') in
        ground (
          arith,
          h t q,
          spec.prepares s.connection text s.world,
          spec.keeps s.connection text q t s.world,
          spec.fails s.connection text s.world,
          spec.null w,
          spec.steps p q w,
          spec.resets p q w',
          spec.clears p q (api.sqlite3_reset p w'),
          spec.finalizes p q w',
          spec.finalizes p q w2,
        );
  }

  pub run_prepared-IsCached :
      (stmt : Pointer) (bind : Pointer → W → W)
      → ((q : Pointer) (w : W) → sql q (bind stmt w) ≡ sql q w)
      → Preserves (IsCached api sql) (run_prepared api stmt bind)
  run_prepared-IsCached stmt bind same =
      Preserves-finally (modify (act (bind stmt)) >> execute api stmt 101) (reset api stmt)
        (Preserves-bind (modify (act (bind stmt))) (λ _. execute api stmt 101)
          (act-IsCached (bind stmt) same) (λ _. execute-IsCached stmt 101))
        (reset-IsCached stmt)
