-- ===== src/Postgres/Results.antt =====
-- The loop over the results that are waiting on a connection.
use libklio.Prelude.{
  ◌≡◌, refl, ℕ, zero, suc, ◌<◌, false, List, [], ◌∷◌, ◌==◌, nat_eq, length, arith,
}
use libklio.Exec.{ok}
use libklio.Postgres.{Api, Members, clear_results, clear}

-- What libpq documents: PQgetResult takes the next of the results that are waiting, and returns NULL
-- where there is none; PQclear takes none.
pub record IsQueue {W : Type 0} (api : Api W) (waiting : ℕ → W → List ℕ) : Type 0 where
  pub takes :
      (c result : ℕ) (rest : List ℕ) (w : W)
      → waiting c w ≡ result ∷ rest
      → ((api.get_result c w).0 ≡ result)
        × ((result == 0) ≡ false)
        × (waiting c (api.get_result c w).1 ≡ rest)
  pub empty :
      (c : ℕ) (w : W)
      → waiting c w ≡ []
      → ((api.get_result c w).0 ≡ 0) × (waiting c (api.get_result c w).1 ≡ [])
  pub clears : (c result : ℕ) (w : W) → waiting c (api.clear result w) ≡ waiting c w

module _ {W : Type 0} (api : Api W) (waiting : ℕ → W → List ℕ) (spec : IsQueue api waiting) where
  -- clear_results ends where the fuel is above the number of waiting results: it returns, changes no
  -- member, and no result is waiting any more.
  pub clear_results-waiting :
      (fuel : ℕ) (results : List ℕ) (s : Members W)
      → waiting s.connection s.world ≡ results
      → length results < fuel
      → (w : W) × (clear_results api fuel s ≡ (ok tt, record s { world = w }))
        × (waiting s.connection w ≡ [])
  unfolding clear_results clear
  clear_results-waiting zero results s e h = absurd (ground arith)
  clear_results-waiting (suc fuel) [] s e h =
      let (null, still) = spec.empty s.connection s.world e in
      ((api.get_result s.connection s.world).1, rw null refl, still)
  clear_results-waiting (suc fuel) (result ∷ rest) s e h =
      let (got, some_result, later) = spec.takes s.connection result rest s.world e in
      let w1 = api.clear result (api.get_result s.connection s.world).1 in
      let (w, ends, none_left) =
        clear_results-waiting fuel rest (record s { world = w1 }) (rw spec.clears later)
          (ground arith) in
      (w, rw (got, some_result, some_result) ends, none_left)
