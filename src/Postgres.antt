-- ===== src/Postgres.antt =====
-- libklio/postgresql/postgresql-store.hpp and postgresql-store.cpp: the members of the store, and how
-- statements are executed. libpq is a parameter.
pub mod Lifetime
pub mod Records
pub mod Backend
pub mod Results
use libklio.Prelude.{
  ℕ, zero, suc, Bool, true, false, not, Option, none, some, String, List, [], ◌∷◌, ◌==◌, nat_eq,
  if◌then◌else◌,
}
use libklio.Prelude.Int.{ℤ, pos, ltb_ℤ}
use libklio.Exec.{
  Exec, Result, ok, err, pure, throw, modify, ◌>>=◌, ◌>>◌, store_exception, environment_exception,
  std_exception, undefined_behaviour, out_of_fuel,
}
use libklio.HashMap
use libklio.HashMap.{HashMap}
use libklio.Time.{Timestamp, Double}
use libklio.Transaction.{Transaction, Statement}

-- ExecStatusType, of which the store names these.
pub data Status : Type 0 where
  command_ok tuples_ok copy_in other_status : Status

abbrev pub same_status : Status → Status → Bool
same_status command_ok command_ok = true
same_status tuples_ok tuples_ok = true
same_status copy_in copy_in = true
same_status a b = false

-- libpq on what lies outside the program. A connection and a result are pointers, 0 is NULL. `expired`
-- is the text that a pointer into a string leads to after the string was destroyed, of which C++ says
-- nothing.
pub record Api (W : Type 0) : Type 0 where
  pub connectdb : String → W → ℕ × W
  pub is_connected : ℕ → W → Bool
  pub finish : ℕ → W → W
  pub exec : ℕ → String → W → ℕ × W
  pub prepare : ℕ → String → String → ℕ → W → ℕ × W
  pub exec_prepared : ℕ → String → List String → W → ℕ × W
  pub send_query_prepared : ℕ → String → List String → W → ℤ × W
  pub put_copy_data : ℕ → String → W → ℤ × W
  pub put_copy_end : ℕ → W → ℤ × W
  pub get_result : ℕ → W → ℕ × W
  pub result_status : ℕ → W → Status
  pub clear : ℕ → W → W
  pub ntuples : ℕ → W → ℕ
  pub getvalue : ℕ → ℕ → ℕ → W → String
  pub atol : String → ℤ
  pub atof : String → Double
  pub time_to_string : Timestamp → String
  pub double_to_string : Double → String
  pub stream_double : Double → String
  pub expired : String → W → String

-- A PostgreSQLTransaction: `_connection` and `_pending`.
pub record Handler : Type 0 where
  pub connection : ℕ
  pub pending : Bool

-- The members of the class. `transactions` are the handlers that were made, by their place; `world`
-- is what lies outside the program.
pub record Members (W : Type 0) : Type 0 where
  pub info : String
  pub synchronous : Bool
  pub connection : ℕ
  pub transaction : Option ℕ
  pub transactions : HashMap ℕ Handler
  pub next_transaction : ℕ
  pub world : W

-- The constructor.
abbrev pub create_postgresql : {W : Type 0} → String → Bool → W → Members W
create_postgresql info synchronous world = record {
  info = info;
  synchronous = synchronous;
  connection = 0;
  transaction = none;
  transactions = [];
  next_transaction = 0;
  world = world;
}

module _ {W : Type 0} where
  abbrev pub call : {A : Type 0} → (Members W → W → A × W) → Exec (Members W) A
  call f s = let (a, w) = f s s.world in (ok a, record s { world = w })

  -- check(result) of a code
  unfoldable pub check_code : ℤ → Exec (Members W) Unit
  check_code result = if ltb_ℤ result (pos 0) then throw store_exception else pure tt

module _ {W : Type 0} (api : Api W) where
  -- clear
  unfoldable pub clear : ℕ → Members W → Members W
  clear result s = if result == 0 then s else record s { world = api.clear result s.world }

  -- check(result, expected_status): a result of another status is cleared.
  unfoldable pub check : ℕ → Status → Exec (Members W) Unit
  unfolding clear
  check result expected_status s =
      if result == 0
      then (err environment_exception, s)
      else if same_status (api.result_status result s.world) expected_status
      then (ok tt, s)
      else (err store_exception, clear result s)

  -- The `try` blocks of `execute(statement)` and `prepare_statement`: after an exception of `check` the
  -- handler clears the result again, which has no meaning if it was cleared, and `throw e` makes a
  -- std::exception of a copy.
  abbrev checked_twice : ℕ → Result (Unit {0}) × Members W → Result (Unit {0}) × Members W
  checked_twice result (ok a, s) = (ok tt, clear result s)
  checked_twice result (err e, s) =
      if result == 0 then (err std_exception, s) else (err undefined_behaviour, s)

  abbrev check_and_clear : Status → ℕ → Exec (Members W) Unit
  check_and_clear expected_status result s = checked_twice result (check result expected_status s)

  -- execute(statement)
  unfoldable pub execute_statement : String → Exec (Members W) Unit
  unfolding check clear
  execute_statement statement = do
    result ← call λ s. api.exec s.connection statement
    check_and_clear command_ok result

  unfoldable pub prepare_statement : String → String → ℕ → Exec (Members W) Unit
  unfolding check clear
  prepare_statement statement_name statement num_params = do
    result ← call λ s. api.prepare s.connection statement_name statement num_params
    check_and_clear command_ok result

  -- execute(statement_name, params, num_params, expected_status)
  unfoldable pub execute_prepared : String → List String → Status → Exec (Members W) ℕ
  unfolding check
  execute_prepared statement_name params expected_status = do
    result ← call λ s. api.exec_prepared s.connection statement_name params
    check result expected_status
    pure result

  -- Where the result was not assigned before the exception, the handler clears NULL; `throw e` makes a
  -- std::exception of a copy.
  abbrev pub with_result :
      {A : Type 0} → (ℕ → Exec (Members W) A) → Result ℕ × Members W → Result A × Members W
  with_result next (ok result, s) = next result s
  with_result next (err e, s) = (err std_exception, s)

  -- execute(statement_name, params, num_params)
  unfoldable pub execute : String → List String → Exec (Members W) Unit
  unfolding execute_prepared check_code clear
  execute statement_name params s =
      (if s.synchronous
          then (λ s'.
              with_result (λ result. modify (clear result))
                (execute_prepared statement_name params command_ok s'))
          else (do
            code ← call λ s'. api.send_query_prepared s'.connection statement_name params
            check_code code))
        s

  abbrev got : ℕ × W → Exec (Members W) ℕ
  got (result, w) s = (ok result, record s { world = w })

  -- clear_results: the results that are waiting are taken and cleared, of which there are at most `fuel`.
  unfoldable pub clear_results : ℕ → Exec (Members W) Unit
  unfolding clear
  clear_results zero = throw out_of_fuel
  clear_results (suc fuel) = do
    result ← call λ s. api.get_result s.connection
    if result == 0 then pure tt else (do modify (clear result); clear_results fuel)

  -- The statement that a handler sends.
  abbrev pub execute_on : ℕ → Statement W
  execute_on connection command w =
      let (result, w1) = api.exec connection command w in
      (ok (same_status (api.result_status result w1) command_ok), api.clear result w1)
