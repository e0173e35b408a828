-- ===== src/Tests/Postgres.antt =====
-- A connection with two waiting results, and an instance for the loop that clears them.
use libklio.Prelude.{◌≡◌, refl, ℕ, ◌+◌, false, true, ◌==◌, nat_eq, List, [], ◌∷◌, arith}
use libklio.Prelude.Int.{pos}
use libklio.Exec.{ok}
use libklio.Postgres.{Api, Members, command_ok, create_postgresql, clear_results}
use libklio.Postgres.Results.{IsQueue, clear_results-waiting}

-- The results that are waiting, each one less than its pointer.
abbrev Waiting : Type 0
Waiting = List ℕ

abbrev next : Waiting → ℕ × Waiting
next [] = (0, [])
next (result ∷ rest) = (result + 1, rest)

abbrev pointers : Waiting → List ℕ
pointers [] = []
pointers (result ∷ rest) = (result + 1) ∷ pointers rest

abbrev connection : Api Waiting
connection = record {
  connectdb = λ info w. (1, w);
  is_connected = λ c w. true;
  finish = λ c w. w;
  exec = λ c text w. (1, w);
  prepare = λ c name text n w. (1, w);
  exec_prepared = λ c name params w. (1, w);
  send_query_prepared = λ c name params w. (pos 1, w);
  put_copy_data = λ c text w. (pos 1, w);
  put_copy_end = λ c w. (pos 1, w);
  get_result = λ c w. next w;
  result_status = λ r w. command_ok;
  clear = λ r w. w;
  ntuples = λ r w. 0;
  getvalue = λ r row col w. "";
  atol = λ text. pos 0;
  atof = λ text. 0;
  time_to_string = λ t. "0";
  double_to_string = λ v. "0";
  stream_double = λ v. "0";
  expired = λ text w. text;
}

abbrev waiting : ℕ → Waiting → List ℕ
waiting c w = pointers w

takes :
    (c result : ℕ) (rest w : List ℕ)
    → waiting c w ≡ result ∷ rest
    → ((connection.get_result c w).0 ≡ result)
      × ((result == 0) ≡ false)
      × (waiting c (connection.get_result c w).1 ≡ rest)
takes c result rest [] e = absurd (ground (arith, e))
takes c result rest (n ∷ w) e = (ground (arith, e), ground (arith, e), ground (arith, e))

empty :
    (c : ℕ) (w : List ℕ)
    → waiting c w ≡ []
    → ((connection.get_result c w).0 ≡ 0) × (waiting c (connection.get_result c w).1 ≡ [])
empty c [] e = (refl, refl)
empty c (n ∷ w) e = absurd (ground (arith, e))

connection-IsQueue : IsQueue connection waiting
connection-IsQueue = record { takes = takes; empty = empty; clears = λ c result w. refl }

abbrev members : Members Waiting
members = create_postgresql "dbname=kliostore" false (4 ∷ 7 ∷ [])

clear_results-waiting_example :
    (w : Waiting) × (clear_results connection 3 members ≡ (ok tt, record members { world = w }))
    × (pointers w ≡ [])
clear_results-waiting_example =
    clear_results-waiting connection waiting connection-IsQueue 3 (5 ∷ 8 ∷ []) members refl
      (ground arith)
