-- ===== src/Tests/Msg.antt =====
-- A server that answers every request but the second, and instances for the store of mySmartGrid.
use libklio.Prelude.{
  ◌≡◌, refl, ℕ, suc, true, false, ◌==◌, nat_eq, List, [], ◌∷◌, String, if◌then◌else◌,
}
use libklio.Prelude.Int.{pos, ltb_ℤ, ◌-ℤ◌}
use libklio.Time.{Timestamp}
use libklio.Msg.{Web, Members, answered, failed, communication, create_msg, heartbeat}
use libklio.Msg.Heartbeats.{
  Log, last_answer, Spaced, recording, beats, beats-Spaced, heartbeat-recent,
}

-- `world` counts the requests.
abbrev server : Web String ℕ
server = record {
  device_url = λ url id. url;
  sensor_url = λ url id. url;
  post = λ url key body n. (if n == 1 then failed communication else answered tt, suc n);
  fetch = λ url key n. (answered "", suc n);
  remove = λ url key n. (answered tt, suc n);
  readings = λ url id key unit n. (answered [], suc n);
  last_reading = λ url id key unit n. (answered (pos 0, 0), suc n);
  member = λ j name. j;
  as_string = λ j. answered j;
  elements = λ j. [];
}

abbrev times : List Timestamp
times = pos 5000 ∷ pos 6000 ∷ pos 7000 ∷ pos 7010 ∷ []

abbrev start : Members (Log × ℕ)
start = create_msg "https://api" "1" "2" "" "" ([], 0)

-- The second request is lost, so the third is sent ten seconds after it.
beats_test :
    (beats server times start).world.0
    ≡ (pos 7010, true) ∷ (pos 7000, false) ∷ (pos 5000, true) ∷ []
unfolding beats heartbeat ◌-ℤ◌
beats_test = refl

beats-Spaced_example : Spaced (pos 0) (beats server times start).world.0
beats-Spaced_example = beats-Spaced server times start refl

heartbeat-recent_example :
    ltb_ℤ (pos 1800) (
      pos 8000
      -ℤ last_answer
          (pos 0)
          (heartbeat (recording server (pos 8000)) (pos 8000) (beats server times start)).1.world.0)
    ≡ false
unfolding beats heartbeat ◌-ℤ◌
heartbeat-recent_example = heartbeat-recent server times (pos 8000) start refl refl
