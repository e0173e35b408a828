-- ===== src/Msg.antt =====
-- libklio/msg/msg-store.hpp and msg-store.cpp: a store on the server of mySmartGrid. The web client of
-- libmysmartgrid and the values of its JSON replies are parameters.
pub mod Uuid
pub mod Records
pub mod Heartbeats
use libklio.Prelude.{ℕ, Bool, true, false, Option, none, some, String, List, [], ◌∷◌, if◌then◌else◌}
use libklio.Prelude.Int.{ℤ, pos, ltb_ℤ, ◌-ℤ◌}
use libklio.Exec.{
  Exec, Error, Result, ok, err, pure, throw, generic_exception, communication_exception,
  data_format_exception, environment_exception, memory_exception,
}
use libklio.Time.{Timestamp, Double, Reading}

-- The exceptions of libmsg, and any other exception of the C++ library or of klio.
pub data Failure : Type 0 where
  memory environment data_format communication generic standard : Failure

pub data Outcome (A : Type 0) : Type 0 where
  answered : A → Outcome A
  failed : Failure → Outcome A

-- The value that is posted: an object of texts, an object "config" of texts, an object "measurements"
-- of pairs, or null.
pub data Body : Type 0 where
  object config : List (String × String) → Body
  measurements : List (ℤ × Double) → Body
  null_body : Body

-- libmsg::Webclient; `J` is Json::Value.
pub record Web (J W : Type 0) : Type 0 where
  pub device_url : String → String → String
  pub sensor_url : String → String → String
  pub post : String → String → Body → W → Outcome (Unit {0}) × W
  pub fetch : String → String → W → Outcome J × W
  pub remove : String → String → W → Outcome (Unit {0}) × W
  pub readings : String → String → String → String → W → Outcome (List (ℤ × Double)) × W
  pub last_reading : String → String → String → String → W → Outcome Reading × W
  pub member : J → String → J
  pub as_string : J → Outcome String
  pub elements : J → List J

pub record Members (W : Type 0) : Type 0 where
  pub url : String
  pub id : String
  pub key : String
  pub description : String
  pub type : String
  pub last_heartbeat : Timestamp
  pub world : W

-- The constructor; it makes its `Store` of (true, true, 600, 1, 1000).
abbrev pub create_msg : {W : Type 0} → String → String → String → String → String → W → Members W
create_msg url id key description type world = record {
  url = url;
  id = id;
  key = key;
  description = description;
  type = type;
  last_heartbeat = pos 0;
  world = world;
}

-- A part of a `try` block.
abbrev pub Attempt : Type 0 → Type 0 → Type 0
Attempt S A = S → Outcome A × S

module _ {S A B : Type 0} where
  abbrev pub after_outcome : Outcome A × S → (A → Attempt S B) → Outcome B × S
  after_outcome (answered a, s) next = next a s
  after_outcome (failed f, s) next = (failed f, s)

  abbrev pub and_then : Attempt S A → (A → Attempt S B) → Attempt S B
  and_then first next s = after_outcome (first s) next

module _ {S A : Type 0} where
  abbrev pub answer : A → Attempt S A
  answer a s = (answered a, s)

-- The handlers that most functions have.
abbrev pub translate : Failure → Error
translate memory = memory_exception
translate environment = environment_exception
translate data_format = data_format_exception
translate communication = communication_exception
translate generic = generic_exception
translate standard = environment_exception

module _ {S A : Type 0} where
  abbrev pub with_handlers : (Failure → Exec S A) → Outcome A × S → Result A × S
  with_handlers handler (answered a, s) = (ok a, s)
  with_handlers handler (failed f, s) = handler f s

  -- try { body } catch (…) { throw the exception of klio of the same name }
  abbrev pub in_try : Attempt S A → Exec S A
  in_try body s = with_handlers (λ f. throw (translate f)) (body s)

  -- try { body } catch (std::exception const& e) { throw EnvironmentException }; the exceptions of libmsg
  -- are derived from std::exception.
  abbrev pub in_plain_try : Attempt S A → Exec S A
  in_plain_try body s = with_handlers (λ f. throw environment_exception) (body s)

module _ {J W : Type 0} (web : Web J W) where
  abbrev pub call : {A : Type 0} → (Members W → W → Outcome A × W) → Attempt (Members W) A
  call f s = let (r, w) = f s s.world in (r, record s { world = w })

  abbrev pub post_device : Body → Attempt (Members W) Unit
  post_device body = call λ s. web.post (web.device_url s.url s.id) s.key body

  abbrev pub fetch_device : Attempt (Members W) J
  fetch_device = call λ s. web.fetch (web.device_url s.url s.id) s.key

  abbrev set_heartbeat : Timestamp → Attempt (Members W) Unit
  set_heartbeat now s = (answered tt, record s { last_heartbeat = now })

  -- heartbeat; `now` is what the clock shows
  unfoldable pub heartbeat : Timestamp → Exec (Members W) Unit
  heartbeat now s =
      (if ltb_ℤ (pos 1800) (now -ℤ s.last_heartbeat)
          then in_try (and_then (post_device null_body) λ a. set_heartbeat now)
          else pure tt)
        s

  unfoldable pub check_integrity : Timestamp → Exec (Members W) Unit
  unfolding heartbeat
  check_integrity now = heartbeat now

  unfoldable pub initialize : Exec (Members W) Unit
  initialize = in_try λ s.
      post_device (object (("key", s.key) ∷ ("description", s.description) ∷ ("type", s.type) ∷ []))
        s
