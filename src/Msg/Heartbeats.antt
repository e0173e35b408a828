-- ===== src/Msg/Heartbeats.antt =====
-- When the store reports to the server.
use libklio.Prelude.{
  ◌⊎◌, ◌≡◌, refl, sym, subst, Bool-cases, inl, inr, Bool, true, false, List, [], ◌∷◌, arith,
}
use libklio.Prelude.Int.{pos, ltb_ℤ, ◌-ℤ◌}
use libklio.Exec.{ok}
use libklio.Time.{Timestamp}
use libklio.Msg.{Web, Members, Failure, Outcome, answered, failed, heartbeat, null_body}

Outcome-cases :
    {A : Type 0} (o : Outcome A) → ((a : A) × (o ≡ answered a)) ⊎ ((f : Failure) × (o ≡ failed f))
Outcome-cases (answered a) = inl (a, refl)
Outcome-cases (failed f) = inr (f, refl)

-- The heartbeats that the server was sent, the newest first: when, and whether it answered.
abbrev pub Log : Type 0
Log = List (Timestamp × Bool)

abbrev pub is_answer : {A : Type 0} → Outcome A → Bool
is_answer (answered a) = true
is_answer (failed f) = false

-- The last time at which the server answered, `base` where it never did.
abbrev pub last_answer : Timestamp → Log → Timestamp
last_answer base [] = base
last_answer base ((t, true) ∷ log) = t
last_answer base ((t, false) ∷ log) = last_answer base log

-- Each is sent more than half an hour after the last one before it that was answered.
abbrev pub Spaced : Timestamp → Log → Type 0
Spaced base [] = Unit
Spaced base ((t, answer) ∷ log) =
    (ltb_ℤ (pos 1800) (t -ℤ last_answer base log) ≡ true) × Spaced base log

same_time : (now : Timestamp) → ltb_ℤ (pos 1800) (now -ℤ now) ≡ false
unfolding ◌-ℤ◌
same_time now = ground arith

module _ {J W : Type 0} (web : Web J W) where
  abbrev recorded : Timestamp → Log → Outcome Unit × W → Outcome Unit × (Log × W)
  recorded now log (o, w) = (o, ((now, is_answer o) ∷ log, w))

  abbrev beside : {A : Type 0} → Log → Outcome A × W → Outcome A × (Log × W)
  beside log (o, w) = (o, (log, w))

  -- The same server at the time `now`, of which the log keeps every `post` that reaches it.
  abbrev pub recording : Timestamp → Web J (Log × W)
  recording now = record {
    device_url = web.device_url;
    sensor_url = web.sensor_url;
    post = λ url key body (log, w). recorded now log (web.post url key body w);
    fetch = λ url key (log, w). beside log (web.fetch url key w);
    remove = λ url key (log, w). beside log (web.remove url key w);
    readings = λ url id key unit (log, w). beside log (web.readings url id key unit w);
    last_reading = λ url id key unit (log, w). beside log (web.last_reading url id key unit w);
    member = web.member;
    as_string = web.as_string;
    elements = web.elements;
  }

  abbrev is_due : Timestamp → Members (Log × W) → Bool
  is_due now s = ltb_ℤ (pos 1800) (now -ℤ s.last_heartbeat)

  posted : Members (Log × W) → Outcome Unit
  posted s = (web.post (web.device_url s.url s.id) s.key null_body s.world.1).0

  -- What the store knows of the log, and the log itself.
  pub record IsKept (base : Timestamp) (s : Members (Log × W)) : Type 0 where
    pub known : s.last_heartbeat ≡ last_answer base s.world.0
    pub spaced : Spaced base s.world.0

  heartbeat-IsKept :
      (base now : Timestamp) (s : Members (Log × W))
      → IsKept base s
      → IsKept base (heartbeat (recording now) now s).1
  unfolding heartbeat posted
  heartbeat-IsKept base now s h = elim (Bool-cases (is_due now s)) [
    | inl due ↦
        let apart : ltb_ℤ (pos 1800) (now -ℤ last_answer base s.world.0) ≡ true =
          subst (λ t. ltb_ℤ (pos 1800) (now -ℤ t) ≡ true) h.known due in
        elim (Outcome-cases (posted s)) [
          | inl (a, fine) ↦ rw (due, fine) (record { known = refl; spaced = (apart, h.spaced) })
          | inr (f, lost) ↦ rw (due, lost) (record { known = h.known; spaced = (apart, h.spaced) })
        ]
    | inr early ↦ rw early h
  ]

  -- The calls of `heartbeat` at these times, whether they throw or not.
  unfoldable pub beats : List Timestamp → Members (Log × W) → Members (Log × W)
  unfolding heartbeat
  beats [] s = s
  beats (now ∷ rest) s = beats rest (heartbeat (recording now) now s).1

  beats-IsKept :
      (base : Timestamp) (times : List Timestamp) (s : Members (Log × W))
      → IsKept base s
      → IsKept base (beats times s)
  unfolding beats
  beats-IsKept base [] s h = h
  beats-IsKept base (now ∷ rest) s h = beats-IsKept base rest _ (heartbeat-IsKept base now s h)

  -- However often a store asks for a heartbeat, and whichever requests fail: every request that is sent
  -- is sent more than 1800 seconds after the last one before it that was answered, where the first ones
  -- count from the time that the store begins with.
  pub beats-Spaced :
      (times : List Timestamp) (s : Members (Log × W))
      → s.world.0 ≡ []
      → Spaced s.last_heartbeat (beats times s).world.0
  beats-Spaced times s fresh =
      (beats-IsKept s.last_heartbeat times s (record {
        known = rw fresh refl;
        spaced = subst (Spaced s.last_heartbeat) (sym fresh) tt;
      })).spaced

  -- After any calls, and one more that returns: of the requests that were sent, the last one that was
  -- answered is at most 1800 seconds old, or none was answered and what the store begins with is.
  pub heartbeat-recent :
      (times : List Timestamp) (now : Timestamp) (s : Members (Log × W))
      → s.world.0 ≡ []
      → (heartbeat (recording now) now (beats times s)).0 ≡ ok tt
      → ltb_ℤ (pos 1800) (
          now
          -ℤ last_answer s.last_heartbeat (heartbeat (recording now) now (beats times s)).1.world.0)
        ≡ false
  unfolding heartbeat posted
  heartbeat-recent times now s fresh e =
      let s' = beats times s in
      let h = beats-IsKept s.last_heartbeat times s (record {
        known = rw fresh refl;
        spaced = subst (Spaced s.last_heartbeat) (sym fresh) tt;
      }) in
      elim (Bool-cases (is_due now s')) [
        | inl due ↦ elim (Outcome-cases (posted s')) [
          | inl (a, fine) ↦ rw (due, fine) (same_time now)
          | inr (f, lost) ↦ absurd (ground (arith, e, due, lost))
        ]
        | inr early ↦ rw early (subst (λ t. ltb_ℤ (pos 1800) (now -ℤ t) ≡ false) h.known early)
      ]
