-- ===== src/Transaction/Replies.antt =====
-- What a Redis transaction takes for a failure.
use libklio.Prelude.{
  String, ◌≡◌, ◌≢◌, refl, true, false, List, [], ◌∷◌, ◌++◌, arith, ==_iff, string_eq, nat_eq,
}
use libklio.Prelude.Int.{pos, int_eq}
use libklio.Exec.{Result, ok}
use libklio.Transaction.{Transaction, Element, all_accepted, redis_commit}

refused :
    (before after : List Element) (reply : Element)
    → reply.integer ≡ pos 0
    → reply.str ≢ "OK"
    → all_accepted (before ++ reply ∷ after) ≡ false
unfolding all_accepted
refused [] after reply zero text =
    ground (arith, ==_iff reply.integer (pos 0), ==_iff reply.str "OK")
refused (x ∷ before) after reply zero text = ground (arith, refused before after reply zero text)

-- A commit of a pending transaction whose replies hold the integer 0, which Redis gives for a DEL, HDEL, SREM or SADD without
-- an effect, returns, but leaves the transaction pending for the handler.
pub redis_commit-refused :
    {D : Type 0} (request : String → D → Result (List Element) × D) (s : Transaction D) (d : D)
    (before after : List Element) (reply : Element)
    → s.connected ≡ true
    → s.pending ≡ true
    → reply.integer ≡ pos 0
    → reply.str ≢ "OK"
    → request "EXEC" s.db ≡ (ok (before ++ reply ∷ after), d)
    → redis_commit request s ≡ (ok tt, record s { db = d })
unfolding redis_commit
redis_commit-refused request s d before after reply c p zero text e =
    rw (c, p, e, refused before after reply zero text) refl
