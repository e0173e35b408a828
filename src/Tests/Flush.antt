-- ===== src/Tests/Flush.antt =====
-- Instances for Store/Flush and Store/Transactions.
use libklio.Prelude.{refl, true, [], ◌∷◌, arith, nat_eq}
use libklio.Prelude.Int.{pos}
use libklio.Time.{Readings, timestamp_less}
use libklio.Store.Reliable.{take_new, put_all, rounded}
use libklio.Store.View.{Invisible}
use libklio.Store.Flush.{flush_sensor, auto_flush, write_inserts}
use libklio.Store.Flush.Flushed.{Flushed, flush_sensor-Flushed}
use libklio.Store.Flush.Unseen.{auto_flush-Invisible}
use libklio.Store.Flush.Writes.{Wrote, write_inserts-Wrote}
use libklio.Tests.Memory.{kitchen}
use libklio.Tests.Shelves.{
  records, model, reliable, transactional, opened, small, small-IsReady, small-IsWellFormed,
}

abbrev three : Readings
three = (pos 1, 4) ∷ (pos 2, 5) ∷ (pos 3, 6) ∷ []

flush_sensor-Flushed_example :
    Flushed model take_new small kitchen (flush_sensor records kitchen true small)
flush_sensor-Flushed_example =
    flush_sensor-Flushed records model take_new true reliable kitchen small small-IsReady

auto_flush-Invisible_example : Invisible model take_new small (auto_flush records (pos 700) small)
auto_flush-Invisible_example =
    auto_flush-Invisible records model take_new transactional reliable (pos 700) small
      small-IsWellFormed refl

-- Three readings do not fit into one bulk of two.
write_inserts-Wrote_example :
    Wrote model small 7
      (put_all take_new (rounded model.round three) (model.stored opened 7))
      (write_inserts records kitchen true three small)
unfolding timestamp_less
write_inserts-Wrote_example =
    write_inserts-Wrote records model take_new true reliable kitchen three small (refl, (refl, tt))
      (omega arith) small-IsReady.accepted
