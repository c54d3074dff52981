-- ===== src/Booking/Examples.antt =====
-- The theorems on bookings, at a reference with an OK result.
use awstest.Prelude.{
  String, ◌≡◌, refl, true, false, Bool, none, some, [], ◌∷◌, str_eq, if◌then◌else◌,
}
use awstest.Prelude.Int.{pos}
use awstest.Redis.Commands.{doc}
use awstest.Redis.Program.{run}
use awstest.Redis.Simulation.{documented}
use awstest.Redis.Spares.{value_of}
use awstest.Booking.{
  concert, result, Verdict, booked, failed, Booked, verdict_doc, DeskStore, DeskServer, Settings,
  Key-discrete, Member-discrete,
}
use awstest.Booking.Results.{store_result, store_failure_result}
use awstest.Booking.Results.Keeping.{store_failure-keeps_ok, store_failure-overwrites}
use awstest.Booking.Results.Stored.{returns_run}
use awstest.Booking.Queue.{get_booking_status, final}
use awstest.Booking.Contract.{status-store_result}

abbrev server : DeskServer
server = documented Key-discrete Member-discrete

abbrev settings : Settings
settings = record { result_ttl = 86400; queued_ttl = 3600; counter_ttl = 3600 }

abbrev sold : Booked
sold = record {
  booking_id = 4;
  booking_code = "CAB123456";
  payment_id = 9;
  remain_count_after = pos 3;
}

abbrev duplicate : Verdict
duplicate = failed "DUPLICATE_SEAT" ""

-- Reference "r1" has been booked.
abbrev desk : DeskStore
desk (result ref) =
    if str_eq ref "r1"
    then some (record { value = doc (verdict_doc (booked sold)); ttl = none })
    else none
desk k = none

store_failure-keeps_ok_example :
    (run server
      (store_failure_result settings "r1" duplicate (some concert) 1)
      (false ∷ true ∷ [])
      desk).db
    ≡ desk
store_failure-keeps_ok_example =
    store_failure-keeps_ok settings "r1" duplicate (some concert) 1 server desk sold
      (false ∷ true ∷ []) refl refl

store_failure-overwrites_example :
    value_of (
      (run server
          (store_failure_result settings "r1" duplicate (some concert) 1)
          (true ∷ [])
          desk).db
        (result "r1"))
    ≡ some (doc (verdict_doc duplicate))
store_failure-overwrites_example =
    store_failure-overwrites settings "r1" duplicate (some concert) 1 server desk

abbrev valid : String → Bool
valid s = str_eq s "r2"

status-store_result_example :
    (run server
      (get_booking_status valid none "r2")
      []
      (run server (store_result settings "r2" (booked sold) (some concert) 1) [] desk).db).result
    ≡ some (final (booked sold))
status-store_result_example =
    status-store_result valid none "r2" (booked sold) server settings (some concert) 1 [] desk refl
      (returns_run settings "r2" (booked sold) (some concert) 1 desk)
