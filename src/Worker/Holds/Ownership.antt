-- ===== src/Worker/Holds/Ownership.antt =====
-- The end of one hold leaves the seats of others alone, whatever requests fail.
use awstest.Prelude.{
  ℕ, String, ◌≡◌, ◌≢◌, ap, ◌∙◌, Bool, true, false, Bool-cases, inl, inr, Option, none, some, List,
  [], ◌∷◌, ◌++◌, All, All-append, map, ltb, ◌==◌, ◌&&◌, str_eq, if◌then◌else◌,
}
use awstest.Prelude.Int.{pos}
use awstest.Redis.Commands.{doc, get, delete, incrby}
use awstest.Redis.Program.{Faults, run}
use awstest.Redis.Program as Program
use awstest.Redis.Simulation.{look-run}
use awstest.Redis.Sends.{Sends, if-Sends, pipeline-Sends}
use awstest.Redis.Keeping.{Keeps, Spares-Keeps, bind-Keeps, gets-Keeps}
use awstest.Redis.Reading as Reading
use awstest.Redis.Raising.{ok, command, execute, attempt, try_command, or_else, go_on, ◌>>=◌}
use awstest.Redis.Raising.Sending.{command-Sends, then-Sends, or_else-Sends, try_command-Sends}
use awstest.Cache.{
  Key, seat, remain, hold_rev, hold_meta, snapshot, Seat, HoldMeta, text, Key-discrete,
  Member-discrete,
}
use awstest.Cache.Safe.{CacheCommand, CacheValue}
use awstest.Cache.Sends.{SparesKey}
use awstest.SeatHold.Views.{CacheStore, Server, owner}
use awstest.SeatHold.Counter.Sparing.{adjust_script-Spares}
use awstest.SeatHold.Hold.{holds}
use awstest.SeatHold.Hold.Releasing.{held_by_other}
use awstest.Worker.{Work}
use awstest.Worker.Holds.{
  seats_of, adjust, adjust_concert_remain, settle_seat, settle_commands, settled, settle,
  after_settling, finalize_seats, finalize_meta, meta_of, finalize_concert_hold_by_ref,
}

module _ (ref : String) (other_show : ℕ) (y : Seat) (v : CacheValue)
    (other : v ≢ doc (text ref)) where
  abbrev theirs : Key
  theirs = seat other_show y

  abbrev Apart : CacheCommand → Type 0
  Apart = SparesKey theirs

  abbrev KeepsTheirs : {A : Type 0} → Work A → Type 0
  KeepsTheirs m = Keeps Key-discrete Member-discrete theirs v m

  settle_seat-Spares :
      (show_id : ℕ) (restores : Bool) (x : Seat)
      → seat show_id x ≢ theirs
      → All Apart (settle_seat show_id restores x)
  settle_seat-Spares show_id true x h = (h, ((λ p. cc), tt))
  settle_seat-Spares show_id false x h = (h, (tt, ((λ p. cc), tt)))

  settle_commands-Spares :
      (show_id : ℕ) (restores : Bool) (s : CacheStore) (ss : List Seat)
      → owner s other_show y ≡ some v
      → All Apart
          (settle_commands show_id ref restores ss
            (map (Reading.read Key-discrete Member-discrete s) (map (seat show_id) ss))).0
  unfolding settle_commands
  settle_commands-Spares show_id restores s [] h = tt
  settle_commands-Spares show_id restores s (x ∷ ss) h =
      elim (Bool-cases (holds ref (Reading.read Key-discrete Member-discrete s (seat show_id x)))) [
        | inl e ↦ rw e (
            All-append Apart (settle_seat show_id restores x) _
              (settle_seat-Spares show_id restores x
                (held_by_other show_id ref theirs v other s x h e))
              (settle_commands-Spares show_id restores s ss h))
        | inr e ↦ rw e (settle_commands-Spares show_id restores s ss h)
      ]

  execute-Apart : (cs : List CacheCommand) → All Apart cs → Sends Apart (execute cs)
  unfolding execute
  execute-Apart cs h = (pipeline-Sends Apart cs h, λ r. tt)

  settled-Spares :
      (show_id : ℕ) (plan : List CacheCommand × ℕ)
      → All Apart plan.0
      → Sends Apart (settled show_id ref plan)
  unfolding settled
  settled-Spares show_id plan h =
      then-Sends Apart (execute (plan.0 ++ delete (hold_meta ref) ∷ []))
        (λ _. try_command (incrby (hold_rev show_id) (pos 1)) >>= λ _. ok plan.1)
        (execute-Apart _ (All-append Apart plan.0 _ h ((λ p. cc), tt)))
        (λ _.
          then-Sends Apart (try_command (incrby (hold_rev show_id) (pos 1))) (λ _. ok plan.1)
            (try_command-Sends Apart (incrby (hold_rev show_id) (pos 1)) (λ p. cc)) (λ _. tt))

  settle-Keeps :
      (show_id : ℕ) (restores : Bool) (ss : List Seat)
      → KeepsTheirs (settle show_id ref restores ss)
  unfolding settle
  settle-Keeps show_id restores ss =
      gets-Keeps Key-discrete Member-discrete (map (seat show_id) ss) theirs v
        (λ existing. settled show_id ref (settle_commands show_id ref restores ss existing))
        λ s h.
          Spares-Keeps Key-discrete Member-discrete theirs v _
            (settled-Spares show_id _ (settle_commands-Spares show_id restores s ss h))

  adjust-Spares : (show_id n : ℕ) → Sends Apart (adjust_concert_remain show_id (pos n))
  unfolding adjust_concert_remain adjust
  adjust-Spares show_id n = if-Sends Apart (show_id == 0) (ok tt) _ tt (
      if-Sends Apart (n == 0 && 0 == 0) (ok tt) _ tt
        (adjust_script-Spares theirs (remain show_id) (pos n) (λ p. cc), λ r. tt))

  after_settling-Keeps :
      (show_id : ℕ) (restores : Bool) (o : Option ℕ)
      → KeepsTheirs (after_settling show_id restores o)
  unfolding after_settling run
  after_settling-Keeps show_id restores none = λ fs s h. h
  after_settling-Keeps show_id restores (some n) =
      Spares-Keeps Key-discrete Member-discrete theirs v
        (try_command (delete (snapshot show_id)) >>= λ _. restoring >>= λ _. ok (some n))
        (then-Sends Apart (try_command (delete (snapshot show_id)))
          (λ _. restoring >>= λ _. ok (some n))
          (try_command-Sends Apart (delete (snapshot show_id)) (λ p. cc))
          (λ _. then-Sends Apart restoring (λ _. ok (some n)) restoring-Spares (λ _. tt)))
    where
      restoring : Work (Unit {0})
      restoring = if restores && ltb 0 n then adjust_concert_remain show_id (pos n) else ok tt

      restoring-Spares : Sends Apart restoring
      restoring-Spares = if-Sends Apart (restores && ltb 0 n) _ (ok tt) (adjust-Spares show_id n) tt

  none_left : Work (Option ℕ)
  none_left = ok (some 0)

  finalize_seats-Keeps :
      (show_id : ℕ) (restores : Bool) (ss : List Seat)
      → KeepsTheirs (finalize_seats show_id ref restores ss)
  unfolding finalize_seats run none_left
  finalize_seats-Keeps show_id restores [] =
      Spares-Keeps Key-discrete Member-discrete theirs v
        (try_command (delete (hold_meta ref)) >>= λ _. none_left)
        (then-Sends Apart (try_command (delete (hold_meta ref))) (λ _. none_left)
          (try_command-Sends Apart (delete (hold_meta ref)) (λ p. cc)) (λ _. tt))
  finalize_seats-Keeps show_id restores (x ∷ ss) =
      bind-Keeps Key-discrete Member-discrete theirs v
        (attempt (settle show_id ref restores (x ∷ ss))) (go_on (after_settling show_id restores))
        (bind-Keeps Key-discrete Member-discrete theirs v (settle show_id ref restores (x ∷ ss))
          (λ o. Program.ret (some o)) (settle-Keeps show_id restores (x ∷ ss)) (λ o fs s h. h))
        goes
    where
      goes : (o : Option (Option ℕ)) → KeepsTheirs (go_on (after_settling show_id restores) o)
      goes none = λ fs s h. h
      goes (some n) = after_settling-Keeps show_id restores n

  finalize_meta-Keeps :
      (restores : Bool) (m : Option HoldMeta) → KeepsTheirs (finalize_meta ref restores m)
  unfolding finalize_meta run
  finalize_meta-Keeps restores none = λ fs s h. h
  finalize_meta-Keeps restores (some m) = decided (m.show_id == 0)
    where
      decided :
          (b : Bool)
          → KeepsTheirs
              (if b then ok none else finalize_seats m.show_id ref restores (seats_of m.seats))
      decided true = λ fs s h. h
      decided false = finalize_seats-Keeps m.show_id restores (seats_of m.seats)

  finalize-Keeps : (restores : Bool) → KeepsTheirs (finalize_concert_hold_by_ref ref restores)
  unfolding finalize_concert_hold_by_ref run
  finalize-Keeps restores = decided (str_eq ref "")
    where
      found : Work (Option HoldMeta)
      found = or_else (command (get (hold_meta ref)) >>= λ raw. ok (meta_of raw)) none

      found-Spares : Sends Apart found
      found-Spares =
          or_else-Sends Apart (command (get (hold_meta ref)) >>= λ raw. ok (meta_of raw)) none (
            then-Sends Apart (command (get (hold_meta ref))) (λ raw. ok (meta_of raw))
              (command-Sends Apart (get (hold_meta ref)) tt) (λ _. tt))

      goes : (o : Option (Option HoldMeta)) → KeepsTheirs (go_on (finalize_meta ref restores) o)
      goes none = λ fs s h. h
      goes (some m) = finalize_meta-Keeps restores m

      decided :
          (b : Bool) → KeepsTheirs (if b then ok none else (found >>= finalize_meta ref restores))
      decided true = λ fs s h. h
      decided false =
          bind-Keeps Key-discrete Member-discrete theirs v found
            (go_on (finalize_meta ref restores))
            (Spares-Keeps Key-discrete Member-discrete theirs v found found-Spares) goes

  -- Whatever requests fail, a seat that is owned by anyone but the reference has the same owner after
  -- _finalize_concert_hold_by_ref, whether the booking has succeeded or failed.
  pub finalize-keeps_owner :
      (r : Server) (restores : Bool) (fs : Faults) (d : r.Db)
      → owner (r.look d) other_show y ≡ some v
      → owner (r.look (run r (finalize_concert_hold_by_ref ref restores) fs d).db) other_show y
        ≡ some v
  finalize-keeps_owner r restores fs d h =
      ap (λ s. owner s other_show y) (look-run r (finalize_concert_hold_by_ref ref restores) fs d)
      ∙ finalize-Keeps restores fs (r.look d) h
