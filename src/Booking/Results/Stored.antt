-- ===== src/Booking/Results/Stored.antt =====
-- What `store_result` leaves, if it returns.
use awstest.Prelude.{
  ℕ, String, ◌≡◌, refl, subst, sym, ap, ◌∙◌, Bool, true, false, Option, none, some, [], ◌∷◌, if_pos,
  ◌==◌, if◌then◌else◌,
}
use awstest.Prelude.Int.{pos}
use awstest.Redis.Commands.{Command, doc, set, delete, incrby, expire, apply, answer, after, update}
use awstest.Redis.Program.{ret, Faults, run, serve, pipeline, queue}
use awstest.Redis.Spares.{value_of, Spares, run-Spares}
use awstest.Redis.Sends.{Sends, if-Sends}
use awstest.Redis.Returns.{Returns, any-Returns, bind-Returns, run-Returns}
use awstest.Redis.Simulation.{documented}
use awstest.Redis.Raising.{
  raised, has_error, first, try_command, or_value, command, ok, or_else, go_on, ◌>>=◌,
}
use awstest.Redis.Raising.Sending.{try_command-Sends, command-Sends, then-Sends, or_else-Sends}
use awstest.Booking.{
  BookingType, Key, result, queued, done, Verdict, Doc, verdict_doc, Member, Desk, DeskStore,
  on_desk, Settings, Key-discrete, Member-discrete,
}
use awstest.Booking.Results.{keep_counter, count_done, tidy, store_result}

module _ (settings : Settings) (ref : String) where
  abbrev Apart : Command Key Doc Member → Type 0
  Apart = Spares (result ref)

  keep_counter-Spares :
      (t : BookingType) (entity_id : ℕ) → Sends Apart (keep_counter settings t entity_id)
  unfolding keep_counter
  keep_counter-Spares t entity_id =
      if-Sends Apart (settings.counter_ttl == 0) (ok tt) _ tt
        (try_command-Sends Apart (expire (done t entity_id) settings.counter_ttl) tt)

  count_done-Spares :
      (t : Option BookingType) (entity_id : ℕ) → Sends Apart (count_done settings t entity_id)
  unfolding count_done
  count_done-Spares none entity_id = tt
  count_done-Spares (some t) entity_id = if-Sends Apart (entity_id == 0) (ok tt) _ tt (
      or_else-Sends Apart counts tt (
        then-Sends Apart (command incr) (λ _. keep_counter settings t entity_id)
          (command-Sends Apart incr (λ p. cc)) (λ _. keep_counter-Spares t entity_id)))
    where
      incr : Command Key Doc Member
      incr = incrby (done t entity_id) (pos 1)

      counts : Desk (Unit {0})
      counts = command incr >>= λ _. keep_counter settings t entity_id

  tidy-Spares :
      (t : Option BookingType) (entity_id : ℕ) → Sends Apart (tidy settings ref t entity_id)
  unfolding tidy
  tidy-Spares t entity_id =
      then-Sends Apart (try_command (delete (queued ref))) (λ _. count_done settings t entity_id)
        (try_command-Sends Apart (delete (queued ref)) (λ p. cc))
        (λ _. count_done-Spares t entity_id)

  -- What is in a try statement returns.
  abbrev Done : Option (Unit {0}) → Type 0
  Done o = o ≡ some tt

  or_else-Done : (m : Desk (Unit {0})) → Returns Done (or_else m tt)
  or_else-Done m =
      bind-Returns (λ _. Unit) Done m (λ o. ret (or_value tt o)) (any-Returns m)
        (λ o _. done_value o)
    where
      done_value : (o : Option (Unit {0})) → or_value tt o ≡ some tt
      done_value none = refl
      done_value (some u) = refl

  count_done-Done :
      (t : Option BookingType) (entity_id : ℕ) → Returns Done (count_done settings t entity_id)
  unfolding count_done
  count_done-Done none entity_id = refl
  count_done-Done (some t) entity_id = counted (entity_id == 0)
    where
      counts : Desk (Unit {0})
      counts =
          command (incrby (done t entity_id) (pos 1)) >>= λ _. keep_counter settings t entity_id

      counted : (b : Bool) → Returns Done (if b then ok tt else or_else counts tt)
      counted true = refl
      counted false = or_else-Done counts

  tidy-Done :
      (t : Option BookingType) (entity_id : ℕ) → Returns Done (tidy settings ref t entity_id)
  unfolding tidy try_command
  tidy-Done t entity_id =
      bind-Returns Done Done (or_else deletes tt) (go_on (λ _. count_done settings t entity_id))
        (or_else-Done deletes)
        (λ o e.
          subst (λ x. Returns Done (go_on (λ _. count_done settings t entity_id) x)) (sym e)
            (count_done-Done t entity_id))
    where
      deletes : Desk (Unit {0})
      deletes = command (delete (queued ref)) >>= λ _. ok tt

  module _ (v : Verdict) (t : Option BookingType) (entity_id : ℕ) where
    abbrev stores : Desk (Unit {0})
    stores = store_result settings ref v t entity_id

    abbrev after_set : DeskStore → DeskStore
    after_set s =
        (apply Key-discrete Member-discrete
          (set (result ref) (doc (verdict_doc v)) false (some settings.result_ttl)) s).1

    set_there : (s : DeskStore) → value_of (after_set s (result ref)) ≡ some (doc (verdict_doc v))
    unfolding apply after update
    set_there s = ap value_of (if_pos (Key-discrete (result ref) (result ref)) refl _ _)

    stays :
        (fs : Faults) (s : DeskStore)
        → value_of ((on_desk (tidy settings ref t entity_id) fs (after_set s)).db (result ref))
          ≡ some (doc (verdict_doc v))
    stays fs s =
        run-Spares Key-discrete Member-discrete (result ref) (tidy settings ref t entity_id) fs
          (after_set s) (tidy-Spares t entity_id)
        ∙ set_there s

    -- If it returns, the result is there.
    pub stored_run :
        (fs : Faults) (s : DeskStore)
        → (on_desk stores fs s).result ≡ some tt
        → value_of ((on_desk stores fs s).db (result ref)) ≡ some (doc (verdict_doc v))
    unfolding store_result command run serve pipeline queue raised has_error first apply answer
    stored_run [] s h = stays [] s
    stored_run (true ∷ fs) s h = cc
    stored_run (false ∷ fs) s h = stays fs s

    -- If no request fails, it returns.
    pub returns_run : (s : DeskStore) → (on_desk stores [] s).result ≡ some tt
    unfolding store_result command run serve pipeline queue raised has_error first apply answer
    returns_run s =
        run-Returns (documented Key-discrete Member-discrete) Done (tidy settings ref t entity_id)
          [] (after_set s) (tidy-Done t entity_id)
