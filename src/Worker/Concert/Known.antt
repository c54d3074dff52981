-- ===== src/Worker/Concert/Known.antt =====
-- The result that a redelivered message finds: `known_ok`, if no request to the booking database fails.
use awstest.Prelude.{
  String, ◌≡◌, refl, ap, ◌∙◌, ◌⊎◌, inl, inr, Bool, true, false, Option, none, some, [], ◌∷◌,
}
use awstest.Redis.Commands.{Entry, Value, num, doc, set_of, get, apply, answer}
use awstest.Redis.Program.{run, serve, pipeline, queue}
use awstest.Redis.Simulation.{look-run}
use awstest.Redis.Spares.{value_of, apply-get}
use awstest.Redis.Raising.{command, raised, has_error, first, go_on, ok as give}
use awstest.Booking.{
  result, Booked, booked, failed, Doc, verdict_doc, queued_doc, garbage, Member, DeskServer,
  DeskStore, Desk, on_desk as on_store, Key-discrete, Member-discrete,
}
use awstest.Booking.Results.{is_ok}
use awstest.SeatHold.Views.{Server}
use awstest.Worker.Concert.Tables.{ConcertTables, exception}
use awstest.Worker.Concert.Job.{World, pure, ◌>>=◌, ◌>>◌, on_desk}
use awstest.Worker.Concert.Effects.{Request, Env, Here}
use awstest.Worker.Concert.Recovery.{has_ok_result, known_ok}
use awstest.Worker.Concert.Calm.{
  CalmAt, Gives, bind-Gives, bind-Fails, next-Gives, catch-Gives, catch-Fails, on_desk-Calm,
  on_desk-Fails,
}
use awstest.Worker.Concert.Storing.{Shows}

module _ (ref : String) where
  abbrev OkAt : Option (Entry Doc Member) → Type 0
  OkAt e = (b : Booked) × (value_of e ≡ some (doc (verdict_doc (booked b))))

  abbrev ends_with : Option (Entry Doc Member) → DeskStore → Option Bool
  ends_with e s =
      (on_store
        (go_on (λ raw. give (is_ok raw))
          (first (raised (some (answer Key-discrete Member-discrete (get (result ref)) e ∷ [])))))
        [] s).result

  by_entry : (e : Option (Entry Doc Member)) (s : DeskStore) → ends_with e s ≡ some true → OkAt e
  unfolding run raised has_error first answer
  by_entry none s h = cc
  by_entry (some e) s h = by_value e.value h
    where
      by_value :
          (v : Value Doc Member)
          → ends_with (some (record { value = v; ttl = e.ttl })) s ≡ some true
          → OkAt (some (record { value = v; ttl = e.ttl }))
      by_value (num n) h = cc
      by_value (doc (verdict_doc (booked b))) h = (b, refl)
      by_value (doc (verdict_doc (failed code message))) h = cc
      by_value (doc (queued_doc x)) h = cc
      by_value (doc garbage) h = cc
      by_value (set_of ms) h = cc

  ok_there :
      (s : DeskStore)
      → (on_store (has_ok_result ref) [] s).result ≡ some true
      → OkAt (s (result ref))
  unfolding has_ok_result command run serve pipeline queue apply
  ok_there s h =
      by_entry (s (result ref)) (apply Key-discrete Member-discrete (get (result ref)) s).1 h

  reads_only : (s : DeskStore) → (on_store (has_ok_result ref) [] s).db ≡ s
  unfolding has_ok_result command run serve pipeline queue
  reads_only s =
      passed
        (first (raised (some ((apply Key-discrete Member-discrete (get (result ref)) s).0 ∷ [])))) _
      ∙ apply-get Key-discrete Member-discrete (result ref) s
    where
      passed :
          (o : Option _) (u : DeskStore)
          → (on_store (go_on (λ raw. give (is_ok raw)) o) [] u).db ≡ u
      passed none u = refl
      passed (some x) u = refl

module _ (r : DeskServer) (c : Server) (env : Env) (q : Request) {F : r.Db → Type 0}
    (t : ConcertTables) (S : ConcertTables → Type 0) (w : World r.Db c.Db) (p : CalmAt t S F w)
    (ends : Here r c (Unit {0}))
    (settles : (b : Booked) (v : World r.Db c.Db)
      → CalmAt t S (Shows r c env q b) v
      → Gives tt (CalmAt t S (Shows r c env q b)) (ends v)) where
  abbrev looks : Desk Bool
  looks = has_ok_result q.booking_ref

  -- The result is OK, and the rest is done, or it is not known to be.
  pub known-Calm :
      ((b : Booked) × Gives true (CalmAt t S (Shows r c env q b)) (known_ok r c env q ends w))
      ⊎ Gives false (CalmAt t S (λ d. Unit)) (known_ok r c env q ends w)
  unfolding known_ok
  known-Calm = by_answer (on_store looks [] (r.look w.desk)).result refl
    where
      goes_on : Bool → Here r c Bool
      goes_on kept = elim kept [ true ↦ ends >> pure true | false ↦ pure false ]

      by_answer :
          (o : Option Bool)
          → (on_store looks [] (r.look w.desk)).result ≡ o
          → ((b : Booked) × Gives true (CalmAt t S (Shows r c env q b)) (known_ok r c env q ends w))
            ⊎ Gives false (CalmAt t S (λ d. Unit)) (known_ok r c env q ends w)
      by_answer none e = inr (
          catch-Fails (Gives false (CalmAt t S (λ d. Unit))) (CalmAt t S (λ d. Unit)) exception
            (on_desk r c looks >>= goes_on) (λ e. pure false) w
            (bind-Fails (CalmAt t S (λ d. Unit)) exception (on_desk r c looks) w
              (on_desk-Fails r c t S w p looks e) goes_on)
            (λ v i. (v, refl, i)))
      by_answer (some false) e = inr (
          catch-Gives (CalmAt t S (λ d. Unit)) false (on_desk r c looks >>= goes_on)
            (λ e. pure false) w
            (bind-Gives (Gives false (CalmAt t S (λ d. Unit))) (CalmAt t S (λ d. Unit)) false
              (on_desk r c looks) w (on_desk-Calm r c t S w p (λ d. Unit) looks false e tt) goes_on
              (λ v i. (v, refl, i))))
      by_answer (some true) e =
          let there = ok_there q.booking_ref (r.look w.desk) e in
          let G = Shows r c env q there.0 in
          let after : G (run r looks w.desk_faults w.desk).db =
            ap (λ s. value_of (s (result q.booking_ref)))
              (ap (λ fs. r.look (run r looks fs w.desk).db) p.requests
                ∙ look-run r looks [] w.desk
                ∙ reads_only q.booking_ref (r.look w.desk))
            ∙ there.1 in
          inl (
            there.0,
            catch-Gives (CalmAt t S G) true (on_desk r c looks >>= goes_on) (λ e. pure false) w
                (bind-Gives (Gives true (CalmAt t S G)) (CalmAt t S G) true (on_desk r c looks) w
                  (on_desk-Calm r c t S w p G looks true e after) goes_on
                  (λ v i.
                    next-Gives (Gives true (CalmAt t S G)) (CalmAt t S G) tt ends v
                      (settles there.0 v i) (pure true) (λ u j. (u, refl, j)))),
          )
