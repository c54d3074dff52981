-- ===== src/Worker/Concert/Codes.antt =====
-- The draw of a booking code, if no statement fails: whatever codes are taken, it gives some code.
use awstest.Prelude.{
  ℕ, String, ◌≡◌, refl, ◌⊎◌, inl, inr, Bool, true, false, List, [], ◌∷◌, map, if◌then◌else◌,
}
use awstest.Booking.{DeskServer}
use awstest.SeatHold.Views.{Server}
use awstest.Worker.Concert.Tables.{
  ConcertBooking, ConcertTables, duplicate_key, ok, raise, set_code, with_bookings,
  update_concert_code,
}
use awstest.Worker.Concert.Job.{World, Task, pure, throw, ◌>>◌, catch, write}
use awstest.Worker.Concert.{is_integrity, choose_code}
use awstest.Worker.Concert.Triples.{line_of}
use awstest.Worker.Concert.Frames.{lines-set_code}
use awstest.Worker.Concert.Calm.{
  CalmAt, Gives, Fails, next-Gives, next-Fails, catch-Fails, catch-Gives, write-Calm, write-Fails,
}

module _ (r : DeskServer) (c : Server) (F : r.Db → Type 0) (t : ConcertTables)
    (S : ConcertTables → Type 0)
    (kept : (x : ConcertTables) (bs : List ConcertBooking)
      → map line_of bs ≡ map line_of x.bookings
      → S x
      → S (with_bookings bs x)) where
  abbrev Here : World r.Db c.Db → Type 0
  Here = CalmAt t S F

  code_update :
      (b : ℕ) (code : String) (w : World r.Db c.Db)
      → Here w
      → Gives tt Here (write (update_concert_code b code) w)
        ⊎ Fails duplicate_key Here (write (update_concert_code b code) w)
  unfolding update_concert_code
  code_update b code w p = tested _ refl
    where
      bs : List ConcertBooking
      bs = map (set_code b code) w.tables.bookings

      tested :
          (x : Bool)
          → update_concert_code b code w.tables
            ≡ (if x then raise duplicate_key else ok (with_bookings bs w.tables))
          → Gives tt Here (write (update_concert_code b code) w)
            ⊎ Fails duplicate_key Here (write (update_concert_code b code) w)
      tested true e = inr (write-Fails t S w p (update_concert_code b code) duplicate_key e)
      tested false e = inl (
          write-Calm t S w p S (update_concert_code b code) (with_bookings bs w.tables) e
            (kept w.tables bs (lines-set_code b code w.tables.bookings) p.seen))

  pub choose_code-Calm :
      (b : ℕ) (codes : List String) (w : World r.Db c.Db)
      → Here w
      → (code : String) × Gives code Here (choose_code b codes w)
  unfolding choose_code
  choose_code-Calm b [] w p = ("", (w, refl, p))
  choose_code-Calm b (code ∷ codes) w p = chosen (code_update b code w p) (choose_code-Calm b codes)
    where
      tries : Task r.Db c.Db String
      tries = write (update_concert_code b code) >> pure code

      chosen :
          Gives tt Here (write (update_concert_code b code) w)
            ⊎ Fails duplicate_key Here (write (update_concert_code b code) w)
          → ((v : World r.Db c.Db) → Here v → (x : String) × Gives x Here (choose_code b codes v))
          → (x : String) × Gives x Here
              (catch tries (λ e. if is_integrity e then choose_code b codes else throw e) w)
      chosen (inl g) more = (
        code,
        catch-Gives Here code tries _ w (
            next-Gives (Gives code Here) Here tt (write (update_concert_code b code)) w g
              (pure code) (λ v i. (v, refl, i))),
      )
      chosen (inr f) more =
          catch-Fails (λ x. (y : String) × Gives y Here x) Here duplicate_key tries _ w
            (next-Fails Here duplicate_key (write (update_concert_code b code)) w f (pure code))
            more
