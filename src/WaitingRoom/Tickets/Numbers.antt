-- ===== src/WaitingRoom/Tickets/Numbers.antt =====
-- The numbers that `enter` gives.
use awstest.Prelude.{
  ℕ, ◌+◌, String, ◌≡◌, ◌≢◌, ◌⊎◌, inl, inr, refl, ap, ◌∙◌, Bool, true, false, Option, none, some, [],
  ◌∷◌, arith, ◌==◌, ◌||◌, max, if◌then◌else◌,
}
use awstest.Prelude.Int.{ℤ, pos, ◌+ℤ◌}
use awstest.Redis.Commands.{
  Command, num, doc, integer, Entry, set, incrby, expire, apply, answer, after,
}
use awstest.Redis.Program.{Faults, run, serve, queue, pipeline}
use awstest.Redis.Pipeline.{apply_same}
use awstest.Redis.Returns.{Returns, any-Returns, bind-Returns, run-Returns}
use awstest.Redis.Sends.{Sends, if-Sends}
use awstest.Redis.Simulation.{documented, run_store, result-run, look-run}
use awstest.Redis.Spares.{value_of, Spares, run-Spares}
use awstest.Redis.Raising.{ok, command, go_on, first, raised, has_error, ◌>>=◌}
use awstest.Redis.Raising.Sending.{command-Sends, then-Sends, or_else-Sends}
use awstest.WaitingRoom.{
  Kind, Key, enq, rps, ticket, Doc, ticket_doc, Member, Ticket, Room, RoomValue, Settings, kind_of,
  Key-discrete, Member-discrete,
}
use awstest.WaitingRoom.Gate.Steps.{RoomStore}
use awstest.WaitingRoom.Gate.Polls.{RoomServer}
use awstest.WaitingRoom.Tickets.{
  Entered, queued, bad_kind, bad_request, integer_or_0, enter, enter_room, count_entry,
  keep_counter,
}

-- What a counter says; a missing one says 0.
abbrev pub Counts : Option RoomValue → ℤ → Type 0
Counts v n = (v ≡ some (num n)) ⊎ ((v ≡ none) × (n ≡ pos 0))

-- An exception, or the reference in the queue with this number.
abbrev pub Numbered : String → ℤ → Option Entered → Type 0
Numbered ref n o = (o ≡ none) ⊎ (o ≡ some (queued ref n))

module _ (settings : Settings) (k : Kind) (entity_id user_id now_sec now_ms : ℕ)
    (ref : String) where
  abbrev takes : Command Key Doc Member
  takes = incrby (enq k entity_id) (pos 1)

  abbrev Apart : Command Key Doc Member → Type 0
  Apart = Spares (enq k entity_id)

  -- What enter does after it has its number.
  abbrev files : ℤ → Room Entered
  files n =
      let t : Ticket = record {
        kind = k;
        entity_id = entity_id;
        user_id = user_id;
        seq = n;
        created_at_ms = now_ms;
      } in
      command (set (ticket ref) (doc (ticket_doc t)) false (some settings.ref_ttl)) >>= λ _.
      ok (queued ref n)

  abbrev rest : ℤ → Room Entered
  rest n = keep_counter settings k entity_id >>= λ _.
      count_entry settings k entity_id now_sec >>= λ _. files n

  keep_counter-Apart : Sends Apart (keep_counter settings k entity_id)
  unfolding keep_counter
  keep_counter-Apart = if-Sends Apart (settings.counter_ttl == 0) (ok tt) _ tt (
      or_else-Sends Apart (command expires >>= λ _. ok tt) tt (
        then-Sends Apart (command expires) (λ _. ok tt) (command-Sends Apart expires tt) (λ _. tt)))
    where
      expires : Command Key Doc Member
      expires = expire (enq k entity_id) settings.counter_ttl

  count_entry-Apart : Sends Apart (count_entry settings k entity_id now_sec)
  unfolding count_entry
  count_entry-Apart =
      or_else-Sends Apart (command counts >>= λ _. command expires >>= λ _. ok tt) tt (
        then-Sends Apart (command counts) _ (command-Sends Apart counts (λ p. cc)) λ _.
          then-Sends Apart (command expires) (λ _. ok tt) (command-Sends Apart expires tt)
            (λ _. tt))
    where
      counts : Command Key Doc Member
      counts = incrby (rps k entity_id now_sec) (pos 1)

      expires : Command Key Doc Member
      expires = expire (rps k entity_id now_sec) (max 2 (settings.window_sec + 2))

  files-Apart : (n : ℤ) → Sends Apart (files n)
  files-Apart n =
      then-Sends Apart (command _) (λ _. ok (queued ref n)) (command-Sends Apart _ (λ p. cc))
        (λ _. tt)

  rest-Apart : (n : ℤ) → Sends Apart (rest n)
  rest-Apart n = then-Sends Apart (keep_counter settings k entity_id) _ keep_counter-Apart λ _.
      then-Sends Apart (count_entry settings k entity_id now_sec) _ count_entry-Apart
        λ _. files-Apart n

  goes_on :
      {A : Type 0} (n : ℤ) (m : Room A) (f : A → Room Entered)
      → ((a : A) → Returns (Numbered ref n) (f a))
      → Returns (Numbered ref n) (m >>= f)
  goes_on {A = A} n m f h =
      bind-Returns (λ _. Unit) (Numbered ref n) m (go_on f) (any-Returns m) (λ o _. next o)
    where
      next : (o : Option A) → Returns (Numbered ref n) (go_on f o)
      next none = inl refl
      next (some a) = h a

  rest-Numbered : (n : ℤ) → Returns (Numbered ref n) (rest n)
  rest-Numbered n = goes_on n (keep_counter settings k entity_id) _ λ _.
      goes_on n (count_entry settings k entity_id now_sec) _
        λ _. goes_on n (command _) _ λ _. inr refl

  -- The counter goes up by one, and the reply says so.
  reply_of :
      (e : Option (Entry Doc Member)) (n : ℤ)
      → Counts (value_of e) n
      → answer Key-discrete Member-discrete takes e ≡ integer (n +ℤ pos 1)
  unfolding answer
  reply_of e n h = ground arith

  value_after :
      (e : Option (Entry Doc Member)) (n : ℤ)
      → Counts (value_of e) n
      → value_of (after Key-discrete Member-discrete takes e) ≡ some (num (n +ℤ pos 1))
  unfolding after
  value_after e n h = ground arith

  enters_run :
      (fs : Faults) (s : RoomStore) (n : ℤ)
      → Counts (value_of (s (enq k entity_id))) n
      → let o =
          run_store Key-discrete Member-discrete
            (enter_room settings k entity_id user_id now_sec now_ms ref)
            (false ∷ fs)
            s in
        o
        ≡ run_store Key-discrete Member-discrete
            (rest (n +ℤ pos 1))
            fs
            (apply Key-discrete Member-discrete takes s).1
  unfolding enter_room command run serve queue pipeline raised first has_error apply
  enters_run fs s n h =
      ap
        (λ x.
          run_store Key-discrete Member-discrete
            (go_on (λ x. rest (integer_or_0 x)) (first (raised (some (x ∷ []))))) fs
            (apply Key-discrete Member-discrete takes s).1)
        (reply_of (s (enq k entity_id)) n h)

  enter_room-numbers :
      (fs : Faults) (s : RoomStore) (n : ℤ)
      → Counts (value_of (s (enq k entity_id))) n
      → let o =
          run_store Key-discrete Member-discrete
            (enter_room settings k entity_id user_id now_sec now_ms ref)
            (false ∷ fs)
            s in
        (value_of (o.db (enq k entity_id)) ≡ some (num (n +ℤ pos 1)))
        × Numbered ref (n +ℤ pos 1) o.result
  enter_room-numbers fs s n h =
      let m = n +ℤ pos 1 in
      let t = (apply Key-discrete Member-discrete takes s).1 in
      rw (enters_run fs s n h) (
        run-Spares Key-discrete Member-discrete (enq k entity_id) (rest m) fs t (rest-Apart m)
            ∙ ap value_of (apply_same Key-discrete Member-discrete takes s)
            ∙ value_after (s (enq k entity_id)) n h,
        run-Returns (documented Key-discrete Member-discrete) (Numbered ref m) (rest m) fs t
            (rest-Numbered m),
      )

  entered :
      (text : String)
      → kind_of text ≡ some k
      → entity_id ≢ 0
      → user_id ≢ 0
      → enter settings text entity_id user_id now_sec now_ms ref
        ≡ enter_room settings k entity_id user_id now_sec now_ms ref
  unfolding enter
  entered text e p q =
      ap
        (λ o. elim o [
          | none ↦ ok bad_kind
          | some j ↦
              if entity_id == 0 || user_id == 0
              then ok bad_request
              else enter_room settings j entity_id user_id now_sec now_ms ref
        ])
        e
      ∙ in_room (entity_id == 0) (user_id == 0) refl refl
    where
      in_room :
          (b c : Bool)
          → (entity_id == 0) ≡ b
          → (user_id == 0) ≡ c
          → (if b || c
              then ok bad_request
              else enter_room settings k entity_id user_id now_sec now_ms ref)
            ≡ enter_room settings k entity_id user_id now_sec now_ms ref
      in_room true c u v = absurd (ground (arith, p))
      in_room false true u v = absurd (ground (arith, q))
      in_room false false u v = refl

  -- If enter is called with one of the two kinds and numbers that are not 0, and its first request is
  -- served, then, whatever other requests fail, the counter of the waiting room goes up by one (a
  -- missing counter says 0), and enter raises or answers the new number.
  pub enter-numbers :
      (r : RoomServer) (text : String) (fs : Faults) (d : r.Db) (n : ℤ)
      → kind_of text ≡ some k
      → entity_id ≢ 0
      → user_id ≢ 0
      → Counts (value_of (r.look d (enq k entity_id))) n
      → let o = run r (enter settings text entity_id user_id now_sec now_ms ref) (false ∷ fs) d in
        (value_of (r.look o.db (enq k entity_id)) ≡ some (num (n +ℤ pos 1)))
        × Numbered ref (n +ℤ pos 1) o.result
  enter-numbers r text fs d n e p q h =
      let m = enter settings text entity_id user_id now_sec now_ms ref in
      let both = enter_room-numbers fs (r.look d) n h in
      let same = entered text e p q in
      (
        ap (λ s. value_of (s (enq k entity_id)))
              (look-run r m (false ∷ fs) d
                ∙ ap (λ x. (run_store Key-discrete Member-discrete x (false ∷ fs) (r.look d)).db)
                    same)
            ∙ both.0,
        rw
            (result-run r m (false ∷ fs) d
              ∙ ap (λ x. (run_store Key-discrete Member-discrete x (false ∷ fs) (r.look d)).result)
                  same)
            both.1,
      )
