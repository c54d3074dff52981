-- ===== src/WaitingRoom/Tickets/Permits.antt =====
-- Permits: the one that `status` issues is the one that `verify_permit` accepts.
use awstest.Prelude.{
  ℕ, String, ◌≡◌, ◌≢◌, ◌≤◌, refl, if_pos, sym, ap, subst, ◌∙◌, Bool, true, false, Option, some, [],
  arith, leb, ◌==◌, ◌&&◌, str_eq, str_neq, if◌then◌else◌,
}
use awstest.Prelude.Int.{pos, ltb_ℤ}
use awstest.Redis.Commands.{doc, get, value, apply, after, update}
use awstest.Redis.Program.{Faults, Outcome, run}
use awstest.Redis.Simulation.{result-run, look-run}
use awstest.Redis.Spares.{value_of}
use awstest.Redis.Reading.{get-reply}
use awstest.Redis.Ensures.{Ensures, bind-Ensures, command-Ensures, ok-Ensures, command_known}
use awstest.Redis.Raising.{command, ok, is_error_reply, ◌>>=◌}
use awstest.Redis.Raising.Runs.{command-runs}
use awstest.WaitingRoom.{
  Kind, concert, theater, ticket, permit, ticket_doc, permit_doc, Ticket, Settings, Key-discrete,
  Member-discrete,
}
use awstest.WaitingRoom.Control.{control_snapshot}
use awstest.WaitingRoom.Gate.{advance_done}
use awstest.WaitingRoom.Gate.Steps.{RoomStore, on_room}
use awstest.WaitingRoom.Gate.Polls.{RoomServer}
use awstest.WaitingRoom.Tickets.{
  decided, Status, admitted, processing, invalid_ref, unknown_or_expired, Progress, Moment,
  progress_of, issue, answer_status, shown_rate, status_of, resume, status, same_kind, accepts,
  verify_permit,
}

-- The store has a permit for the ticket's holder under the token.
abbrev pub Permitted : Ticket → String → RoomStore → Type 0
Permitted t token s =
    (ms : ℕ) × (value_of (s (permit token))
      ≡ some (
          doc (
            permit_doc (record {
              kind = t.kind;
              entity_id = t.entity_id;
              user_id = t.user_id;
              issued_at_ms = ms;
            }))))

-- What an answer of `status` promises.
abbrev Promise : Ticket → Status → RoomStore → Type 0
Promise t (admitted token p) s = (p.queue.position ≤ 1) × Permitted t token s
Promise t (processing p) s = Unit
Promise t invalid_ref s = Unit
Promise t unknown_or_expired s = Unit

module _ (settings : Settings) (t : Ticket) (now : Moment) where
  issue-Ensures :
      (p : Progress)
      → p.queue.position ≤ 1
      → Ensures Key-discrete Member-discrete (Promise t) (issue settings t now p)
  unfolding issue apply after update
  issue-Ensures p h =
      command-Ensures Key-discrete Member-discrete (Promise t) (admitted now.token p) _ λ s. (
        h,
        (
          now.issue_ms,
          ap value_of (if_pos (Key-discrete (permit now.token) (permit now.token)) refl _ _),
        ),
      )

  answer_if :
      (p : Progress) (b : Bool)
      → (b ≡ true → p.queue.position ≤ 1)
      → Ensures Key-discrete Member-discrete
          (Promise t)
          (if b then issue settings t now p else ok (processing p))
  answer_if p true h = issue-Ensures p (h refl)
  answer_if p false h = ok-Ensures Key-discrete Member-discrete (Promise t) (processing p) (λ s. tt)

  answer-Ensures :
      (p : Progress)
      → Ensures Key-discrete Member-discrete (Promise t) (answer_status settings t now p)
  unfolding answer_status run
  answer-Ensures p = answer_if p (leb p.queue.position 1 && ltb_ℤ (pos 0) t.seq) (λ e. ground arith)

  status_of-Ensures : Ensures Key-discrete Member-discrete (Promise t) (status_of settings t now)
  unfolding status_of
  status_of-Ensures =
      bind-Ensures Key-discrete Member-discrete (Promise t) _
        (control_snapshot settings t.kind t.entity_id)
        λ c.
          bind-Ensures Key-discrete Member-discrete (Promise t) _
            (advance_done settings t.kind t.entity_id now.advance_sec now.advance_ms)
            λ done.
              bind-Ensures Key-discrete Member-discrete (Promise t) _
                (shown_rate settings t now.rate_sec c)
                λ rate. answer-Ensures (progress_of t c rate done)

  -- A ticket that the store has.
  abbrev Has : String → RoomStore → Type 0
  Has ref s = value_of (s (ticket ref)) ≡ some (doc (ticket_doc t))

  status_if :
      (b : Bool) (ref : String) (s : RoomStore) (fs : Faults) (a : Status)
      → Has ref s
      → let m =
          if b then ok invalid_ref else (command (get (ticket ref)) >>= resume settings now) in
        (on_room m fs s).result ≡ some a → Promise t a (on_room m fs s).db
  unfolding status_of resume
  status_if true ref s fs a h e =
      ok-Ensures Key-discrete Member-discrete (Promise t) invalid_ref (λ s. tt) fs s a e
  status_if false ref s fs a h e =
      command_known Key-discrete Member-discrete (Promise t) (get (ticket ref))
        (resume settings now) s (ap is_error_reply reply)
        (subst
          (λ r.
            (fs : Faults) (a : Status)
            → (on_room (resume settings now r) fs after_get).result ≡ some a
            → Promise t a (on_room (resume settings now r) fs after_get).db)
          (sym reply) known)
        fs a e
    where
      after_get : RoomStore
      after_get = (apply Key-discrete Member-discrete (get (ticket ref)) s).1

      reply :
          (apply Key-discrete Member-discrete (get (ticket ref)) s).0 ≡ value (doc (ticket_doc t))
      reply = get-reply Key-discrete Member-discrete (ticket ref) s (doc (ticket_doc t)) tt h

      known :
          (fs : Faults) (a : Status)
          → (on_room (resume settings now (value (doc (ticket_doc t)))) fs after_get).result
            ≡ some a
          → Promise t a (on_room (resume settings now (value (doc (ticket_doc t)))) fs after_get).db
      known fs a e = status_of-Ensures fs after_get a e

  status_store :
      (ref : String) (s : RoomStore) (fs : Faults) (a : Status)
      → Has ref s
      → (on_room (status settings ref now) fs s).result ≡ some a
      → Promise t a (on_room (status settings ref now) fs s).db
  unfolding status
  status_store ref s fs a h e = status_if (str_eq ref "") ref s fs a h e

same-kind : (k : Kind) → same_kind k k ≡ true
same-kind concert = refl
same-kind theater = refl

same-number : (n : ℕ) → (n == n) ≡ true
same-number n = ground arith

-- A permit in the store is accepted for its holder.
accepted :
    (t : Ticket) (token : String) (s : RoomStore)
    → token ≢ ""
    → Permitted t token s
    → (on_room (verify_permit token t.kind t.entity_id t.user_id) [] s).result ≡ some true
unfolding verify_permit accepts run decided
accepted t token s n (ms, h) = rw (str_neq token "" n) (
    ap (λ o. o.result)
      (command-runs Key-discrete Member-discrete (get (permit token))
        (λ r. decided (accepts t.kind t.entity_id t.user_id r)) s (ap is_error_reply reply))
    ∙ ap (λ r. (on_room (decided (accepts t.kind t.entity_id t.user_id r)) [] after_get).result)
        reply
    ∙ rw (same-kind t.kind, same-number t.entity_id, same-number t.user_id) refl)
  where
    after_get : RoomStore
    after_get = (apply Key-discrete Member-discrete (get (permit token)) s).1

    reply :
        (apply Key-discrete Member-discrete (get (permit token)) s).0
        ≡ value (
            doc (
              permit_doc (record {
                kind = t.kind;
                entity_id = t.entity_id;
                user_id = t.user_id;
                issued_at_ms = ms;
              })))
    reply = get-reply Key-discrete Member-discrete (permit token) s _ tt h

module _ (r : RoomServer) (settings : Settings) (ref : String) (now : Moment) (t : Ticket)
    (fs : Faults) (d : r.Db) where
  abbrev asked : Outcome r.Db (Option Status)
  asked = run r (status settings ref now) fs d

  -- If the store has the ticket and status answers ADMITTED (whatever requests fail), then the position is at most 1,
  -- and verify_permit accepts the token for the ticket's kind, entity and user.
  pub status-permits :
      (token : String) (p : Progress)
      → value_of (r.look d (ticket ref)) ≡ some (doc (ticket_doc t))
      → token ≢ ""
      → asked.result ≡ some (admitted token p)
      → (p.queue.position ≤ 1)
        × ((run r (verify_permit token t.kind t.entity_id t.user_id) [] asked.db).result
            ≡ some true)
  status-permits token p h n e =
      let m = status settings ref now in
      let promise =
        status_store settings t now ref (r.look d) fs (admitted token p) h
          (sym (result-run r m fs d) ∙ e) in
      let v = verify_permit token t.kind t.entity_id t.user_id in
      (
        promise.0,
        result-run r v [] asked.db
            ∙ ap (λ s. (on_room v [] s).result) (look-run r m fs d)
            ∙ accepted t token _ n promise.1,
      )
