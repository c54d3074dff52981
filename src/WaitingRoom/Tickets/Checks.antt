-- ===== src/WaitingRoom/Tickets/Checks.antt =====
-- What an accepted permit shows.
use awstest.Prelude.{
  ℕ, String, ◌≡◌, refl, sym, ◌∙◌, Bool, true, false, Option, none, some, [], ◌∷◌, arith, str_eq,
  if◌then◌else◌,
}
use awstest.Redis.Commands.{Entry, num, doc, set_of, value, get, apply, answer}
use awstest.Redis.Program.{Faults, run, serve, pipeline, queue}
use awstest.Redis.Simulation.{result-run}
use awstest.Redis.Spares.{value_of}
use awstest.Redis.Raising.{command, ok, go_on, ◌>>=◌, raised, first, has_error}
use awstest.WaitingRoom.{
  Kind, concert, theater, Key, permit, Doc, permit_doc, control_doc, observed_doc, ticket_doc,
  garbage, other, Member, Permit, RoomReply, RoomValue, Key-discrete, Member-discrete,
}
use awstest.WaitingRoom.Gate.Steps.{RoomStore, on_room}
use awstest.WaitingRoom.Gate.Polls.{RoomServer}
use awstest.WaitingRoom.Tickets.{decided, matches, same_kind, accepts, verify_permit}

-- The value is a permit for this holder.
abbrev pub PermitFor : Kind → ℕ → ℕ → Option RoomValue → Type 0
PermitFor kind entity_id user_id v =
    (p : Permit) × (v ≡ some (doc (permit_doc p)))
    × (p.kind ≡ kind)
    × (p.entity_id ≡ entity_id)
    × (p.user_id ≡ user_id)

same_kind_sound : (k j : Kind) → same_kind k j ≡ true → k ≡ j
same_kind_sound concert concert h = refl
same_kind_sound theater theater h = refl
same_kind_sound concert theater h = cc
same_kind_sound theater concert h = cc

module _ (kind : Kind) (entity_id user_id : ℕ) where
  matches_sound :
      (p : Permit)
      → matches kind entity_id user_id p ≡ true
      → PermitFor kind entity_id user_id (some (doc (permit_doc p)))
  matches_sound p h =
      (p, refl, same_kind_sound p.kind kind (ground arith), ground arith, ground arith)

  accepts-value :
      (d : Doc)
      → accepts kind entity_id user_id (value (doc d)) ≡ some true
      → PermitFor kind entity_id user_id (some (doc d))
  unfolding accepts
  accepts-value (permit_doc p) h = matches_sound p cc
  accepts-value (control_doc d) h = cc
  accepts-value (observed_doc d) h = cc
  accepts-value (ticket_doc d) h = cc
  accepts-value garbage h = cc
  accepts-value other h = cc

  accepts-entry :
      (k : Key) (v : RoomValue) (t : Option ℕ)
      → accepts kind entity_id user_id
          (answer Key-discrete Member-discrete (get k) (some (record { value = v; ttl = t })))
        ≡ some true
      → PermitFor kind entity_id user_id (some v)
  unfolding accepts answer
  accepts-entry k (num n) t h = cc
  accepts-entry k (set_of ms) t h = cc
  accepts-entry k (doc d) t h = accepts-value d h

  accepts-answer :
      (k : Key) (e : Option (Entry Doc Member))
      → accepts kind entity_id user_id (answer Key-discrete Member-discrete (get k) e) ≡ some true
      → PermitFor kind entity_id user_id (value_of e)
  unfolding accepts answer
  accepts-answer k none h = cc
  accepts-answer k (some e) h = accepts-entry k e.value e.ttl h

  -- The reply that was accepted.
  checked :
      (r : RoomReply) (fs : Faults) (s : RoomStore)
      → (on_room
          (go_on (λ r. decided (accepts kind entity_id user_id r)) (first (raised (some (r ∷ [])))))
          fs
          s).result
        ≡ some true
      → accepts kind entity_id user_id r ≡ some true
  unfolding accepts decided run raised first has_error
  checked r fs s h = ground arith

  verify_if :
      (b : Bool) (token : String) (fs : Faults) (s : RoomStore)
      → (on_room
          (if b
            then ok false
            else (command (get (permit token)) >>= λ r. decided (accepts kind entity_id user_id r)))
          fs
          s).result
        ≡ some true
      → PermitFor kind entity_id user_id (value_of (s (permit token)))
  unfolding command run serve pipeline queue apply
  verify_if true token fs s h = cc
  verify_if false token [] s h = accepts-answer (permit token) _ (checked _ [] _ h)
  verify_if false token (true ∷ fs) s h = cc
  verify_if false token (false ∷ fs) s h = accepts-answer (permit token) _ (checked _ fs _ h)

  verify_store :
      (token : String) (fs : Faults) (s : RoomStore)
      → (on_room (verify_permit token kind entity_id user_id) fs s).result ≡ some true
      → PermitFor kind entity_id user_id (value_of (s (permit token)))
  unfolding verify_permit decided
  verify_store token fs s h = verify_if (str_eq token "") token fs s h

  -- Whatever requests fail, verify_permit accepts only if the store has a permit for this kind, entity and user under
  -- the token.
  pub verify_permit_sound :
      (r : RoomServer) (token : String) (fs : Faults) (d : r.Db)
      → (run r (verify_permit token kind entity_id user_id) fs d).result ≡ some true
      → PermitFor kind entity_id user_id (value_of (r.look d (permit token)))
  verify_permit_sound r token fs d h =
      verify_store token fs (r.look d)
        (sym (result-run r (verify_permit token kind entity_id user_id) fs d) ∙ h)
