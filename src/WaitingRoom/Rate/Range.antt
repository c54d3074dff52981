-- ===== src/WaitingRoom/Rate/Range.antt =====
-- The range of the AUTO rate, whatever the store holds and whatever requests fail.
use awstest.Prelude.{ℕ, ◌≤◌, ◌≡◌, subst, Option, none, some, arith}
use awstest.Prelude.Int.{ℤ, pos_part, ◌-ℤ◌}
use awstest.Redis.Program.{Redis, Faults, run}
use awstest.Redis.Returns.{Returns, bind-Returns, any-Returns, run-Returns}
use awstest.Redis.Raising.{go_on, ◌>>=◌}
use awstest.WaitingRoom.Control.{observe_snapshot}
use awstest.WaitingRoom.{
  Kind, enq, done, Doc, Field, absent, bad, number, Key-discrete, Member-discrete, Room, Settings,
}
use awstest.WaitingRoom.Rate.{
  lowest, highest, clamped, own_rate, observed_rate, count_at, decide, rps_total,
  auto_effective_rate,
}

abbrev InRange : Settings → ℕ → Type 0
InRange settings r = (lowest settings ≤ r) × (r ≤ highest settings)

clamped-InRange : (settings : Settings) (r : ℕ) → InRange settings (clamped settings r)
clamped-InRange settings r = (omega arith, omega arith)

own_rate-InRange :
    (settings : Settings) (sum : ℤ) (backlog : ℕ) → InRange settings (own_rate settings sum backlog)
unfolding own_rate
own_rate-InRange settings sum backlog = ground arith

abbrev Good : Settings → Option ℕ → Type 0
Good settings o = (rate : ℕ) → o ≡ some rate → InRange settings rate

Good-none : (settings : Settings) → Good settings none
Good-none settings rate h = cc

Good-some : (settings : Settings) (r : ℕ) → InRange settings r → Good settings (some r)
Good-some settings r h rate e = subst (InRange settings) (same e) h
  where
    same : {k : ℕ} → some r ≡ some k → r ≡ k
    same p = cc

observed_rate-InRange :
    (settings : Settings) (o : Option Field) → Good settings (observed_rate settings o)
unfolding observed_rate
observed_rate-InRange settings none = Good-none settings
observed_rate-InRange settings (some absent) = Good-none settings
observed_rate-InRange settings (some bad) = Good-none settings
observed_rate-InRange settings (some (number n)) = λ rate. ground arith

go_on-Returns :
    {A : Type 0} (settings : Settings) (m : Room A) (f : A → Room ℕ)
    → ((a : A) → Returns (Good settings) (f a))
    → Returns (Good settings) (m >>= f)
go_on-Returns {A = A} settings m f h =
    bind-Returns (λ _. Unit) (Good settings) m (go_on f) (any-Returns m) λ o _. after o
  where
    after : (o : Option A) → Returns (Good settings) (go_on f o)
    after none = Good-none settings
    after (some a) = h a

decide-Returns :
    (settings : Settings) (kind : Kind) (entity_id now_sec backlog : ℕ) (o : Option ℕ)
    → Good settings o
    → Returns (Good settings) (decide settings kind entity_id now_sec backlog o)
unfolding decide
decide-Returns settings kind entity_id now_sec backlog (some r) h = h
decide-Returns settings kind entity_id now_sec backlog none h =
    go_on-Returns settings (rps_total settings kind entity_id now_sec) _
      λ sum. Good-some settings _ (own_rate-InRange settings sum backlog)

-- On any server, whatever it stores and whatever requests fail, an AUTO rate that _auto_effective_rate returns is
-- at least the lowest rate and at most the highest.
pub auto_rate-in_range :
    (r : Redis Doc Key-discrete Member-discrete) (settings : Settings) (kind : Kind)
    (entity_id now_sec : ℕ) (fs : Faults) (d : r.Db) (rate : ℕ)
    → (run r (auto_effective_rate settings kind entity_id now_sec) fs d).result ≡ some rate
    → (lowest settings ≤ rate) × (rate ≤ highest settings)
unfolding auto_effective_rate
auto_rate-in_range r settings kind entity_id now_sec fs d = run-Returns r (Good settings) _ fs d (
    go_on-Returns settings (count_at (enq kind entity_id)) _ λ enqueued.
      go_on-Returns settings (count_at (done kind entity_id)) _ λ admitted.
        go_on-Returns settings (observe_snapshot kind entity_id) _ λ obs.
          decide-Returns settings kind entity_id now_sec (pos_part (enqueued -ℤ admitted)) _
            (observed_rate-InRange settings obs))
