-- ===== src/Sale.antt =====
-- services/ticketing-was/concert/sale_state.py, and the routes of concert_write.py that open and close
-- the sale of a show. Both reach the read cache by _SafeRedisClient, which answers None for an
-- exception of get() and drops one of set().
pub mod Routes
mod Examples
use awstest.Prelude.{
  ℕ, String, Bool, true, false, Option, none, some, List, [], ◌∷◌, map, ℕ_discrete, ◌==◌,
  if◌then◌else◌,
}
use awstest.Prelude.Int.{ℤ, pos}
use awstest.Prelude.Text.{is_upper, codes, to_upper, same_codes}
use awstest.Redis.Commands.{Store, Reply, value, doc, get, set}
use awstest.Redis.Program.{Redis, Client, ret, request, pipeline, ◌>>=◌, ◌>>◌}

pub data Key : Type 0 where
  sale : ℕ → Key

-- A JSON value that int() may refuse.
pub data Field : Type 0 where
  absent bad : Field
  number : ℤ → Field

-- `status` is `none` if it is absent or false; `updated_at_epoch_ms` is never read.
pub record SaleDoc : Type 0 where
  pub status : Option String
  pub close_at : Field

-- `other` is JSON but no object, `garbage` a text that json.loads refuses.
pub data Doc : Type 0 where
  sale_doc : SaleDoc → Doc
  other garbage : Doc

pub data Member : Type 0 where

unfoldable pub Key-discrete : Discrete Key
Key-discrete = hlevel ℕ_discrete

unfoldable pub Member-discrete : Discrete Member
Member-discrete = λ a b. elim a [ ]

abbrev pub SaleClient : Type 0 → Type 0
SaleClient = Client Key Doc Member

abbrev pub SaleServer : Type 1
SaleServer = Redis Doc Key-discrete Member-discrete

pub data Status : Type 0 where
  opened closed : Status

pub record Sale : Type 0 where
  pub status : Status
  pub close_at : Option ℤ

abbrev pub always_open : Sale
always_open = record { status = opened; close_at = none }

-- What set_sale_state makes of a text, after strip() and upper(); any other text is OPEN.
abbrev pub status_of : String → Status
status_of s = if is_upper s "CLOSED" then closed else opened

-- get_sale_state does not strip.
status_or_open : Option String → Status
unfolding to_upper same_codes
status_or_open none = opened
status_or_open (some s) =
    if same_codes (map to_upper (codes s)) (codes "CLOSED") then closed else opened

int_of : Field → Option ℤ
int_of absent = none
int_of bad = none
int_of (number n) = some n

abbrev pub text_of : Status → String
text_of opened = "OPEN"
text_of closed = "CLOSED"

-- `int(close_at_epoch_ms) if close_at_epoch_ms else None`
abbrev pub close_of : ℕ → Field
close_of n = if n == 0 then absent else number (pos n)

unfoldable pub set_sale_state : ℕ → String → ℕ → SaleClient (Unit {0})
unfolding pipeline is_upper
set_sale_state show_id status close_at =
    request
      (pipeline (
        set (sale show_id)
          (doc (
            sale_doc (record {
              status = some (text_of (status_of status));
              close_at = close_of close_at;
            })))
          false none
        ∷ []))
      (λ rs. ret tt)

-- What the dict of a stored text says.
read_sale : Option (List (Reply Doc Member)) → Sale
unfolding status_or_open int_of
read_sale (some (value (doc (sale_doc d)) ∷ rs)) = record {
  status = status_or_open d.status;
  close_at = int_of d.close_at;
}
read_sale _ = always_open

unfoldable pub get_sale_state : ℕ → SaleClient Sale
unfolding pipeline read_sale
get_sale_state show_id = request (pipeline (get (sale show_id) ∷ [])) (λ rs. ret (read_sale rs))

unfoldable is_open : ℕ → SaleClient Bool
unfolding get_sale_state
is_open show_id =
    get_sale_state show_id >>= λ s. ret (elim s.status [ opened ↦ true | closed ↦ false ])

-- The routes answer the state that they read.
unfoldable open_concert_sale : ℕ → SaleClient Sale
unfolding set_sale_state get_sale_state
open_concert_sale show_id = set_sale_state show_id "OPEN" 0 >> get_sale_state show_id

unfoldable close_concert_sale : ℕ → SaleClient Sale
unfolding set_sale_state get_sale_state
close_concert_sale show_id = set_sale_state show_id "CLOSED" 0 >> get_sale_state show_id
