-- ===== src/Sale/Examples.antt =====
-- The theorem on the sale state, at a show that is open.
use awstest.Prelude.{◌≡◌, Bool, false, none, [], ◌∷◌, if◌then◌else◌}
use awstest.Redis.Commands.{Store}
use awstest.Redis.Program.{run, ◌>>◌}
use awstest.Redis.Simulation.{documented}
use awstest.Sale.{
  Key, Doc, Member, Sale, SaleServer, opened, Key-discrete, Member-discrete, set_sale_state,
  get_sale_state,
}
use awstest.Sale.Routes.{AsSet, get-set_sale_state}

abbrev server : SaleServer
server = documented Key-discrete Member-discrete

abbrev empty : Store Key Doc Member
empty k = none

abbrev served : Bool
served = false

get-set_sale_state_example :
    (x : Sale) × AsSet 1 " Closed" 5000 x
    × ((run server
          (set_sale_state 1 " Closed" 5000 >> get_sale_state 1)
          (false ∷ served ∷ [])
          empty).result
        ≡ (if served then record { status = opened; close_at = none } else x))
get-set_sale_state_example = get-set_sale_state 1 " Closed" 5000 server served [] empty
