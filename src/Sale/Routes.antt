-- ===== src/Sale/Routes.antt =====
-- What the sale routes answer.
use awstest.Prelude.{
  All, arith, inl, inr, ◌⊎◌, ◌↔◌, ap₂, List, Option, none, some, ◌==◌, ℕ, String, ◌≡◌, refl, ap,
  ◌∙◌, Bool, true, false, [], ◌∷◌, if◌then◌else◌,
}
use awstest.Prelude.Int.{ℤ, pos}
use awstest.Prelude.Text.Casing.{IsCapital, Says, is_upper-Says}
use awstest.Prelude.Text.{codes, is_upper, to_upper, same_codes}
use awstest.Redis.Commands.{Reply, Store, get, set, doc, apply, after}
use awstest.Redis.Program.{Faults, run, serve, queue, pipeline, ◌>>◌}
use awstest.Redis.Pipeline.{apply_same}
use awstest.Redis.Reading.{get-reply}
use awstest.Redis.Spares.{value_of}
use awstest.Redis.Simulation.{run_store, result-run}
use awstest.Sale.{
  Key, Doc, Member, SaleServer, SaleClient, SaleDoc, sale, sale_doc, absent, number, Sale, Status,
  opened, closed, always_open, status_of, text_of, close_of, Key-discrete, Member-discrete,
  set_sale_state, get_sale_state, read_sale, status_or_open, int_of,
}

abbrev SaleStore : Type 0
SaleStore = Store Key Doc Member

status_or_open-text_of : (s : Status) → status_or_open (some (text_of s)) ≡ s
unfolding status_or_open to_upper same_codes
status_or_open-text_of opened = refl
status_or_open-text_of closed = refl

-- 0 is no time.
abbrev time_of : ℕ → Option ℤ
time_of n = if n == 0 then none else some (pos n)

int_of-close_of : (n : ℕ) → int_of (close_of n) ≡ time_of n
unfolding int_of
int_of-close_of n = chosen (n == 0)
  where
    chosen :
        (b : Bool)
        → int_of (if b then absent else number (pos n)) ≡ (if b then none else some (pos n))
    chosen true = refl
    chosen false = refl

-- The text is the word closed in small or capital letters, with spaces around it.
abbrev SaysClosed : String → Type 0
SaysClosed s = Says (codes s) (codes "CLOSED")

capitals : All IsCapital (codes "CLOSED")
capitals = ground arith

module _ (show_id : ℕ) (status : String) (close_at : ℕ) where
  abbrev written : SaleDoc
  written = record { status = some (text_of (status_of status)); close_at = close_of close_at }

  abbrev as_set : Sale
  as_set = record { status = status_of status; close_at = time_of close_at }

  abbrev set_and_get : SaleClient Sale
  set_and_get = set_sale_state show_id status close_at >> get_sale_state show_id

  abbrev stored : SaleStore → SaleStore
  stored s =
      (apply Key-discrete Member-discrete (set (sale show_id) (doc (sale_doc written)) false none)
        s).1

  get-stored :
      (s : SaleStore)
      → (apply Key-discrete Member-discrete (get (sale show_id)) (stored s)).0
        ≡ Reply.value (doc (sale_doc written))
  unfolding after
  get-stored s =
      get-reply Key-discrete Member-discrete (sale show_id) (stored s) (doc (sale_doc written)) tt (
        ap value_of (
          apply_same Key-discrete Member-discrete
            (set (sale show_id) (doc (sale_doc written)) false none) s))

  read-written :
      (rs : List (Reply Doc Member))
      → read_sale (some (Reply.value (doc (sale_doc written)) ∷ rs)) ≡ as_set
  unfolding read_sale
  read-written rs =
      ap₂ sale_at (status_or_open-text_of (status_of status)) (int_of-close_of close_at)
    where
      sale_at : Status → Option ℤ → Sale
      sale_at x y = record { status = x; close_at = y }

  set_and_get_run :
      (b : Bool) (fs : Faults) (s : SaleStore)
      → (run_store Key-discrete Member-discrete set_and_get (false ∷ b ∷ fs) s).result
        ≡ (if b then always_open else as_set)
  unfolding run serve queue pipeline set_sale_state get_sale_state read_sale
  set_and_get_run true fs s = refl
  set_and_get_run false fs s = ap (λ x. read_sale (some (x ∷ []))) (get-stored s) ∙ read-written []

  abbrev pub AsSet : Sale → Type 0
  AsSet x =
      (((x.status ≡ closed) × SaysClosed status) ⊎ ((x.status ≡ opened) × ¬ SaysClosed status))
      × (x.close_at ≡ time_of close_at)

  as_set-AsSet : AsSet as_set
  as_set-AsSet = (by_text (is_upper status "CLOSED") refl, refl)
    where
      says : (is_upper status "CLOSED" ≡ true) ↔ SaysClosed status
      says = is_upper-Says status "CLOSED" capitals

      unless : is_upper status "CLOSED" ≡ false → ¬ (is_upper status "CLOSED" ≡ true)
      unless e i = cc

      by_text :
          (x : Bool)
          → is_upper status "CLOSED" ≡ x
          → (((if x then closed else opened) ≡ closed) × SaysClosed status)
            ⊎ (((if x then closed else opened) ≡ opened) × ¬ SaysClosed status)
      by_text true e = inl (refl, says.0 e)
      by_text false e = inr (refl, λ k. unless e (says.1 k))

  -- If the request of set_sale_state is served, the next get_sale_state gives a sale that is closed
  -- if the text of the status is the word closed (in small or capital letters, with spaces around
  -- it) and open if it is any other text, with the closing time that was set (none for 0); if the
  -- request of the latter fails, it gives an open sale with no closing time.
  pub get-set_sale_state :
      (r : SaleServer) (b : Bool) (fs : Faults) (d : r.Db)
      → (x : Sale) × AsSet x
        × ((run r
              (set_sale_state show_id status close_at >> get_sale_state show_id)
              (false ∷ b ∷ fs)
              d).result
            ≡ (if b then record { status = opened; close_at = none } else x))
  get-set_sale_state r b fs d = (
    as_set,
    as_set-AsSet,
    result-run r set_and_get (false ∷ b ∷ fs) d ∙ set_and_get_run b fs (r.look d),
  )
