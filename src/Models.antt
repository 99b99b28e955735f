-- ===== src/Models.antt =====
-- The records of models/, of internal/event and internal/worker/contract.go, and the offset of a
-- page. `int` fields are integers; that they lie in 64 bits is said where it matters.
pub mod Codec
pub mod RoundTrip
use Prim.Native.String.{count}
use text.Mathlib.Text.{◌==◌ as str_eq}
use belajar_backend_go_v.Base.{
  Bool, not, ◌&&◌, String, ℤ, pos, ◌-ℤ◌, ◌*ℤ◌, ltb_ℤ, leb_ℤ, eqb_ℤ, leb, if◌then◌else◌, wrap64,
}

pub record Product : Type 0 where
  pub id : ℤ
  pub name : String
  pub price : ℤ
  pub stock : ℤ

abbrev pub zero_product : Product
zero_product = record { id = pos 0; name = ""; price = pos 0; stock = pos 0 }

pub record ProductFilter : Type 0 where
  pub page : ℤ
  pub limit : ℤ
  pub search : String

pub record Transaction : Type 0 where
  pub id : ℤ
  pub user_id : ℤ
  pub product_id : ℤ
  pub quantity : ℤ
  pub total_price : ℤ
  -- seconds since the epoch
  pub created_at : ℤ

pub record CheckoutRequest : Type 0 where
  pub product_id : ℤ
  pub quantity : ℤ

abbrev pub zero_checkout : CheckoutRequest
zero_checkout = record { product_id = pos 0; quantity = pos 0 }

pub record User : Type 0 where
  pub id : ℤ
  pub email : String
  pub password : String
  pub role : String

abbrev pub zero_user : User
zero_user = record { id = pos 0; email = ""; password = ""; role = "" }

pub record LoginResponse : Type 0 where
  pub access_token : String

-- The registered claims hold one that the program sets, the expiry, in seconds.
pub record Claims : Type 0 where
  pub user_id : ℤ
  pub email : String
  pub role : String
  pub expires_at : ℤ

-- The `validate` tags of `Product`: `required` refuses the zero value of the field's type.
unfoldable pub product_tags : Product → Bool
product_tags p =
    not (str_eq p.name "")
    && leb 3 (count p.name)
    && (not (eqb_ℤ p.price (pos 0)) && ltb_ℤ (pos 0) p.price)
    && (not (eqb_ℤ p.stock (pos 0)) && leb_ℤ (pos 0) p.stock)

unfoldable pub checkout_tags : CheckoutRequest → Bool
checkout_tags r =
    not (eqb_ℤ r.product_id (pos 0)) && (not (eqb_ℤ r.quantity (pos 0)) && ltb_ℤ (pos 0) r.quantity)

-- `GetOffset` writes the defaults into the filter that it is called on.
unfoldable pub get_offset : ProductFilter → ℤ × ProductFilter
get_offset f =
    let page : ℤ = if ltb_ℤ f.page (pos 1) then pos 1 else f.page in
    let limit : ℤ = if ltb_ℤ f.limit (pos 1) then pos 10 else f.limit in
    (wrap64 (wrap64 (page -ℤ pos 1) *ℤ limit), record f { page = page; limit = limit })

-- internal/event/event.go: the actions, and the payload of the topic "product-events".
abbrev pub action_create : String
action_create = "CREATE"

abbrev pub action_update : String
action_update = "UPDATE"

abbrev pub action_delete : String
action_delete = "DELETE"

pub record ProductEvent : Type 0 where
  pub action : String
  pub product : Product

-- internal/worker/contract.go
pub record TaskSendInvoice : Type 0 where
  pub user_id : ℤ
  pub email : String
  pub product_id : ℤ
  pub quantity : ℤ
  pub total_price : ℤ

abbrev pub queue_invoice : String
queue_invoice = "queue:invoice_sending"
