-- ===== src/Worker/Search.antt =====
-- `syncProductToES` of cmd/worker/main.go, over the client of Elasticsearch. The time of an audit
-- entry is an argument, as its text.
use package.text.Mathlib.Text.{◌==◌ as str_eq}
use belajar_backend_go_v.Base.{ℕ, ◌||◌, Option, none, some, String, ℤ, if◌then◌else◌}
use belajar_backend_go_v.Strconv.{itoa}
use belajar_backend_go_v.Json.{Json, num, str, obj, end, member}
use belajar_backend_go_v.Models.{Product, ProductEvent, action_create, action_update, action_delete}
use belajar_backend_go_v.Models.Codec.{encode_product}
use belajar_backend_go_v.Services.{Result, ok, err}

-- `index` is given the index, the id of the document if there is one, and the document; `delete`
-- the index and the id. The answer is the status code.
pub record Elastic : Type 1 where
  pub Store : Type 0
  pub index : String → Option String → Json → Store → Result ℕ × Store
  pub delete : String → String → Store → Result ℕ × Store

pub record AuditLog : Type 0 where
  pub timestamp : String
  pub action : String
  pub product_id : ℤ
  pub payload : Product

unfoldable pub encode_audit : AuditLog → Json
encode_audit a = obj (
    member "timestamp" (str a.timestamp) (
      member "action" (str a.action)
        (member "product_id" (num a.product_id) (member "payload" (encode_product a.payload) end))))

module _ (E : Elastic) where
  open E use {Store}

  unfoldable pub write_audit : String → ProductEvent → Store → Store
  unfolding encode_audit
  write_audit now evt s =
      (E.index "product-logs" none
        (encode_audit (record {
          timestamp = now;
          action = evt.action;
          product_id = evt.product.id;
          payload = evt.product;
        }))
        s).1

  -- The audit entry is written unless the request itself fails; an error status is only logged.
  unfoldable pub audit_after : String → ProductEvent → Result ℕ × Store → Store
  unfolding write_audit
  audit_after now evt (ok code, s) = write_audit now evt s
  audit_after now evt (err e, s) = s

  unfoldable pub sync_product : String → ProductEvent → Store → Store
  unfolding audit_after
  sync_product now evt s =
      if str_eq evt.action action_create || str_eq evt.action action_update
      then audit_after now evt
          (E.index "products" (some (itoa evt.product.id)) (encode_product evt.product) s)
      else if str_eq evt.action action_delete
      then audit_after now evt (E.delete "products" (itoa evt.product.id) s)
      else write_audit now evt s
