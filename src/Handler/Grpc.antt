-- ===== src/Handler/Grpc.antt =====
-- handler/grpc_handler.go: `GetStock`. The messages are those of proto/inventory.
pub mod Stock
use belajar_backend_go_v.Base.{String, ℤ, wrap32}
use belajar_backend_go_v.Services.{GoError, no_rows, Result, ok, err, Services, World}
use belajar_backend_go_v.Repository.Product.{get_by_id}

pub record GetStockResponse : Type 0 where
  pub id : ℤ
  pub name : String
  pub stock : ℤ

pub data GrpcResult : Type 0 where
  response : GetStockResponse → GrpcResult
  not_found internal : String → GrpcResult

module _ (S : Services) where
  -- `req.Id` is an `int32`, which `int` keeps; `int32(…)` cuts the fields of the answer.
  unfoldable pub get_stock : ℤ → World S → GrpcResult × World S
  get_stock id w =
      let (result, w') = get_by_id S id w in
      elim result [
        | err no_rows ↦ (not_found "produk tidak ditemukan", w')
        | err _ ↦ (internal "error database", w')
        | ok p ↦ (response (record { id = wrap32 p.id; name = p.name; stock = wrap32 p.stock }), w')
      ]
