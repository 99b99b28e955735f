-- ===== src/Handler/Product.antt =====
-- handler/product_handler.go. The validator of `validate.Struct` is a parameter.
pub mod Replies
pub mod Busy
pub mod Validation
pub mod Show
pub mod Changes
use belajar_backend_go_v.Base.{
  ℕ, Bool, true, false, Option, none, some, String, ◌<>◌, ℤ, pos, eqb_ℤ, if◌then◌else◌,
}
use belajar_backend_go_v.Strconv.{atoi}
use belajar_backend_go_v.Json.{unmarshal}
use belajar_backend_go_v.Models.{Product, zero_product, ProductFilter}
use belajar_backend_go_v.Models.Codec.{encode_product, encode_products, decode_product}
use belajar_backend_go_v.Services.{
  GoError, service_unavailable, Result, ok, err, Services, World, Validator,
}
use belajar_backend_go_v.Http.{Request, ResponseWriter, Outcome, done, Handler}
use belajar_backend_go_v.Utils.Response.{response_json, response_error}
use belajar_backend_go_v.Repository.Product.{get_all, get_by_id, create, update, delete}

-- The filter that `GetAllProducts` reads from the query; the errors of `Atoi` are dropped.
unfoldable pub read_filter : (String → String) → ProductFilter
read_filter query =
    let (page, _) = atoi (query "page") in
    let (limit, _) = atoi (query "limit") in
    record {
      page = if eqb_ℤ page (pos 0) then pos 1 else page;
      limit = if eqb_ℤ limit (pos 0) then pos 10 else limit;
      search = query "search";
    }

module _ {W : Type 0} ⦃rw : ResponseWriter W⦄ where
  unfoldable pub parse_id : Request → W → Option ℤ × W
  parse_id r w =
      let (id, e) = atoi r.path_id in
      elim e [ some _ ↦ (none, response_error 400 "Invalid Product ID" w) | none ↦ (some id, w) ]

module _ {W : Type 0} ⦃rw : ResponseWriter W⦄ (S : Services) (V : Validator) where
  unfoldable pub get_all_products : Handler W (World S)
  unfolding read_filter
  get_all_products r w st =
      let (result, st') = get_all S (read_filter r.query) st in
      elim result [
        | ok products ↦
            done (response_json 200 "List semua produk" (some (encode_products products)) w) st'
        | err service_unavailable ↦
            done
              (response_error 503 "sistem sedang sibuk, silahkan coba beberapa saat lagi"
                (rw.set_header "Retry-After" "30" w))
              st'
        | err _ ↦ done (response_error 500 "Gagal mengambil data produk" w) st'
      ]

  unfoldable pub get_product_by_id : ℤ → W → World S → Outcome W (World S)
  get_product_by_id id w st =
      let (result, st') = get_by_id S id st in
      elim result [
        | err _ ↦ done (response_error 404 "Produk tidak ditemukan" w) st'
        | ok p ↦ done (response_json 200 "Detail produk" (some (encode_product p)) w) st'
      ]

  unfoldable pub create_product : Handler W (World S)
  create_product r w st =
      let (p, decoded) = unmarshal decode_product r.body zero_product in
      if decoded
      then elim (V.check_product p) [
        | some message ↦ done (response_error 400 ("Validation error: " <> message) w) st
        | none ↦
            let (result, st') = create S p st in
            elim result [
              | err _ ↦ done (response_error 500 "Gagal membuat produk" w) st'
              | ok p' ↦
                  done
                    (response_json 201 "Produk berhasil ditambahkan" (some (encode_product p')) w)
                    st'
            ]
      ]
      else done (response_error 400 "Invalid request payload" w) st

  -- The end of `UpdateProduct`, behind the checks.
  unfoldable pub apply_update : Product → W → World S → Outcome W (World S)
  apply_update p w st =
      let (failed, st') = update S p st in
      elim failed [
        | some _ ↦ done (response_error 500 "Gagal mengupdate produk" w) st'
        | none ↦ done (response_json 200 "Produk berhasil diupdate" (some (encode_product p)) w) st'
      ]

  unfoldable pub update_product_by_id : Request → W → World S → ℤ → Outcome W (World S)
  unfolding apply_update
  update_product_by_id r w st id =
      let (decoded_product, decoded) = unmarshal decode_product r.body zero_product in
      let p : Product = record decoded_product { id = id } in
      if decoded
      then elim (V.check_product p) [
        | some message ↦ done (response_error 400 ("Validation error: " <> message) w) st
        | none ↦
            let (result, st') = get_by_id S id st in
            elim result [
              | err _ ↦ done (response_error 404 "Produk tidak ditemukan" w) st'
              | ok _ ↦ apply_update p w st'
            ]
      ]
      else done (response_error 400 "Invalid request payload" w) st

  unfoldable pub delete_product_by_id : ℤ → W → World S → Outcome W (World S)
  delete_product_by_id id w st =
      let (result, st') = get_by_id S id st in
      elim result [
        | err _ ↦ done (response_error 404 "Produk tidak ditemukan" w) st'
        | ok _ ↦
            let (failed, st'') = delete S id st' in
            elim failed [
              | some _ ↦ done (response_error 500 "Gagal menghapus produk" w) st''
              | none ↦ done (response_json 200 "Produk berhasil dihapus" none w) st''
            ]
      ]

  unfoldable pub handle_create_product : Handler W (World S)
  handle_create_product = create_product

  unfoldable pub handle_update_product : Handler W (World S)
  unfolding parse_id
  handle_update_product r w st =
      let (parsed, w') = parse_id r w in
      elim parsed [ some id ↦ update_product_by_id r w' st id | none ↦ done w' st ]

  unfoldable pub handle_delete_product : Handler W (World S)
  unfolding parse_id
  handle_delete_product r w st =
      let (parsed, w') = parse_id r w in
      elim parsed [ some id ↦ delete_product_by_id id w' st | none ↦ done w' st ]

  unfoldable pub handle_get_product_by_id : Handler W (World S)
  unfolding parse_id
  handle_get_product_by_id r w st =
      let (parsed, w') = parse_id r w in
      elim parsed [ some id ↦ get_product_by_id id w' st | none ↦ done w' st ]
