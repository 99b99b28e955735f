-- ===== src/Utils/Response.antt =====
-- utils/response.go
use belajar_backend_go_v.Base.{ℕ, Option, none, some, String}
use belajar_backend_go_v.Json.{Json, str, obj, Members, end, member}
use belajar_backend_go_v.Http.{ResponseWriter, json_content}

pub record ApiResponse : Type 0 where
  pub status : String
  pub message : String
  -- `none` is a nil interface, which `omitempty` leaves out
  pub payload : Option Json

encode_payload : Option Json → Members
encode_payload none = end
encode_payload (some j) = member "data" j end

unfoldable pub encode_response : ApiResponse → Json
unfolding encode_payload
encode_response r =
    obj
      (member "status" (str r.status) (member "message" (str r.message) (encode_payload r.payload)))

module _ {W : Type 0} ⦃rw : ResponseWriter W⦄ where
  unfoldable pub response_json : ℕ → String → Option Json → W → W
  unfolding encode_response
  response_json code message payload w =
      rw.write
        (json_content
          (encode_response (record { status = "success"; message = message; payload = payload })))
        (rw.write_header code (rw.set_header "Content-Type" "application/json" w))

  unfoldable pub response_error : ℕ → String → W → W
  unfolding encode_response
  response_error code message w =
      rw.write
        (json_content
          (encode_response (record { status = "error"; message = message; payload = none })))
        (rw.write_header code (rw.set_header "Content-Type" "application/json" w))
