-- ===== src/Handler/Checkout/Runs.antt =====
-- Any run of requests to `POST /checkout`.
use belajar_backend_go_v.Base.{
  ◌≡◌, ap, inl, inr, some, List, [], ◌∷◌, ℤ, pos, ◌≤ℤ◌, ◌-ℤ◌, int_laws, arith, eqb_ℤ, eqb_ℤ_iff,
  Bool-cases, true,
}
use belajar_backend_go_v.Json.{unmarshal}
use belajar_backend_go_v.Models.{Product, CheckoutRequest, zero_checkout, checkout_tags}
use belajar_backend_go_v.Models.Codec.{decode_checkout}
use belajar_backend_go_v.Services.{Services, World, Validator}
use belajar_backend_go_v.Services.Laws.{IsValidator}
use belajar_backend_go_v.Http.{Request, fresh_response, http_writer}
use belajar_backend_go_v.Repository.Contract.{Tables, IsDatabase, IsAtomic}
use belajar_backend_go_v.Repository.Checkout.Conservation.{Kept, Kept-refl, Kept-trans, Sold-Kept}
use belajar_backend_go_v.Repository.Checkout.Atomic.{Sold}
use belajar_backend_go_v.Handler.Status.{state_of}
use belajar_backend_go_v.Handler.Checkout.{handle_checkout}
use belajar_backend_go_v.Handler.Checkout.Replies.{handle_checkout_lem}

-- A product's stock has not grown, and is not negative if it was not.
abbrev pub Fell : Product → Product → Type 0
Fell p q = (q.stock ≤ℤ p.stock) × (pos 0 ≤ℤ p.stock → pos 0 ≤ℤ q.stock)

checkout_tags-positive : (r : CheckoutRequest) → checkout_tags r ≡ true → pos 1 ≤ℤ r.quantity
unfolding checkout_tags
checkout_tags-positive r h = ground arith

Sold-Fell :
    (user_id : ℤ) (req : CheckoutRequest) (total : ℤ) (before after : Tables) (id : ℤ)
    (p q : Product)
    → Sold user_id req total before after
    → before.product id ≡ some p
    → after.product id ≡ some q
    → pos 1 ≤ℤ req.quantity
    → Fell p q
Sold-Fell user_id req total before after id p q s e f positive =
    let row = ap (λ (t : Tables). t.product id) s.changed in
    elim (Bool-cases (eqb_ℤ id req.product_id)) [
      | inl same ↦
          let here : id ≡ req.product_id = (eqb_ℤ_iff id req.product_id).0 same in
          let old : s.product ≡ p = cc (s.found, here, e) in
          let new : q ≡ record s.product { stock = s.product.stock -ℤ req.quantity } =
            ground (arith, row, f, same) in
          rw (new, old)
            (let enough : req.quantity ≤ℤ p.stock = rw old at s.enough in
              (omega (int_laws, enough, positive), λ _. omega (int_laws, enough)))
      | inr other ↦
          let kept : q ≡ p = ground (arith, row, f, other, e) in rw kept (omega arith, λ h. h)
    ]

module _ (S : Services) (V : Validator) where
  -- Requests served one after the other; some may be refused.
  pub serve_checkouts : List Request → World S → World S
  serve_checkouts [] w = w
  serve_checkouts (r ∷ rs) w =
      serve_checkouts rs (state_of (handle_checkout S V r fresh_response w))

  module _ (L : IsDatabase S) (A : IsAtomic S L) (T : IsValidator V) where
    one_checkout :
        (r : Request) (w : World S) (id : ℤ) (p : Product)
        → (L.tables w.db).product id ≡ some p
        → let t' = L.tables (state_of (handle_checkout S V r fresh_response w)).db in
          (k : Kept id p (L.tables w.db) t') × Fell p k.product
    unfolding Kept-refl
    one_checkout r w id p e = elim (handle_checkout_lem S V L A r w) [
      | inl (_, user_id, (_, passed, total, sold)) ↦
          let req : CheckoutRequest = (unmarshal decode_checkout r.body zero_checkout).0 in
          let k = Sold-Kept user_id req total (L.tables w.db) _ id p sold e in
          (
            k,
            Sold-Fell user_id req total (L.tables w.db) _ id p k.product sold e k.found
                (checkout_tags-positive req ((T.checkout req).0 passed)),
          )
      | inr (_, same, _) ↦ rw same (Kept-refl id p (L.tables w.db) e, (omega arith, λ h. h))
    ]

    -- Over any run of `POST /checkout` requests, whatever their bodies and users and whether they
    -- are refused, a product stays at its name and price, its stock and the units of it that were
    -- sold add up to what they did before, its stock does not grow, and it does not become negative.
    pub serve_checkouts-Kept :
        (rs : List Request) (w : World S) (id : ℤ) (p : Product)
        → (L.tables w.db).product id ≡ some p
        → (k : Kept id p (L.tables w.db) (L.tables (serve_checkouts rs w).db)) × Fell p k.product
    unfolding serve_checkouts Kept-refl Kept-trans
    serve_checkouts-Kept [] w id p e = (Kept-refl id p (L.tables w.db) e, (omega arith, λ h. h))
    serve_checkouts-Kept (r ∷ rs) w id p e =
        let w' : World S = state_of (handle_checkout S V r fresh_response w) in
        let (first, (less, floor)) = one_checkout r w id p e in
        let (rest, (less', floor')) = serve_checkouts-Kept rs w' id first.product first.found in
        (
          Kept-trans id p (L.tables w.db) (L.tables w'.db) (L.tables (serve_checkouts rs w').db)
              first rest,
          (omega (arith, less, less'), λ h. floor' (floor h)),
        )
