-- ===== src/Transport/Resources/Roundtrip.antt =====
-- internal/transport/http/handlers_resoutces.go: a product that is posted and then got.
use billing_simulator.Base.{
  ℕ, suc, ◌≡◌, refl, String, ◌<>◌, true, false, ◌&&◌, any, none, some, List, [], ◌∷◌, ◌++◌, str_eq,
  str_eq_refl,
}
use billing_simulator.Entity.Errors.{returns, product_not_found}
use billing_simulator.Entity.Aggregate.{raise_event, generate_public_id, encode_hex}
use billing_simulator.Entity.Product.{Product, new_product}
use billing_simulator.Repository.Table.{find_first-inserted, insert, is_live, timestamp}
use billing_simulator.Repository.Products
use billing_simulator.Platform.Transaction.{Config, Weather, accepted}
use billing_simulator.Platform.Transaction.First.{execute_in_transaction-first}
use billing_simulator.Service.Call.{Meets}
use billing_simulator.Service.Products as ProductService
use billing_simulator.Service.Products.{create_product_body}
use billing_simulator.Transport.Response.{replied, to_product_response, answer, ProductResponse}
use billing_simulator.Transport.Resources.{CreateProductRequest, create_product, get_product, reply}

-- The public identifier that a draw of bytes makes.
abbrev public_id_of : List ℕ → String
public_id_of bytes = "prod" <> ("_" <> encode_hex bytes)

created :
    (m : Meets) (bytes : List ℕ) (name description : String) (rows : List Product)
    → (m.draw 0).bytes ≡ some bytes
    → m.fault 0 ≡ none
    → (p : Product) × (create_product_body raise_event m name description rows
        ≡ returns (p, rows ++ Products.stored_row p ∷ []))
      × (p.public_id ≡ public_id_of bytes)
      × (p.deleted_at ≡ none)
unfolding create_product_body new_product generate_public_id raise_event Products.create insert
created m bytes name description rows drawn quiet = rw (drawn, quiet) (_, refl, refl, refl)

-- With the Raise of DomainEvents, where the first attempt of the transaction meets no error, and no
-- live product has the public identifier that is drawn yet: POST /v1/products answers 201, and GET
-- /v1/products/:id, with the identifier of that answer, answers 200 with the same body, but for its
-- created_at, of which the table has kept the microseconds.
pub get_product-create_product :
    (c : Config) (weather : ℕ → Weather) (m : ℕ → Meets) (req : CreateProductRequest)
    (rows : List Product) (bytes : List ℕ) (k : ℕ)
    → c.max_attempts ≡ suc k
    → (weather 1).begin ≡ none
    → (weather 1).commit ≡ accepted
    → ((m 1).draw 0).bytes ≡ some bytes
    → (m 1).fault 0 ≡ none
    → any (λ p. str_eq p.public_id (public_id_of bytes) && is_live p.deleted_at) rows ≡ false
    → let r = create_product raise_event c weather m (some req) rows in
      (body : ProductResponse) × (r.0 ≡ some (replied 201 body))
      × (get_product body.id none r.1
          ≡ some (replied 200 (record body { created_at = timestamp body.created_at })))
unfolding create_product get_product Products.scan_row Products.stored_row to_product_response
    answer reply ProductService.create_product ProductService.get_product Products.get_by_public_id
get_product-create_product c weather m req rows bytes k tries begun committed drawn quiet fresh =
    let (p, made, named, live) = created (m 1) bytes req.name req.description rows drawn quiet in
    let first =
      execute_in_transaction-first c weather
        (λ i. create_product_body raise_event (m i) req.name req.description) k rows
        (rows ++ Products.stored_row p ∷ []) p tries begun committed made in
    let test = λ (q : Product). str_eq q.public_id p.public_id && is_live q.deleted_at in
    let absent : any test rows ≡ false = rw named fresh in
    let own : test (Products.stored_row p) ≡ true = rw (str_eq_refl p.public_id) refl in
    let found =
      find_first-inserted product_not_found test Products.scan_row rows (Products.stored_row p)
        absent own in
    (
      to_product_response p,
      rw (ProductService.create_product, first) refl,
      rw
          (
            ProductService.create_product, first, get_product, ProductService.get_product,
            Products.get_by_public_id, found,
          )
          refl,
    )
