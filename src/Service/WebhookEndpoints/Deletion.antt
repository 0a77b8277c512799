-- ===== src/Service/WebhookEndpoints/Deletion.antt =====
-- internal/service/webhook_endpoint.go and internal/repository/webhook_endpoint.go: what a deletion
-- does.
use billing_simulator.Base.{
  ◌≡◌, refl, subst, some, Bool, true, false, ◌&&◌, none, List, Time, ◌==◌, arith, any, Bool-cases,
  inl, inr,
}
use billing_simulator.Entity.Errors.{returns, fails, webhook_endpoint_not_found}
use billing_simulator.Entity.Events.{Uuid}
use billing_simulator.Entity.WebhookEndpoint.{WebhookEndpoint}
use billing_simulator.Repository.Table.{
  find_first-missing, update_or, update_where, update_where-any, is_live,
}
use billing_simulator.Repository.WebhookEndpoints
use billing_simulator.Repository.WebhookEndpoints.{soft_delete}
use billing_simulator.Service.WebhookEndpoints.{delete_endpoint}

-- The WHERE clause of `SoftDelete`
abbrev is_kept : Uuid → WebhookEndpoint → Bool
is_kept id row = row.id == id && is_live row.deleted_at

no_live : (b : Bool) → (b && false) ≡ false
no_live true = refl
no_live false = refl

-- After a deletion that succeeds, no row with the identifier is live.
none_kept :
    (at : Time) (id : Uuid) (rows rows' : List WebhookEndpoint)
    → soft_delete at id none rows ≡ returns rows'
    → any (is_kept id) rows' ≡ false
unfolding soft_delete update_or
none_kept at id rows rows' h = elim (Bool-cases (any (is_kept id) rows)) [
  | inr e ↦ absurd (ground (arith, e, h))
  | inl e ↦
      let delete =
        λ (row : WebhookEndpoint). record row { deleted_at = some at; enabled = false } in
      let after : update_where (is_kept id) delete rows ≡ rows' = ground (arith, e, h) in
      subst (λ xs. any (is_kept id) xs ≡ false) after
        (update_where-any (is_kept id) delete rows λ row. no_live (row.id == id))
]

-- Once DeleteEndpoint has succeeded, the endpoint is not found by its identifier, and a second
-- deletion of it, at any time, fails as that of an endpoint that does not exist.
pub delete_endpoint-gone :
    (at later : Time) (id : Uuid) (rows rows' : List WebhookEndpoint)
    → delete_endpoint at id none rows ≡ returns rows'
    → (WebhookEndpoints.get_by_id id none rows' ≡ fails webhook_endpoint_not_found)
      × (delete_endpoint later id none rows' ≡ fails webhook_endpoint_not_found)
unfolding delete_endpoint WebhookEndpoints.get_by_id soft_delete update_or
delete_endpoint-gone at later id rows rows' h =
    let gone = none_kept at id rows rows' h in
    (
      find_first-missing webhook_endpoint_not_found (is_kept id) WebhookEndpoints.scan_row rows'
          gone,
      rw gone refl,
    )
