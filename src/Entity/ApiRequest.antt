-- ===== src/Entity/ApiRequest.antt =====
-- internal/entity/api_request.go. JSON is its text, and the headers are the pairs of their map.
use billing_simulator.Base.{ℕ, String, Option, List, Time}
use billing_simulator.Entity.Events.{Uuid}

pub record ApiRequest : Type 0 where
  pub id : Uuid
  pub trace_id : Uuid
  pub method : String
  pub path : String
  pub query_params : String
  pub request_body : String
  pub headers : List (String × String)
  pub response_status : ℕ
  pub response_body : String
  pub ip_address : String
  pub user_agent : String
  pub duration_ms : ℕ
  pub customer_id : Option Uuid
  pub created_at : Time
