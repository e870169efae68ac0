-- ===== src/Api/Registry.antt =====
-- The calls of internal/api/client.go about the services and the server itself.
use seawise_client.Prelude.{
  Option, none, some, List, [], ◌∷◌, ◌++◌, eqb, if◌then◌else◌, ℤ, is_empty,
}
use seawise_client.Prelude.Bytes.{Bytes, lit}
use seawise_client.Services.Registration.{BatchServiceInput, BatchRegisterResult}
use seawise_client.Api.{
  Json, text, number, object, array, no_fields, field, Items, no_items, item, Response, Http,
  ApiClient, refused, Result, ok, err, Exchange, and_then, read_response_body, is_success_status,
  is_ok, exchange_json, exchange_empty, decoded, accepted,
}

-- api.Service
pub record ApiService : Type 0 where
  pub id : Bytes
  pub name : Bytes
  pub host : Bytes
  pub port : ℤ
  pub subdomain : Bytes
  pub status : Bytes

pub record ServiceHealthStatus : Type 0 where
  pub id : Bytes
  pub status : Bytes

pub record RegistryDecoders : Type 0 where
  pub service : Bytes → Option ApiService
  pub batch : Bytes → Option (List BatchRegisterResult)
  pub services : Bytes → Option (List ApiService)

unfoldable pub register_payload : Bytes → Bytes → Bytes → ℤ → Json
register_payload server_id name host port = object (
    field (lit "server_id") (text server_id) (
      field (lit "name") (text name)
        (field (lit "host") (text host) (field (lit "port") (number port) no_fields))))

-- An empty icon is left out.
unfoldable pub batch_input : BatchServiceInput → Json
batch_input s = object (
    field (lit "name") (text s.input_name) (
      field (lit "host") (text s.input_host) (
        field (lit "port") (number s.input_port) (
          if is_empty s.input_icon_url
          then no_fields
          else field (lit "icon_url") (text s.input_icon_url) no_fields))))

unfoldable pub items_of : {A : Type 0} → (A → Json) → List A → Items
items_of f [] = no_items
items_of f (x ∷ xs) = item (f x) (items_of f xs)

unfoldable pub batch_payload : Bytes → List BatchServiceInput → Json
unfolding batch_input items_of
batch_payload server_id services = object (
    field (lit "server_id") (text server_id)
      (field (lit "services") (array (items_of batch_input services)) no_fields))

unfoldable pub health_payload : List ServiceHealthStatus → Json
unfolding items_of
health_payload statuses = object (
    field (lit "services")
      (array (
        items_of
          (λ s.
            object (field (lit "id") (text s.id) (field (lit "status") (text s.status) no_fields)))
          statuses))
      no_fields)

-- The URL of a server, up to its id.
unfoldable pub server_url : Bytes → Bytes → ApiClient → Bytes
server_url server_id rest c = c.base_url ++ lit "/api/servers/" ++ server_id ++ rest

module _ (h : Http) where
  unfoldable pub health_answer : Response → Result (Unit {0})
  unfolding read_response_body
  health_answer resp =
      if eqb resp.status_code 200
      then ok tt
      else err (refused (elim (read_response_body resp) [ none ↦ [] | some content ↦ content ]))

  unfoldable pub report_service_health :
      Bytes → List ServiceHealthStatus → ApiClient → Exchange (Unit {0})
  unfolding exchange_json health_payload server_url health_answer
  report_service_health server_id statuses c =
      and_then
        (exchange_json h (lit "PATCH") (server_url server_id (lit "/services/health") c)
          (some c.frp_token) (health_payload statuses))
        health_answer

  unfoldable pub mark_offline : Bytes → ApiClient → Exchange (Unit {0})
  unfolding exchange_empty server_url accepted
  mark_offline server_id c =
      and_then
        (exchange_empty h (lit "POST") (server_url server_id (lit "/offline") c) (some c.frp_token))
        (accepted h is_success_status)

  unfoldable pub delete_server : Bytes → ApiClient → Exchange (Unit {0})
  unfolding exchange_empty server_url accepted
  delete_server server_id c =
      and_then
        (exchange_empty h (lit "DELETE") (server_url server_id (lit "/disconnect") c)
          (some c.frp_token))
        (accepted h is_success_status)

  unfoldable pub delete_service : Bytes → Bytes → ApiClient → Exchange (Unit {0})
  unfolding exchange_empty server_url accepted
  delete_service server_id service_id c =
      and_then
        (exchange_empty h (lit "DELETE") (server_url server_id (lit "/services/" ++ service_id) c)
          (some c.frp_token))
        (accepted h is_success_status)

module _ (h : Http) (d : RegistryDecoders) where
  unfoldable pub register_service : Bytes → Bytes → Bytes → ℤ → ApiClient → Exchange ApiService
  unfolding exchange_json register_payload decoded
  register_service server_id name host port c =
      and_then
        (exchange_json h (lit "POST") (c.base_url ++ lit "/api/services/register")
          (some c.frp_token) (register_payload server_id name host port))
        (decoded h is_success_status d.service)

  -- No service is no call.
  unfoldable pub batch_register_services :
      Bytes → List BatchServiceInput → ApiClient → Exchange (List BatchRegisterResult)
  unfolding exchange_json batch_payload decoded
  batch_register_services server_id [] c = (ok [], [])
  batch_register_services server_id (s ∷ ss) c =
      and_then
        (exchange_json h (lit "POST") (c.base_url ++ lit "/api/services/register/batch")
          (some c.frp_token) (batch_payload server_id (s ∷ ss)))
        (decoded h is_success_status d.batch)

  unfoldable pub list_services : Bytes → ApiClient → Exchange (List ApiService)
  unfolding exchange_empty server_url decoded
  list_services server_id c =
      and_then
        (exchange_empty h (lit "GET") (server_url server_id (lit "/services") c) (some c.frp_token))
        (decoded h is_ok d.services)
