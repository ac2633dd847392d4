-- ===== src/Api.antt =====
-- The REST interface of adapter/driver: what a request carries, and how an error of the services
-- becomes an answer.
pub mod Responses
pub mod Endpoints
pub mod Totals
pub mod Refusals
pub mod Routes
use ddd_samples.Prelude.{ℕ, String, Option}
use ddd_samples.Prelude.Int.{ℤ}
use ddd_samples.Error.{DomainError, ApplicationError, show_repository_error}
use ddd_samples.Value.{Uuid}

-- The status codes of `http` that the endpoints use.
pub data StatusCode : Type 0 where
  status_ok created bad_request not_found internal_server_error : StatusCode

pub record ApiError : Type 0 where
  pub error : String
  pub code : String

-- The `Err` of an endpoint: a status and a JSON body.
pub record Refusal : Type 0 where
  pub status : StatusCode
  pub body : ApiError

-- The bodies of the requests, and the query parameters.
pub record CreateOrderRequest : Type 0 where
  pub customer_id : Option Uuid

pub record AddBookRequest : Type 0 where
  pub book_id : Uuid
  pub quantity : ℕ  -- u32
  pub unit_price : ℤ  -- i64

pub record SetShippingAddressRequest : Type 0 where
  pub postal_code : String
  pub prefecture : String
  pub city : String
  pub address_line1 : String
  pub address_line2 : Option String

pub record CreateInventoryRequest : Type 0 where
  pub book_id : Uuid
  pub quantity : ℕ  -- u32

pub record OrdersQueryParams : Type 0 where
  pub status : Option String

pub record InventoryQueryParams : Type 0 where
  pub max_quantity : Option ℕ  -- u32

abbrev pub refusal : StatusCode → String → String → Refusal
refusal status error code = record { status = status; body = record { error = error; code = code } }

-- `map_domain_error`
unfoldable pub map_domain_error : DomainError → Refusal
map_domain_error (DomainError.invalid_address msg) = refusal bad_request msg "INVALID_ADDRESS"
map_domain_error DomainError.invalid_quantity = refusal bad_request "無効な数量です" "INVALID_QUANTITY"
map_domain_error (DomainError.invalid_value msg) = refusal bad_request msg "INVALID_VALUE"
map_domain_error (DomainError.invalid_order_state msg) =
    refusal bad_request msg "INVALID_ORDER_STATE"
map_domain_error DomainError.insufficient_inventory =
    refusal bad_request "在庫不足です" "INSUFFICIENT_INVENTORY"
map_domain_error (DomainError.order_validation msg) = refusal bad_request msg "ORDER_VALIDATION"
map_domain_error DomainError.currency_mismatch = refusal bad_request "通貨が一致しません" "CURRENCY_MISMATCH"

-- `map_application_error`
unfoldable pub map_application_error : ApplicationError → Refusal
map_application_error (ApplicationError.domain domain_err) = map_domain_error domain_err
map_application_error (ApplicationError.repository repo_err) =
    refusal internal_server_error (show_repository_error repo_err) "REPOSITORY_ERROR"
map_application_error (ApplicationError.event_publishing_failed msg) =
    refusal internal_server_error msg "EVENT_PUBLISHING_ERROR"
map_application_error (ApplicationError.not_found msg) = refusal not_found msg "NOT_FOUND"
