-- ===== src/Error.antt =====
-- The error types of the layers and how they are displayed: domain/error.rs,
-- domain/port.rs (RepositoryError, EventBusError), domain/event_bus.rs (HandlerError),
-- application/error.rs (ApplicationError).
use ddd_samples.Prelude.{String, ◌+++◌}

pub data DomainError : Type 0 where
  invalid_order_state : String → DomainError
  insufficient_inventory invalid_quantity : DomainError
  invalid_address order_validation : String → DomainError
  currency_mismatch : DomainError
  invalid_value : String → DomainError

pub data RepositoryError : Type 0 where
  connection_failed operation_failed fetch_failed : String → RepositoryError

pub data EventBusError : Type 0 where
  publishing_failed : String → EventBusError

pub data HandlerError : Type 0 where
  processing_failed repository_error domain_error transient_error permanent_error :
      String → HandlerError

pub data ApplicationError : Type 0 where
  domain : DomainError → ApplicationError
  repository : RepositoryError → ApplicationError
  event_publishing_failed not_found : String → ApplicationError

-- `impl Display for DomainError`
unfoldable pub show_domain_error : DomainError → String
show_domain_error (DomainError.invalid_order_state msg) = "Invalid order state: " +++ msg
show_domain_error DomainError.insufficient_inventory = "Insufficient inventory"
show_domain_error DomainError.invalid_quantity = "Invalid quantity"
show_domain_error (DomainError.invalid_address msg) = "Invalid address: " +++ msg
show_domain_error (DomainError.order_validation msg) = "Order validation failed: " +++ msg
show_domain_error DomainError.currency_mismatch = "Currency mismatch"
show_domain_error (DomainError.invalid_value msg) = "Invalid value: " +++ msg

-- `impl Display for RepositoryError`
unfoldable pub show_repository_error : RepositoryError → String
show_repository_error (RepositoryError.connection_failed msg) = "Connection failed: " +++ msg
show_repository_error (RepositoryError.operation_failed msg) = "Operation failed: " +++ msg
show_repository_error (RepositoryError.fetch_failed msg) = "Fetch failed: " +++ msg

-- The `#[error("Event publishing failed: {0}")]` of EventBusError.
unfoldable pub show_event_bus_error : EventBusError → String
show_event_bus_error (EventBusError.publishing_failed msg) = "Event publishing failed: " +++ msg

-- The `#[error(…)]` attributes of HandlerError.
unfoldable pub show_handler_error : HandlerError → String
show_handler_error (HandlerError.processing_failed msg) = "Handler processing failed: " +++ msg
show_handler_error (HandlerError.repository_error msg) = "Repository error: " +++ msg
show_handler_error (HandlerError.domain_error msg) = "Domain error: " +++ msg
show_handler_error (HandlerError.transient_error msg) = "Transient error (retryable): " +++ msg
show_handler_error (HandlerError.permanent_error msg) = "Permanent error (not retryable): " +++ msg

-- `impl Display for ApplicationError`
unfoldable pub show_application_error : ApplicationError → String
show_application_error (ApplicationError.domain err) = "Domain error: " +++ show_domain_error err
show_application_error (ApplicationError.repository err) =
    "Repository error: " +++ show_repository_error err
show_application_error (ApplicationError.event_publishing_failed msg) =
    "Event publishing failed: " +++ msg
show_application_error (ApplicationError.not_found msg) = "Not found: " +++ msg
