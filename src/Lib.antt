-- ===== src/Lib.antt =====
-- An order service in the style of domain-driven design, as a model with proofs.
--
-- The program takes requests for orders and stock (src/application/service.rs), changes the
-- aggregates `Order` and `Inventory` (src/domain/model), saves them through repository ports
-- (src/domain/port.rs) and publishes domain events (src/domain/event.rs) on a bus
-- (src/adapter/driven/event_bus.rs). The bus calls the handlers that src/main.rs subscribes
-- (src/domain/handler.rs, wrapped by src/domain/event_bus.rs): they reserve stock, ship and
-- deliver, notify, and compensate for what failed; they publish further events on the same bus.
--
-- The files and what they model:
--   Prelude/*            actions with results and panics, `u32` and `i64` arithmetic, texts,
--                        invariants of actions and how sequences of them run
--   Error                the errors of src/domain/error.rs, src/domain/port.rs,
--                        src/domain/event_bus.rs and src/application/error.rs
--   Value/*              src/domain/model/value_objects.rs
--   Order, Order/*       src/domain/model/order.rs: a method that takes `&mut self` is an action
--                        on the order; its invariant, its states, its lines and its total
--   Inventory/*          src/domain/model/inventory.rs
--   World/*              the state that the components share, the events as data, and what
--                        comes from outside the repository (`Env`)
--   Event/*              the constructors of src/domain/event.rs
--   Port                 the repositories, as the in-memory ones in src/domain/handler.rs
--   Serialization/*      src/domain/serialization.rs over serde's functions
--   Handler/*            src/domain/handler.rs, one file for each handler, and the proofs on the
--                        reservation of stock, on second deliveries and on compensation
--   Bus/*                src/adapter/driven/event_bus.rs and src/domain/event_bus.rs
--   Wiring/*             the subscriptions of src/main.rs
--   Service/*            src/application/service.rs; Service/Listing its list queries
--   Mysql/*              src/adapter/driven/order_repository.rs and inventory_repository.rs: the
--                        tables of migrations/*.sql, the statements and queries, the transaction,
--                        and (Mysql/Refinement/*) the tables as a representation of the ports' maps
--   Api, Api/*           src/adapter/driver: the endpoints and routes, the bodies of requests and
--                        answers, and what an answer says of the data
--   Config/*, Migration/*, Console/*
--                        src/adapter/database_config.rs, database_migration.rs and
--                        src/adapter/driven/console_logger.rs
--   Soundness/*          what the handlers, the bus and the services keep
--   Tests/*              the theorems at concrete inputs
--
-- State is passed explicitly. An action on the world returns `ok`, `err` or `panic` together with
-- the world as it left it, since nothing is rolled back. A build is a parameter: `debug` panics
-- when `u32` or `i64` arithmetic overflows, `release` wraps around.
--
-- Parameters (`Env`): which repository calls fail, the identifiers and times that are drawn,
-- `tokio`'s timeout, serde's functions, and the printing of numbers and identifiers. UUIDs are
-- numbers, and 0 is the nil UUID. Handlers are called one after the other, as the bus does.
--
-- The MySQL repositories act on a state of their own, `Mysql.Driver.Store`: the tables and a count
-- of calls. `Driver` is the database behind `sqlx`: any call of it may fail, and what it does when
-- it does not is the hypothesis `Mysql.Refinement.IsFaithful`, and `Mysql.Refinement.Building.IsListing`
-- for the list queries: the rows, and the entries of the `HashMap` that groups them, may come in any
-- order. A transaction that is dropped before its commit, or whose commit reports an error, leaves
-- the tables of before. `Console.Platform` is the clock, the printing and the walk through a
-- `HashMap` of the logger.
--
-- Bounds: the bus of src/main.rs publishes inside its handlers, so `event_bus` takes the depth of
-- nesting and panics below it. An event of the subscribed handlers leads to at most two more in a
-- row (a failed reservation, then the cancelled order), so a depth of 3 is enough for the program;
-- what is said of `event_bus` holds for every depth.
--
-- Not modelled: the start of the server and of the pool in src/main.rs, the matching of paths and
-- the decoding of requests (axum, serde), the time stamps of rows, the context maps of the log
-- entries that the handlers write, locks and waiting.
pub mod Prelude
pub mod Error
pub mod Value
pub mod Order
pub mod Inventory
pub mod World
pub mod Event
pub mod Port
pub mod Serialization
pub mod Handler
pub mod Bus
pub mod Wiring
pub mod Service
pub mod Soundness
pub mod Tests
pub mod Mysql
pub mod Api
pub mod Config
pub mod Console
pub mod Migration
