-- ===== src/Mysql.antt =====
-- The MySQL repositories: adapter/driven/order_repository.rs, adapter/driven/inventory_repository.rs,
-- adapter/database_error.rs and the tables of migrations/.
pub mod Tables
pub mod Driver
pub mod Orders
pub mod Stock
pub mod Refinement
