-- ===== src/Reconcile.antt =====
-- internal/controller/databasequeryresource_controller.go: `Reconcile`.
pub mod Rows
pub mod Managed
pub mod Full
pub mod Cleanup
pub mod Entry
