-- ===== src/Product.antt =====
-- product/src/cyrene_reactor_product.
pub mod Receipts
pub mod Errors
pub mod Domain
pub mod Exec
pub mod Store
pub mod Service
pub mod Owner
