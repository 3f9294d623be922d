-- ===== src/Delivery.antt =====
-- internal/engine/delivery.go and internal/store/store_lookups.go: how workers share the delivery
-- of notifications.
pub mod Claims
pub mod Cases
pub mod Protocol
pub mod Budget
