-- ===== src/Payments.antt =====
-- payments/: the two payment repositories behind their interface, and the service that releases the
-- seat of a failed payment.
pub mod Repository
pub mod Service
pub mod Holding
pub mod Release
pub mod Handlers
pub mod Signed
