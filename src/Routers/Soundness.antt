-- ===== src/Routers/Soundness.antt =====
-- The database stays sound over every sequence of requests to licensing-master/src/routers.py.
pub mod UseCases
pub mod Logins
pub mod Sequences
