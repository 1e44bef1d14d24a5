-- ===== src/Autodiff.antt =====
-- autodiff: terms, and their compiled form, a tape that is evaluated and differentiated.
pub mod Doubles
pub mod Term
pub mod Tape
pub mod Tests
