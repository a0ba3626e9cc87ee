-- ===== src/Handler.antt =====
-- internal/handler: the handler of a location.
pub mod Headers
pub mod Transport
pub mod Serve
mod Tests
use peretum.Prelude.{◌≡◌, refl}
