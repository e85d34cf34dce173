-- ===== src/Net/Circular.antt =====
-- `boost::circular_buffer`, which the library takes from Boost: an interface with Boost's documented
-- behaviour, and a plain buffer that meets it.
mod Interface
pub mod Plain
pub use Interface.*
