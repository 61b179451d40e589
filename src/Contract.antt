-- ===== src/Contract.antt =====
-- What the contracts take from the Concordium platform (concordium-std, a library that they call):
-- addresses and contexts as data, the host that holds the balance as an interface, and the
-- outcome of an entrypoint: a value, a rejection, or a trap (`unwrap` of nothing).
mod Monad
mod Platform
pub mod StateMap
pub mod Ledger
pub use Monad.*
pub use Platform.*
