-- ===== src/Discovery.antt =====
-- NAT discovery (pkg/natdiscovery): which IP of a remote endpoint to connect to, and whether with
-- NAT. `Remote` is the state machine of one endpoint, `Messages` the protocol, `Sending` and
-- `Answering` the two sides of it, and `Service` the table of endpoints with its operations.
pub mod Remote
pub mod Messages
pub mod Sending
pub mod Answering
pub mod Service
pub mod Moves
pub mod Polling
pub mod Invariant
pub mod History
pub mod Progress
pub mod Requests
pub mod Exchange
pub mod Unsent
mod Tests
