-- ===== src/OpenVote.antt =====
-- The Open Vote Network (open-vote-network/): shared types and cryptography, the off-chain
-- functions of a voter, and the voting contract.
mod Tests
pub mod Curve
pub mod Merkle
pub mod Util
pub mod Crypto
pub mod Types
pub mod Voting
pub mod OffChain
pub mod SmallCurve
