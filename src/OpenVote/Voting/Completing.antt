-- ===== src/OpenVote/Voting/Completing.antt =====
-- open-vote-network/voting/src/lib.rs: an election of honest voters, from `setup` to the votes.
pub mod Accepts
pub mod Seats
pub mod Stages
pub mod Registering
pub mod Committing
pub mod Balloting
pub mod Finishing
