-- ===== src/Lobby.antt =====
-- bpserver/lobby.go: the shared lobby. Every operation holds the lobby lock, so each is one step of
-- the server's state.
pub mod Merge
pub mod Flags
pub mod Roster
pub mod Ops
pub mod Notify
