-- ===== src/Room.antt =====
-- Server/Game/Room: a table of four players and its game.
pub mod State
pub mod Notify
pub mod Seats
pub mod EndGame
pub mod Turn
pub mod Lobby
pub mod Manager
