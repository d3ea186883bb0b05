-- ===== src/Player.antt =====
-- The player of app/player.c: the status of the producer (which decodes a track into the buffer) and of
-- the consumer (which plays the buffer), and the functions that the rest of the program calls.
pub mod State
pub mod Producer
pub mod Consumer
pub mod Api
pub mod Seek
mod Code
pub mod Sound
pub mod Prebuffer
pub mod Calls
mod Kept
pub mod Safety
pub mod Behaviour
pub mod Overrun
mod Tests
