-- ===== src/Redis.antt =====
-- The Redis server as the services use it. The server itself is a parameter: `Redis` is a record of
-- its database type, of the way one command is executed, and of the documented behaviour of the
-- commands that the services send. The programs are values of `Client`: trees of requests, each
-- request a script that the server runs whole (a pipeline, or a Lua script).
pub mod Commands
pub mod Program
pub mod Simulation
pub mod Pipeline
pub mod Sends
pub mod Spares
pub mod Raising
pub mod Ensures
pub mod Reading
pub mod Keeping
pub mod Returns
pub use Commands.*
pub use Program.*
