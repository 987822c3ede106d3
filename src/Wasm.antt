-- ===== src/Wasm.antt =====
-- cmd/wasm: the simulation behind the calls that the browser makes.
pub mod Engine
pub mod Calls
pub mod Session
pub mod Ready
