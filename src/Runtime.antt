-- ===== src/Runtime.antt =====
-- The freestanding runtime library: runtime/runtime.c and runtime/divdi3.c.
pub mod Memory
pub mod Compare
pub mod Search
pub mod Copy
pub mod Bounded
pub mod Divide
pub mod Numbers
mod Examples
