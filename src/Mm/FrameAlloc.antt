-- ===== src/Mm/FrameAlloc.antt =====
-- frame/src/mm/frame_alloc.rs: the allocator of physical frames. What its statics hold is the
-- state; each function runs under the allocator's lock, so it takes the state and gives it back. A
-- loop on `compare_exchange_weak` is the one exchange that succeeds. The buddy allocator is a crate
-- of its own: its operations are a parameter.
pub mod Buddy
pub mod Regions
pub mod Boot
pub mod Counts
mod Tests
