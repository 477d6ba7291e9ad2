-- ===== src/Mm.antt =====
-- kernel/src/process_model/memory_map.rs: the map of a process's address space, and
-- frame/src/mm/frame_alloc.rs: the allocator of the physical frames that back it.
pub mod Vma
pub mod MmapState
pub mod FrameAlloc
