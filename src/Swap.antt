-- ===== src/Swap.antt =====
-- Paging to disk, os_final_project/code/kern/paging_utils.c: the swap blocks and the list of
-- frames in use.
pub mod Blocks
pub mod Frames
mod Tests
