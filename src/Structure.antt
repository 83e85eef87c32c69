-- ===== src/Structure.antt =====
-- lib/structure: the bitmap, the linked list and the ring buffer of the kernel.
pub mod BitMap
pub mod LinkedList
pub mod IoQueue
