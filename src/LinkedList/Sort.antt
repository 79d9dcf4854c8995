-- ===== src/LinkedList/Sort.antt =====
-- list_sort: every input is sorted, in the passes that the fuel allows, and nothing is lost.
pub mod Order
pub mod Runs
pub mod Merge
pub mod Pass
pub mod Correct
