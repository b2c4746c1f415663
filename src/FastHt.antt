-- ===== src/FastHt.antt =====
-- src/hashtable/fast-ht.c: the fast hash table, from a bag of slots to the table of buckets.
pub mod Bag
pub mod Bucket
pub mod Table
mod Tests
