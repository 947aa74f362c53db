-- ===== src/Wire.antt =====
-- spore_c/source/: messages on the node's side of the wire.
pub mod Map
pub mod Message
pub mod Raw
pub mod Copies
pub mod ErrorFields
pub mod LineEnds
pub mod Items
pub mod Scan
pub mod ScanItems
pub mod Rebuild
pub mod Sorted
pub mod SortedSet
pub mod SetEquality
pub mod MapEquality
pub mod Additions
pub mod Reparse
pub mod Populate
pub mod Replies
pub mod RoundTrip
