-- ===== src/Wire/RoundTrip.antt =====
-- A message made from the serialized text of another has the same contents: the serializers of
-- spore_c/source/*.cpp against `spore_*_create_from_raw` of spore_c/source/spore_c.cpp.
pub mod Request
pub mod Witness
pub mod Publish
pub mod Response
pub mod ErrorItems
pub mod ResponseError
