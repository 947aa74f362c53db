-- ===== src/Capi.antt =====
-- spore_c/source/spore_c.cpp: the C interface of the client.
pub mod Texts
pub mod ArgApi
pub mod Request
pub mod Response
pub mod ResponseError
pub mod Witness
pub mod Publish
pub mod Client
pub mod Kinds
