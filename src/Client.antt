-- ===== src/Client.antt =====
-- spore_c/source/client.{h,cpp}: the connection of a node to the daemon.
pub mod State
pub mod Handlers
pub mod Platform
pub mod Connect
pub mod Send
pub mod Frame
pub mod Dispatch
pub mod Listen
pub mod Stream
pub mod Defined
pub mod Messages
pub mod Sockets
pub mod Registry
pub mod Outcome
pub mod Calls
pub mod Delivery
pub mod Arrival
pub mod Refused
pub mod Shapes
pub mod Packets
pub mod InOrder
pub mod Fuel
pub mod Handshake
pub mod HandlerOrder
pub mod Freeing
pub mod Holding
pub mod Lifetime
pub mod Threads
