-- ===== src/MsgQ.antt =====
-- linux/src/msgQ.c and linux/include/msgQ.h: clients and servers over System V message queues, with
-- events that a server sends to the clients registered with it.
pub mod System
pub mod Commands
pub mod Server
pub mod Files
pub mod Events
pub mod Client
pub mod Ring
pub mod View
pub mod Registry
pub mod Adding
pub mod Removing
pub mod Registered
pub mod Finding
pub mod Responding
pub mod Registering
pub mod Monitoring
pub mod Clearing
pub mod Starting
pub mod Broadcast
pub mod Queue
pub mod Exchange
pub mod Sample
mod Tests
mod ExchangeTests
