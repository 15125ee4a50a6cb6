-- ===== src/Response.antt =====
-- at_response.cpp: what the driver does with each line of the modem.
pub mod Ok
pub mod Error
pub mod Parse
pub mod Creg
pub mod Status
pub mod Call
pub mod CallEnd
pub mod Registered
pub mod Explained
pub mod Sms
pub mod Pin
pub mod Ttys
pub mod Answered
pub mod Queue
pub mod Sent
pub mod Dispatch
pub mod Laws
mod Tests
