-- ===== src/Pdu.antt =====
-- pdu.cpp: the messages between the driver and the modem, as strings of hex digits.
pub mod Octet
pub mod Status
pub mod Udh
pub mod Binary
pub mod Text
pub mod Bits
pub mod Packed
pub mod Unpacked
pub mod TextRoundtrip
pub mod State
pub mod Address
pub mod Stamp
pub mod Parse
pub mod Generate
pub mod UdhEnds
pub mod Steps
pub mod Numbers
pub mod Report
pub mod Received
pub mod DeliverRead
pub mod Deliver
pub mod StampRead
pub mod AddressRead
pub mod Submit
pub mod Laws
pub mod Ends
mod Tests
