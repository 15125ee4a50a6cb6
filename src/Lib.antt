-- ===== src/Lib.antt =====
-- Verification of the Yate datacard driver, the part of the repository that talks to GSM modems.
--
-- The driver keeps a state for each modem (`CardDevice`), and a monitor thread for it. The thread
-- (`CardDevice::processATEvents`, at_io.cpp) polls the data tty. What it reads, it gathers to lines
-- (`handle_rd_data`), classifies each by its first characters (`at_read_result_classification`) and
-- answers it (`at_response`, at_response.cpp): the answers parse the line (at_parse.cpp), change the
-- state, queue AT commands and call the owner of the current call or the list of devices. When the
-- tty can be written and no answer is awaited, the first waiting command is written. Operations of
-- the user (newCall, Hangup, sendAnswer, datacarddevice.cpp) change the state and queue commands.
-- The list of devices (`DevicesEndPoint`) connects what is not connected, and the handlers of the
-- module (datacard.cpp) choose the device for a message or a call. The callbacks of a device become
-- messages of the engine and operations of the channel of its call. A second thread for each device
-- (`MediaThread`) carries the audio between its audio tty and the call. Class `PDU` (pdu.cpp) turns texts
-- into the strings of hex digits that the modem takes and gives, and back.
--
-- Files, from the repository's root to these:
--   At, At/Strings, At/Classify   datacarddevice.h, at_io.cpp, at_parse.cpp: codes and commands,
--                                 their texts, and the classification of lines
--   Device, Device/Calls, Device/Connect, Device/EndReason, Device/Reasons
--                                 datacarddevice.h, datacarddevice.cpp, endreasons.h: the fields, with
--                                 their names less `m_`, the constructor, the calls, tryConnect,
--                                 disconnect and getReason; dict_errors of datacard.cpp
--   Messages                      datacarddevice.cpp: sendUSSD, encodeUSSD, sendSMS
--   Tty                           at_io.cpp: at_write_full, at_send_sms_text
--   CharConv                      char_conv.cpp
--   Response                      at_response.cpp and the parsers of at_parse.cpp; a handler keeps
--                                 its name, and gives the device and the result
--   Reader                        at_io.cpp: handle_rd_data
--   Loop                          at_io.cpp: processATEvents, one round at a time
--   Pdu, below it                 pdu.cpp: Octet (octets), Udh (data headers), Binary (pdu2binary,
--                                 binary2pdu), Text (pdu2text, text2pdu), Status (explain_status),
--                                 State (the fields and ends of a parser), Address, Stamp, Parse
--                                 (parse and its parts), Generate; the others hold proofs
--   Media                         datacarddevice.cpp: MediaThread::run, one round at a time, sendAudio,
--                                 forwardAudio, Consume
--   Device/Opentty                datacarddevice.cpp: opentty, the descriptors of tryConnect and
--                                 disconnect, devStatus
--   Devices, Devices/Handlers, Devices/Configured
--                                 datacarddevice.cpp: DevicesEndPoint and the status of a device;
--                                 datacard.cpp: the handlers of SMS, USSD and calls, and the loop of
--                                 initialize over the configuration
--   Engine, Engine/Commands       datacard.cpp: what the endpoint and the channel ask of the engine
--                                 for each callback of a device, the operations of a channel, and
--                                 doCommand, doComplete and received
--   Libc                          sscanf, strtol and printf for the formats that the source uses
--   Env                           what the source calls and the repository does not hold
--   Prelude                       shared names, tests, lists, integers and texts
--   Samples, and modules Tests    runs, and the theorems at concrete inputs
--
-- Modelling. A text is the list of its bytes. The device is a record that each operation takes and
-- gives back; `sent` holds what the writes to the tty took and `calls` the callbacks that were made. A
-- handler's result is the integer of the source. Numbers of the source that can be negative are ℤ;
-- octets wrap by `% 256`, a `long` has 64 bits, strtol stops at its ends, and an int is its low 32. Each operation holds the mutex of the device from its start to its end, so
-- an operation is one step, and the mutex is not in the model. Log messages are left out.
--
-- Yate's String and Regexp, iconv, write and the routing are fields of `Env`; `WritesSome` states the
-- documented behaviour of write. `Iconv` is iconv as class `PDU` calls it, `NamedList` and `ObjList`
-- are Yate's parameters and the lookup of its lists. The handlers of lines meet `PDU::parse` as
-- `PduReader`, and `pdu_reader` of Pdu/Parse is the one that the driver has. `TakesAll` is a tty that
-- takes every buffer at once, and `Accepts` one whose writes do not fail. What a constructor leaves uninitialised is taken from an arbitrary
-- device. `read` and `poll` are events of the loop, so every order of events is covered. Where
-- sendDTMF and char_to_hexstr_7bit read outside of their text, the result is none; what
-- at_send_sms_text reads behind its buffer is a field of `Env`. A write of class `PDU` behind one of
-- its arrays is the outcome `overrun` of a parse and none of generate; other writes behind an output
-- buffer are not modelled.
--
-- Fuel. The loop of at_write_full runs on the length of its text, since each write takes a character
-- at least; explain_udh has a step for each element, which takes two octets of its text. Every other
-- loop is recursion on a text or on the list of events.
--
-- `Yate` and `Texts` are Yate's messages of a channel and its operations on texts, `TermiosNames` the
-- constants of termios.h. A callback is a value in `calls`, and `effects_of` says what the engine is
-- asked for it. The audio that the tty gets is a list of frames; what `write` takes of a frame is not
-- looked at by the source, so it is not in the model. A round of the audio thread is one step; a
-- disconnect by the other thread between its poll and its read is taken in front of or behind it.
--
-- Not modelled: cleanDevices, whose removals inside a loop depend on Yate's lists, and Halt, which
-- calls it; the counting of references of channels; the destructors, which free memory only.
pub mod Prelude
pub mod Libc
pub mod At
pub mod Env
pub mod Device
pub mod Tty
pub mod CharConv
pub mod Response
pub mod Reader
pub mod Loop
pub mod Media
pub mod Pdu
pub mod Messages
pub mod Devices
pub mod Engine
pub mod Samples
