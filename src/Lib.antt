-- ===== src/Lib.antt =====
-- The media gateway joins calls between browsers (WebRTC, SRTP, ICE) and an IMS (SIP, plain RTP).
-- A signalling gateway sends it packets of JSON over TCP. `MediaGateway` (src/mediagateway.cpp) keeps
-- a map from session ids to `MediaSession` objects and hands each message to its session
-- (src/mediasession.cpp). A session has a web agent (src/webagent.cpp), an IMS agent
-- (src/imsagent.cpp) and two codec converters (src/codecconverter.cpp). It reads and writes session
-- descriptions, and is checked by a timer (src/timer.cpp) for whether media still flow. Audio goes
-- from agent to agent, video through the servers that convert codecs (src/submg.cpp), each way over
-- sockets that threads of the agents and converters read.
--
-- Which file models what:
--   Base         types and lemmas that the parts share: Boolean tests on numbers, lists, machine words, `int`,
--                maps, and `Run`, a result or the fault at which a run stops
--   Base64       src/base64.cpp, include/base64.h; Base64/Reference has the encoding of RFC 4648
--   Main         src/media_gateway.cpp
--   Etcp         src/etcp.cpp: `readn`, `readPacket`, `sendPacket`; Etcp/Sockets has `setAddress`,
--                `tcpClient` and `tcpServer`
--   Rtp          src/rtpconverter.cpp; RtpHeader has the fields of `RTP_HEADER` in include/rtpdefine.h
--   Text         `std::string` and the C functions on texts, as far as the program uses them
--   Sdp          the searches and replacements in session descriptions of src/webagent.cpp and
--                src/imsagent.cpp
--                Sdp/Rounds is about how often their loops go round, Sdp/Keys, Sdp/Replace and
--                Sdp/NewKey about the key that a description has
--   Candidate    src/candidate.cpp, and the lines that src/webagent.cpp writes of local candidates
--   Messages     src/messageparser.cpp and the messages of include/commontype.h
--   Agents       src/helper.cpp, its constructor in Agents/Sockets; Agents/Codec, Agents/Ims and
--                Agents/Web have the two converters, the IMS agent and the web agent,
--                Agents/Web/Describe has `createSdpToWeb` and Agents/Web/Data the media:
--                `sendData`, `sendrtcp`, `receiveDataCallback`
--   Timer        src/timer.cpp; Timer/Threads has the thread of one timer against `setTimer` and
--                `stopTimer`
--   Session      src/mediasession.cpp; Session/Handlers has the handlers of messages, Session/Media
--                the receiving threads of src/imsagent.cpp and src/codecconverter.cpp, joined as the
--                constructor joins the agents
--   SubMg        src/submg.cpp, include/submg.h; SubMg/System has its two threads as steps,
--                SubMg/Startup what the control thread does before them
--   Gateway      src/mediagateway.cpp; Gateway/Timeouts has the timers' callbacks on its objects,
--                Gateway/Table the process as a table of sessions, Gateway/Connection its loop on the
--                bytes of the socket, and Gateway/Steps all threads of the process as steps
--   Tests        concrete inputs, and the theorems at them
--
-- State is passed explicitly: an operation takes the object's record and returns a new one, with the
-- list of its effects on the outside (`Agents.Effect`), in `Run` where the code can fail. A
-- `MediaSession` stands in a heap by its address, so that the model knows a deleted one; so do the
-- candidates of `setRemoteCandidates`. Functions have the source's names in the spelling of this
-- language, `handleOfferFromWeb` is `handle_offer_from_web`. A helper without such a name stands for
-- the part of a function that the comment above it names.
--
-- Numbers: an `unsigned` of w bits wraps at 2 ^ w; `int` and `unsigned long` have four bytes, as the
-- comments of include/rtpdefine.h have it; a character is its code. Loops over texts whose progress is
-- not structural run on fuel, one more than the text is long, and end in the fault `no_rounds` (or
-- `none`, or `endless`) if that does not suffice. The loop of `readPacket` that drops an oversized
-- packet has fuel of one more than the packet's length. Each round of
-- these loops moves on by one place at least.
--
-- What is not in the repository is a parameter: libsrtp (`Rtp.Srtp`), JsonCpp (`Messages.Json`, its
-- documented laws in Messages/Laws), libnice (`Candidate.Nice`), the servers that convert codecs
-- (`Session.Env`, `ffmpeg_reply`), what `sscanf` stores for a number that no `int` holds
-- (`out_of_range` of `Candidate.Nice`), the values of variables that are read before they are set
-- (`Messages.Unset`), the resolver (`Etcp.Sockets.Resolver`), and the bytes that `recv` delivers
-- (`Etcp.Event`).
--
-- Threads: a round of a thread's loop is one step, and steps come in any order (`Gateway.Steps`,
-- `Session.Media`), and in `Timer.Threads` each statement on the pool is a step. In `SubMg.System` the
-- steps of `startFFmpeg` are: the id and the test of the list's size; `rand` and `send`;
-- `curstate[idx] = 1`; each look of its loop, the last with the assert and `destIP`; and `destPort`.
-- Those of the control thread are: `select`; each server of its loop, up to the inner loop; each look of
-- the inner loop, the last with `curstate[msg.ID] = 2`; each of the two writes of `addr[msg.ID]`; and
-- `accept`. A
-- packet in an array of the media threads is the array and a length, as in the code, so that a short
-- packet is read together with what stood there before. `getVacID` has rounds for all its ids.
--
-- `delete` of a session calls `pthread_cancel` for the threads of its four helpers: at one that was
-- never created a shutdown stops in the fault `no_thread` (`Session.cancel_threads`). A timer's callback
-- deletes the agents behind `doTailingJobs`, which has started these threads. The candidates that
-- libnice is handed are an effect, with what stands at each pointer at the time of the call; what
-- libnice does with them is its own. A `send` to the signalling gateway that fails ends the process
-- (`send_fails` of `Session.Env`).
--
-- Not modelled: data races inside a step, the set-up of libnice, the destructors that only delete or
-- close, and output to the terminal.
pub mod Base
pub mod Base64
pub mod Etcp
pub mod Rtp
pub mod SubMg
pub mod Text
pub mod Sdp
pub mod Candidate
pub mod Messages
pub mod RtpHeader
pub mod Agents
pub mod Timer
pub mod Session
pub mod Gateway
pub mod Main
pub mod Tests
