-- ===== src/Lib.antt =====
-- A verification library for the camera platform: a headless GStreamer server that captures one video
-- source, encodes it in several profiles, switches each profile on and off, and serves them by RTSP,
-- with an HTTP codec and JSON value types for its control plane.
--
-- Files. A `std::string` is the list of its bytes, a `std::uint32_t` or `int` a native natural number.
--   Prelude: Boolean tests, lists of bytes, search in them (`std::string::find`), association lists
--     for `std::map`, decimal printing.
--   Protocol: common/Protocol.hpp, the constants, `rtspUrlFor` and `profileActionPath`.
--   Model: model/JsonUtil.hpp (Json: `jsonEscape`), model/Profile.hpp, model/SystemStatus.hpp and
--     model/CameraState.hpp (Profile, Status, Camera: the structs and `toJson`). Json/RoundTrip and
--     Json/Object hold readers of JSON strings and objects, written from the JSON grammar.
--   Http: web/HttpMessage.hpp. Text is `toLowerHelper` and `trimHelper`, Message the two structs,
--     `statusText` and `jsonError`, Query `parseQuery`, Request `parseRequest`, Response
--     `serializeResponse`.
--   Gst: the calls of GStreamer and GLib that the program makes (`Call`), the calls made so far
--     (`Trace`), and what the libraries answer (`Gst`, an argument of every operation that asks).
--     Gst/Effects is the state monad of the operations: an object and the trace go in, a result, the
--     object and the longer trace come out. Gst/Observe reads off a trace what it did to an object,
--     Gst/Attached of an event source, and Gst/Elements what became of the elements made and the buses taken.
--   Video: video/. Values holds the outcomes, caps, events, sources and sinks, Pipeline
--     `VideoPipeline`, one definition for each member function: Pipeline itself the set-up and `stop`,
--     Pipeline/Requests `play`, `pause`, `seek` and the clocks, Pipeline/Bus the watch on the bus.
--   Server: server/. Bin is `ProfileBin`, Host the set-up of `ProfileHost` and Host/Control its other
--     operations, Rtsp `RtspProfileServer`, Application `Application` up to `initialize`, and
--     Application/Run what it does from `run` on, with the callbacks and `main`.
--     Cloud has the protocols and the configuration of server/CloudStreamer.hpp.
--   CameraControl: web/CameraControl.hpp, the interface between the control plane and the server, as a
--     record of its operations and the contract that the header states. Server/Application/Controlled
--     fills it with `Application`, Fake with the fake of tests/web/test_apicontroller.cpp; Client is
--     what holds of every implementation.
--   Labs: labs/. RtspRecover is lab8-rtsp-recover.cpp, RtspBridge lab6-rtsp-bridge.cpp, Bridge the code
--     that the two have in common, Record lab7-record.cpp, Snapshot lab7-snapshot.cpp,
--     Branches lab4-profile-host.cpp, OneBranch lab3-profile-bin.cpp, Stall lab-stall-mechanism.cpp,
--     PrerollStates lab-preroll-states.cpp, AsyncAppsink lab-async-appsink.cpp, RtspServer
--     lab5-rtsp-server.cpp, SleepClient lab5-rtsp-client.cpp, LoopClient lab8-rtsp-client.cpp, LoopRefs
--     lab-main-loop-refs.c. References and Counted are the accounts of what they take. The static
--     variables of each program are a record, and each callback is an operation.
--
-- The application owns a host and an RTSP server. The host owns one branch for each profile; to build
-- its pipeline it creates each branch in turn, and a switch of a profile goes to the first branch of
-- that name. The RTSP server asks the host for the catalog and for each branch's sink.
--
-- Loops. A loop over a list is structural recursion. The loop of `parseQuery` and the loop over the
-- header lines run on fuel, one more than the length of the text that they read; each round drops at
-- least one byte. The polls that end a recording run over the list of what is called before each of them;
-- the main loop polls every 25 ms until the deadline, 2500 ms later, so 101 are enough.
--
-- Integers. Casts to a narrower or signed type are written out (`strtol_char`, `gint_of`). A `double`
-- is its 64-bit pattern, and how a stream prints it is an argument.
--
-- Not modelled: what GStreamer, GLib and the RTSP library do inside (their answers are an argument);
-- log lines; the mutexes, which make each control call and each section of a callback under a lock one
-- step (labs/lab6-rtsp-bridge.cpp sets its valves behind the unlock, in a step of its own); web/ApiController.hpp
-- and web/WebServer.hpp, the operations of server/CloudStreamer.hpp and client-qt/, which have
-- declarations but no bodies or only start a library; the test programs but for that
-- fake. The clock (`g_get_monotonic_time`) is an argument too.
mod Prelude
pub mod Protocol
pub mod Model
pub mod Http
pub mod Gst
pub mod Video
pub mod Server
pub mod Labs
pub mod CameraControl
