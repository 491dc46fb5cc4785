-- ===== src/Lib.antt =====
-- Verification library of meshconf, a peer-to-peer conference program: each peer sends audio and video
-- to every other over QUIC connections of the `iroh` library, and receives theirs.
--
-- How the parts interact. `room.rs` keeps the peers: it dials, accepts, exchanges peer lists on control
-- streams (`control.rs`), registers each peer with two broadcasters (`broadcaster.rs`) and spawns its
-- tasks. On the sending side an audio frame is one datagram and a video frame one stream, both in the
-- format of `protocol.rs`. On the receiving side the dispatcher (`dispatch.rs`) reads them and hands
-- audio to the jitter buffer (`jitter.rs`) and video to the decoder's task (`video_decode.rs`); decoded
-- frames go to the compositor (`video_compositor.rs`), which lays out the gallery. Buffers come from the
-- pools of `pool.rs`. The estimator (`bandwidth.rs`) sets the bitrate and the quality of the encoder
-- (`video_encode.rs`), whose packets a loop sends to the peers. Decoded audio goes to the mixer
-- (`audio_mixer.rs`), and galleries to a window or to a terminal (`video_display_window.rs`,
-- `video_display_kitty.rs` with `kitty.rs`, `term.rs` and `tui.rs`). The paths are from the crate's
-- directory: `protocol.rs` is `src/protocol.rs`.
--
-- Which file models what, one function for each function of the source unless it says otherwise:
--   Prelude        shared names, tests and lemmas; `Prelude/HashMap` is the map of the standard library,
--                  as a list of entries; `Prelude/Errors` is `anyhow::Result`.
--   Protocol       `protocol.rs`: `Stream` the readers and writers that it uses, `Varint`, `Subgroup`,
--                  `Extension`, `Object`, `Datagram`, with their round trips beside them.
--   Jitter         `jitter.rs`: `run_jitter_buffer` as `step`, an event for each arm of its `select!`.
--   Pool           `pool.rs`: the heap of all buffers, free, owned and shared, with their handles.
--   Bandwidth      `bandwidth.rs`, with `f64` as the record `F64` of `Bandwidth/Floats`.
--   AnnexB         the byte stream of HEVC units: `extract_annex_b` of `video_encode.rs`, and the scanner
--                  and the conversions of `video_decode.rs`, on slices where the code has offsets.
--   Decoder        `run_video_decoder` of `video_decode.rs`, over the interface `HevcDecoder`, and the
--                  counter of `video_compositor.rs`. `Decoder/Hevc` fills the interface with the code's
--                  own `HevcDecoder`; the calls of the system's decoder are the record `VideoToolbox`.
--   Dispatch       `dispatch.rs`: a stream's task is two steps, so that a list of events is one order in
--                  which the tasks run.
--   Control        `control.rs`, and the loop `handle_control_stream`; `serde_json` is the record `Json`.
--   Compositor     `video_compositor.rs`: the messages, the commands and `build_gallery`.
--   Broadcaster    `broadcaster.rs`.
--   Room           `room.rs`: the handlers, and `Room/Events` with the loop. Keys and addresses as text
--                  are the record `Text`; what dialling yields and what a peer sends are arguments.
--                  `Room/Feedback` is `run_feedback_sender`, a tick of its interval at a time.
--   Encoder        `video_encode.rs`: `send_loop` with its send tasks, which end or are aborted as
--                  events, and `Encoder/Session` with `encode_loop`, a frame and the following top of
--                  the loop at a time. `Encoder/Receiver` composes it with the decoder's task,
--                  `Encoder/Session/Adaptive` with the estimator; `Encoder/Kept` is about its tasks.
--   Mixer          `audio_mixer.rs`, with `f32` as the record `F32`.
--   AudioEncoder   `audio_encode.rs`, over the record `OpusEncoder`; `AudioEncoder/Heard` composes it
--                  with the broadcaster and the datagrams.
--   AudioDecoder   `audio_decode.rs`, over the record `Opus`.
--   Kitty          `kitty.rs` and `move_to` of `term.rs`: the bytes that are written. Printing of numbers,
--                  compression and base64 are the record `Encodings`; `Kitty/Terminal` is the reading
--                  side, by the protocol's documentation.
--   Tui            `tui.rs`: texts at cells, without colours; `Tui/Banner`, `Tui/LogBuffer`.
--   Window         `video_display_window.rs`: a buffer of pixels, row by row; the font is the record `Font`.
--   Gallery        `video_display_kitty.rs`: the commands that are written, in order.
--   */Tests        runs on concrete inputs.
--
-- State. A task's variables and the objects it shares are a record, and an operation is a function from
-- that record to the next. A channel is what it accepted, newest first, and the slots that are free, so a
-- full channel and its drop are modelled. An `i64` and a `u64` are numbers below 2^64 that wrap. A time
-- is a number that each event brings. Tokens, connections, pools and handles are numbers.
--
-- Fuel. The loop over extension headers and the scanner of units take the length of their input as fuel,
-- the loop over a sample and `wrap_line` one more, the chunks of an image its base64 text, and the loop
-- over control messages any fuel; each turn takes bytes away, so more fuel than there are bytes is enough.
-- The loop that breaks a long word takes any fuel: its characters suffice where the terminal has more than
-- eight columns, and no fuel does where it has at most four.
--
-- Assumptions. Closing and unlinking a shared memory object succeed. `F64` has the laws of a product of a
-- 32-bit number with a percentage that is rounded once and then truncated; `F32` has none. `Json` and
-- `Text` have the round trips of the libraries, and so have compression and base64; a printed number is
-- digits that tell numbers apart. An Opus decoder writes no more samples than there is room for. The
-- square root and the quotient of the grid are exact, which `f64` is for a number of peers. The growth of
-- a vector is any function. The encoder's configuration is read as a whole, where the code reads its
-- fields one by one. What is drawn has bounds of 2^32 pixels and 2^16 rows and columns, in which the
-- arithmetic of 32 and 16 bits does not wrap.
--
-- Not modelled: audio and video devices with the tee of captured frames, pixel conversion by vImage, the
-- wiring of `main.rs` and `net.rs`, the benchmark, and in the modelled files logging, the output callbacks
-- of VideoToolbox, the properties of its sessions, the path watcher of `room.rs`, and the detection of what
-- a terminal supports. They are calls of system libraries or parts left for later.
pub mod Prelude
pub mod Protocol
pub mod Jitter
pub mod Pool
pub mod Bandwidth
pub mod Decoder
pub mod AnnexB
pub mod Dispatch
pub mod Control
pub mod Compositor
pub mod Broadcaster
pub mod Room
pub mod Encoder
pub mod Mixer
pub mod AudioDecoder
pub mod AudioEncoder
pub mod Kitty
pub mod Tui
pub mod Window
pub mod Gallery
