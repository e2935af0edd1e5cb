-- ===== src/Lib.antt =====
-- realflight-bridge: a bridge between programs and the RealFlight flight simulator.
--
-- A local bridge (src/bridge/local) encodes control inputs as XML, sends them in a SOAP request over a
-- fresh TCP connection (src/soap_client), and decodes the simulator's answer (src/decoders). A remote
-- bridge (src/bridge/remote) sends the same operations in frames to a proxy (src/bridge/proxy), which
-- carries them out on a bridge of its own. The parts and their files:
--
--   Base, Outcome, Text     numbers and lists; results with `panic` and `spin`; texts of code points
--                           with the byte offsets of UTF-8, search, numbers, white space.
--   Units                   the quantities of src/lib.rs and the converters of src/decoders/mod.rs, by
--                           the features of the build. The crate uom is the parameter Uom.
--   Types                   src/lib.rs and Configuration: errors, inputs, state. An f32 is its bit
--                           pattern, its text (FromStr and Display) is the parameter FloatText.
--   Decoder                 src/decoders/mod.rs: `step_in` is one round of the loop of
--                           decode_simulator_state, `run` the loop; Decoder.Fields has the arms of
--                           decode_state_field, Decoder.Extract has extract_element, and
--                           Decoder.InUnits sets the build with uom against the one without.
--                           Decoder.Table has what elements write, by columns, for Decoder.Order
--                           and Decoder.Report.
--   Encoder                 src/encoders/mod.rs.
--   Soap                    src/soap_client/xml.rs, and the response type of src/soap_client/mod.rs.
--   Net                     TCP streams: read_line, read_exact, write_all of the standard library.
--   Statistics              src/statistics.rs, with counters that wrap around at 2^32.
--   Tcp                     src/soap_client/tcp.rs. The connection pool is the argument `get_connection`; in
--                           Tcp.Pooled it is that of Pool, with the statistics they share.
--   Pool                    src/soap_client/pool.rs: the creator thread by phases, the channel, the
--                           loop of ensure_pool_initialized, and the drop, which joins the thread.
--   AsyncPool               src/soap_client/pool_async.rs: the task that makes connections by phases, the
--                           channel, and the rounds of ensure_initialized.
--   AsyncClient             src/soap_client/tcp_async.rs, its writing, its reading and its pool, with the
--                           statistics they share.
--   Stub                    src/soap_client/stub_async.rs, and in Stub.Blocking
--                           src/soap_client/stub.rs with the stub() of src/bridge/local/mod.rs, and
--                           in Stub.Server src/tests/soap_stub.rs; the files that these answer from
--                           are a parameter.
--   Bridge                  src/bridge.rs, the operations that every bridge has.
--   Bridge.Local            src/bridge/local/mod.rs and src/bridge/local/async_impl.rs.
--   Bridge.Local.Build      the constructors of both, the builder of the async bridge, statistics().
--   Bridge.Wire             the messages and frames of src/bridge/remote/mod.rs; postcard is the
--                           parameter Codec.
--   Bridge.Remote           src/bridge/remote/mod.rs and src/bridge/remote/async_impl.rs.
--   Bridge.Remote.Connect   how both connect; names, sockets and timeouts are the parameter Network.
--   Bridge.Remote.Shared    src/bridge/remote/async_impl.rs again, with several tasks at one bridge: what
--                           a task does between taking a lock and giving it back is one turn.
--   Bridge.Proxy            src/bridge/proxy/handler.rs and src/bridge/proxy/mod.rs: one function per
--                           stage of a round of handle_client, and the loop of the server.
--   Bridge.Proxy.Program    AsyncProxyServer::new and src/bin/realflight_bridge_proxy.rs.
--   Tests                   runs at concrete inputs.
--
-- How the code is rendered. State is passed explicitly. A call ends in a value, an error or a panic
-- (Outcome.Result). A stream is the bytes that the peer sends, how they end, and the bytes that were
-- sent; buffering is not seen, a flush follows every write. A write that fails sends nothing that the
-- code looks at again.
--
-- Bounds and fuel. The loop over header lines (Tcp.read_headers) is given rounds: one for each header
-- line and one for the empty line are enough, or one for each byte and one more. The loops of the
-- proxy and of the stub server are given what they wait for, and ensure_pool_initialized what it finds,
-- one entry for each round. The join of the creator thread (Pool.join) is given what the network
-- answers it: two answers for each place of the pool and four more are enough. Decimal digits are
-- written with fuel above the number. `spin` says that the rounds are used up, or that a thread waits
-- for ever; it is no value of the code. usize has 64 bits.
--
-- The feature `uom`. Types, Units and Decoder are for any features; SimulatorState, Decoder and
-- decode_simulator_state without an index are those of the build without features, which the bridges
-- and the frames are modelled in.
--
-- Not modelled. The frames of quantities, whose serialisation is the crate's. The command line and
-- logging, the tests, benchmarks and examples. Timeouts: waiting takes no time. The memory that an
-- announced length asks for.
pub mod Base
pub mod Outcome
pub mod Text
pub mod Types
pub mod Units
pub mod Decoder
pub mod Encoder
pub mod Soap
pub mod Net
pub mod Statistics
pub mod Tcp
pub mod Bridge
pub mod Pool
pub mod AsyncPool
pub mod Tests
pub mod AsyncClient
pub mod Stub
