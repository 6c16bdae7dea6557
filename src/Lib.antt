-- ===== src/Lib.antt =====
-- The Spanreed proxy (pkg/proxy, pkg/transport, internal) and its demo client (examples/hello-spanreed/client/src).
--
-- The client is a browser page. Its form (ConnectionStateComponent.tsx) opens a connection to a
-- destination server through the proxy, by WebSocket or by WebTransport (Connection.ts). The page
-- (DemoPage.tsx) holds the connection, sends clicks, chat messages (ChatBox.tsx) and pings, and
-- reads chat messages and game states, whose dots the canvas (DemoCanvas.tsx) shows by WebGL2
-- (DemoRenderer.ts, solid.shader.ts, glutils.ts, geomtry.ts, colors.ts). All messages are
-- FlatBuffers, through generated classes (gen). What is told to the user goes through log
-- callbacks (log.ts).
--
-- The proxy, in Go, gives each client an id, attaches it to the destination whose handler matches its
-- connection string, forwards messages both ways, and kicks clients that are silent or too old. Its
-- transports hand it what arrives, and get what it sends, through channels: a router per kind of
-- clients (client_connection_router.go), which takes each client through its request and the verdict
-- on it, a handler for clients by WebSocket (websocket_client.go), which passes frames to it, and a
-- handler for destinations on UDP (udp_destination.go), which sends and reads the datagrams.
--
-- Paths of the client in this list are under examples/hello-spanreed/client/src.
-- - Prelude: shared names, Boolean tests and lists on the native numbers.
-- - Log: log.ts. A callback is the list of outputs that it makes.
-- - Canvas.Numbers: JavaScript's numbers and `Math`, a parameter. Canvas.ArrayBuffer: buffers and
--   typed views of the language. Canvas.Gl: the WebGL2 context; what it answers is a parameter,
--   and the calls that the client makes are recorded, latest first.
-- - Canvas.Geometry, Canvas.Colors, Canvas.Buffers, Canvas.Program, Canvas.Shader: geomtry.ts,
--   colors.ts, glutils.ts and solid.shader.ts, function by function.
-- - Canvas.Instances, Canvas.Renderer, Canvas.Frames: DemoRenderer.ts. `write_instances` is the
--   loop of `setInstances`, `set_instances` the method, `create` is `Create`; `start`, `frame` and
--   `destroy` act on the renderer with the browser's list of pending frames.
-- - Canvas.Component: the effects and the click handler of DemoCanvas.tsx.
-- - Wire.Flatbuffers: the runtime package `flatbuffers`, a parameter, with the helpers that the
--   generated classes share; Wire.Flatbuffers.Laws: what the package documents, which the round
--   trips rest on; Wire.Flatbuffers.Objects: what a buffer can hold; the other modules below it
--   read and build that, step by step. The other modules of Wire are the generated classes of gen,
--   one each; their modules RoundTrip build a message with the class and read it back.
--   Wire.ConnectClientMessage.Unpacked: the packed object that
--   flatbuffers/generated/ts/spanreed-message/connect-client-message.ts adds to that class.
-- - Connection.Payload: the messages that the client builds; Connection.Payload.Decoding is a
--   reader of them by the generated classes, as a server would be. Connection.Websocket and
--   Connection.Webtransport: `connectWebsocket` and `connectWebtransport`, each a machine whose
--   phases are the places where the function awaits, run on the events of its transport;
--   Connection.Agreement translates the events of one to those of the other; Connection.Answers
--   joins an attempt to a proxy that answers with a verdict.
-- - Page: the state of DemoPage.tsx and `setConnection` with the effects that it triggers;
--   Page.Messages: `mapColor` and the handling of a server message; Page.Effects: one `handle` for
--   everything that the page reacts to. Page.Messages.Arriving joins the page to a server that
--   sends chat messages.
-- - Ui.Button, Ui.ChatBox, Ui.Setup, Ui.Console: common/Button.tsx, ChatBox.tsx, the form of
--   ConnectionStateComponent.tsx, and the rows of Console.tsx. A `view` is what a component renders,
--   as a tree of Ui.Html with the handlers in it; Ui.DemoPage puts the components together.
-- - Proxy.Store: internal/client_store.go, operation by operation. Proxy.State: the state of
--   pkg/proxy/proxy.go, with what was put into its channels. Proxy.Hub: the methods of the proxy;
--   Proxy.Hub.Start: the goroutines of `Start`, as one `step` for everything that they wait for.
-- - Proxy.Hosts: the lists of hosts of pkg/transport, and pkg/util/strutils.go. Proxy.Datagrams: the
--   datagrams that pkg/transport/udp_destination.go builds and reads; Proxy.Udp: its handlers and
--   goroutines, where Proxy.Udp.Events has one `step` for everything that they wait for.
-- - Proxy.Router: the routing of one client that `OpenConnection` of
--   pkg/transport/client_connection_router.go starts, whose phases are its `select` statements, with
--   `createVerdictMsg`; Proxy.Router.Channels: the map of the connections and `Start`.
-- - Proxy.Session: one client by WebSocket, `onWsRequest` of pkg/transport/websocket_client.go: its
--   two goroutines, and the routing, which takes what they put into its channels, in any order of
--   the events.
-- - Proxy.Journey: the client and the page, the router, the proxy and the handler for UDP in a row.
-- - Examples: concrete parameters and inputs. Examples.Memory: a simple runtime for which the laws
--   hold, with its own format: it keeps what was built in words, one after the other.
--
-- Loops are structural recursion: over the list of instances, over the number of segments, over
-- the number of dots that are left, over the events; no fuel is used. The renderer's buffer has
-- 16 * 200 bytes, as in the code. Numbers that the program counts with are natural numbers, none of
-- which leaves the range in which a JavaScript number is exact; coordinates are the parameter.
--
-- An exception is a value: `setInstances` ends by returning or by a RangeError, and a message that
-- makes a handler throw gives `none`. Async functions react to one event at a time. No event is
-- reported between an `await` that returns and the handlers that are set directly after it.
--
-- A number on the wire has the bounds of its field, and a byte is below 256; the laws of the runtime
-- ask for no more. A coordinate is stored as a `float32`, so it arrives rounded.
--
-- The methods of the proxy and of its transports are single steps, as if the goroutines took turns;
-- times of the proxy are microseconds since its start. A route takes an event only where its
-- `select` has a case for it; what has no case stays in its channel. Go's package `flatbuffers` and
-- the code generated for Go do what the runtime and the classes of Wire do, and share their model; a
-- message on which they panic is an event of its own for a route, and is left out for a datagram.
-- A datagram for the proxy is cut off after the 2048 bytes of its buffer, as Unix and, after a
-- warning, Windows do; any other error of the socket but its close, which ends the goroutine that
-- listens, is not modelled. Resolving hosts and addresses is a parameter.
--
-- Not modelled: the servers of pkg/transport (webtransport_client.go, and the set-up and `Start` of
-- websocket_client.go but for the check of the origin), the executable in cmd, the lengths of
-- channels and what waits for a full one, logging; the demo server in C++
-- (examples/hello-spanreed/server), which is another program; the classes of
-- flatbuffers/generated/ts that equal those of the client; the builder of the struct `Dot`, which
-- the client never builds; App.tsx, which mounts the page; the scrolling of the console; times and
-- the interval of the ping timer.

pub mod Prelude
pub mod Log
pub mod Canvas
pub mod Wire
pub mod Connection
pub mod Page
pub mod Ui
pub mod Proxy
pub mod Examples
