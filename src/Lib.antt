-- ===== src/Lib.antt =====
-- A model of crank4go, a reverse proxy whose targets (connectors) open the websocket connections to
-- the proxy (router) that requests are sent through, with the theorems that make it correct.
--
-- The parts and how they interact. A connector registers idle websockets for a route. The router
-- keeps each one as a `RouterSocket` in the queue of its route, and in a dark copy of that queue
-- when its address or its service is marked for a dark launch. A client request runs through the
-- handlers of the pipeline, takes a socket from the queue that its path and the gray-testing toggle
-- select, and is sent over it in the messages of the wire protocol. The connector makes a request
-- to its target of these messages, replaces the socket by a new one, and writes the target's
-- response back to the websocket, which carries this one request only. The connection monitors of
-- both sides count and report.
--
--   Protocol/       protocol/cranker_protocol.go: Headers.antt is `HeadersBuilder` and the constants,
--                   Request.antt and Response.antt the builders, the parsers and the printers,
--                   Debug.antt is `checkDebugHeader`. A text is a list of bytes. A panic (an index out
--                   of range, a nil builder) is `none`.
--   SocketQueue/    router/router_socket/iterable_chan.go. The queue is a record of its channel, its
--                   alive set and its int32 counter as a bit pattern; a socket is its pointer, a
--                   number. SocketQueue.antt has `Poll`, `PollTimeout`, `Remove` and the goroutine of
--                   `Offer` in one piece each; Order.antt runs them in any order against the list that
--                   a client sees, Steps.antt has the atomic steps of the goroutines in any order.
--   Monitor/        util/connection_monitor.go, with the calls of the handlers as a history.
--   DarkLaunch/     router/darklaunch_manager: `AddIp`, `AddService`, `RemoveIp`, `RemoveService`,
--                   `isValidIp`, `isValidService`, the toggle. A listener is a pair of functions on the
--                   state that it changes. The pattern of the service names is Go's regexp: the
--                   model has its language and a decision of it.
--   Http/           router/handler, router/api/response.go and the filters of
--                   router/api/darklaunch_service_resource.go: handlers are functions on a state, and
--                   a response writer is the list of the calls made on it.
--   Socket.antt     the fields and the constructor of router/router_socket/router_socket.go.
--   Farm/           router/router_socket/websocket_farm.go: Operations.antt is `AddWebsocket`,
--                   `RemoveWebsocket`, `AcquireSocket`, `DeregisterSocket` and `Stop`, Listener.antt
--                   is `darkListener`, Overview.antt the lists for the status pages. The sockets live
--                   in a heap from pointers to records. `Offer` leaves a pending send, and `settle`
--                   runs the pending ones in order.
--   SocketEvents/   the event handlers of router/router_socket/router_socket.go and `runForever`: a
--                   world holds the farm, the monitor, the sockets and the calls of `Done`. The frames
--                   that arrive and the failures of writes are arguments.
--   ReverseProxy/   router/reverse_proxy.go: the headers that are sent on and the request line;
--                   Handling.antt has the frames of a request and its body, what `recover` makes of a
--                   failure, and `Handle`.
--   Router/         router/router.go and router/validator.go: the validation of a registration, and
--                   what registering and deregistering do to the farm and the sockets.
--   Api/            router/api: the requests of the three dark launch resources, over the manager, the
--                   farm that listens to it, and the toggle.
--   Availability/   router/router_availability.go and router/api/registrations_resource.go: what the
--                   status pages say, as maps and records, before it is printed as JSON.
--   Connector/      connector: Farm.antt is ws_cli_farm_conn_info.go, Config.antt connector_config.go,
--                   Plugins.antt plugin/plugin.go, Target.antt intermediate_request.go, Client.antt
--                   connector.go with the window of idle sockets, Urls.antt the URLs that net/url makes
--                   for it. connector_socket.go is in three files: Socket.antt has the messages of the
--                   router, Events.antt the answer of the target, Ending.antt closes, errors and the
--                   timer of a retry. Each handler runs as one step; where a goroutine stands is a
--                   phase of its socket, and Steps.antt has the steps in any order. A panic that
--                   nothing recovers from is `none`. What a dial, a write, a plugin and the target do,
--                   and how a destination is resolved against the target's URL, are arguments.
--   EndToEnd/       a request on its way from the client through router and connector to the target,
--                   and the response on its way back, in terms of the two sides above.
--   Base/           what the parts share: Go's strings, integers, slices and maps.
--
-- Bounds and fuel. int32 counters keep their wrap-around, modulo 2^32. `Atoi` is exact below 2^63,
-- and its theorems say so. The loop of `DeregisterSocket` runs on fuel; with addresses as
-- `RemoteAddr` has them, one round is enough. The loop of `Stop` has a round for each socket in the channel and one more, after
-- which the channel is empty. The connector's attempts at a connection are counted below 2^63. A
-- wait of `PollTimeout` ends with the last arrival that is listed, which is the timeout. net/http's
-- `WriteHeader` panics on a status outside 100 to 999 while no header is written.
--
-- Not modelled: logging, TLS, the HTTP server and its start, the websocket transport itself, the
-- process hooks, the settings of the connector's net/http client, the router's settings, the test
-- scaffolding. The times of pings are left out, and so is the router's ping task, which nothing
-- starts. The order in which Go visits a map is the order of the list here, whichever it is. The
-- wait for room in a full channel has no end of its own: such a send stays pending.
pub mod Base
pub mod Protocol
pub mod SocketQueue
pub mod Monitor
pub mod DarkLaunch
pub mod Http
pub mod Socket
pub mod Farm
pub mod SocketEvents
pub mod ReverseProxy
pub mod Router
pub mod Api
pub mod Availability
pub mod Connector
pub mod EndToEnd
