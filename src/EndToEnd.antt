-- ===== src/EndToEnd.antt =====
-- A request on its way from the client through router and connector to the target, and the response
-- on its way back: router/reverse_proxy.go and router/router_socket/router_socket.go with
-- connector/connector_socket.go.
mod Tests
pub mod Requests
pub mod Responses
