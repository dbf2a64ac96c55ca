-- ===== src/Proxy/Http.antt =====
-- serverwall-proxy/src/proxy/http_proxy.rs: one HTTP request, from its headers to the answer of a
-- backend. What `hyper` and `flate2` compute is a parameter; input, output and logging are left out.
pub mod Settings
pub mod Cookies
pub mod Guards
pub mod Outbound
pub mod Responses
pub mod Exchange
pub mod Handler
