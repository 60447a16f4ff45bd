-- ===== src/Proxy.antt =====
-- oci/proxy/proxy.go: the registry proxy in front of the canonical registry. The paths of requests
-- are in Paths, net/http in Http, the handlers in Serve.
pub mod Paths
pub mod Http
pub mod Serve
mod Tests
