-- ===== src/Core/Balancer.antt =====
-- serverwall-core/src/balancer: the `LoadBalancer` trait as an interface of an operation and its
-- laws, and the three balancers, which fill it in the child modules.
-- `select` returns the position of the chosen backend, since the caller clones its `Arc`.
pub mod Available
pub mod RoundRobin
pub mod LeastConn
pub mod IpHash
