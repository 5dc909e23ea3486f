-- ===== src/Ingress.antt =====
-- internal/ingress: routing of requests and balancing over backends.
pub mod Sorting
pub mod RouteTable
pub mod Weighted
pub mod LeastConn
pub mod Balancer
