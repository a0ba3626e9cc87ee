-- ===== src/Cluster.antt =====
-- internal/cluster: what the nodes share. The cache of resolved targets is modelled.
pub mod Lru
mod Tests
