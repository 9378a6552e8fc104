-- ===== src/Discovery.antt =====
-- endpoint_discovery.py, a module to each part: paths, the fields of an operation, and the parser.
-- The specification is a value of `json.loads`, in which no object has a key twice. `none` is an
-- exception, which `parse` does not catch.
pub mod Paths
pub mod Operation
pub mod Parser
