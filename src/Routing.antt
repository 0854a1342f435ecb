-- ===== src/Routing.antt =====
-- The routing of a request: application/routing.py, application/reasoning.py and core/reasoning.py.
pub mod Reasoning
pub mod Router
pub mod Budget
pub mod Requests
pub mod Routed
pub mod Advertised
mod Tests
