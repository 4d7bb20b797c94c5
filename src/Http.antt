-- ===== src/Http.antt =====
-- The HTTP controllers. FastAPI's routing is no part of them: an endpoint is the method that
-- answers the request, and a response is its status code and the model that becomes its body.
-- application/controllers/http
pub mod Response
pub mod Gateway
pub mod Probes
pub mod Routes
