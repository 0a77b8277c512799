-- ===== src/Transport.antt =====
-- internal/transport/http: the HTTP API. A handler is a function from what gin has read of the
-- request to the response. That the body binds to the struct of the request, with its `binding`
-- rules, is gin's: a handler gets the struct, or nothing where ShouldBindJSON fails. A response is
-- its status with its body. The texts of error messages, the log and the middleware are left out.
pub mod Response
pub mod Resources
pub mod Billing
pub mod Hub
pub mod KafkaSender
pub mod Simulation
