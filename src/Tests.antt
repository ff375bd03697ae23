-- ===== src/Tests.antt =====
-- The unit tests of the sources, and the theorems applied at concrete inputs.
mod Http
mod Bodies
mod Clocks
mod Supervision
mod Calls
mod Exchange
mod Loop
mod Pipes
mod PipeExchange
mod Requests
mod Jobs
