-- ===== src/Server.antt =====
-- Class `HttpServer` of src/main.cpp and the functions beside it: the parts that read a request and
-- that make a response.
pub mod Request
pub mod Response
pub mod Diagnosis
pub mod Handler
pub mod Lsapi
pub mod Listener
