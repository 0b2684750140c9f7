-- ===== src/Http.antt =====
-- The programs app/httpserver and app/httpclient, over the string functions of app/liumlib.
pub mod Append
pub mod Arguments
pub mod Server
pub mod Client
pub mod Exchange
