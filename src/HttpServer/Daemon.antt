-- ===== src/HttpServer/Daemon.antt =====
-- scheduler/http_server.cpp and http_server.hpp: starting and stopping the daemon of libmicrohttpd.
-- Whether the library could start one is a parameter.
use mesos_framework.Base.{ℕ, Bool, true, false, Option, none, some, if◌then◌else◌}

-- The fields: the daemon, if one runs, and the port.
pub record HttpServer : Type 0 where
  pub daemon : Bool
  pub port : ℕ

unfoldable pub http_server : ℕ → HttpServer
http_server port = record { daemon = false; port = port }

-- A daemon that cannot be started ends the process.
unfoldable pub start : Bool → HttpServer → Option HttpServer
start started server = if started then some (record server { daemon = true }) else none

unfoldable pub stop : HttpServer → HttpServer
stop server = if server.daemon then record server { daemon = false } else server
