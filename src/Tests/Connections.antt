-- ===== src/Tests/Connections.antt =====
-- A connection with two frames.
use haproxy_spoa_firehol_mmd.Prelude.{
  ◌≡◌, refl, true, false, List, [], ◌∷◌, ◌++◌, none, some, arith,
}
use haproxy_spoa_firehol_mmd.Prelude.Lists.{replicate}
use haproxy_spoa_firehol_mmd.Spoa.Writer.{Endian}
use haproxy_spoa_firehol_mmd.Spoa.Writer.Words.{be32_value, be32_value-be32}
use haproxy_spoa_firehol_mmd.Spoa.Server.{World, Connection, handle_connection}
use haproxy_spoa_firehol_mmd.Spoa.Server.Ends.{handle_connection_ends}
use haproxy_spoa_firehol_mmd.Spoa.Server.Serve.{
  Request, requests_wire, serve, handle_connection-serve,
}

abbrev quiet : World
quiet = record {
  endian = Endian.little;
  log = false;
  snapshot = none;
  stack_buf = replicate 64 0;
  available = true;
}

-- A HELLO without fields, and a frame of a type that HAProxy does not send.
abbrev requests : List Request
requests =
    record { type = 1; payload = 0 ∷ 0 ∷ 0 ∷ 1 ∷ 0 ∷ 0 ∷ [] }
    ∷ record { type = 9; payload = [] }
    ∷ []

abbrev connection : Connection
connection = record {
  input = requests_wire requests;
  output = [];
  agent = record { drop_categories = []; lookups = 0; lookup_errors = 0 };
  pipeline = 0;
}

handle_connection_ends_example :
    (c' : Connection) × (handle_connection be32_value (λ k. quiet) connection ≡ some c')
handle_connection_ends_example =
    handle_connection_ends be32_value (λ k. quiet) connection (omega arith)

handle_connection-serve_example :
    (c' : Connection) × (handle_connection be32_value (λ k. quiet) connection ≡ some c')
    × (c'.output ≡ [] ++ (serve (λ k. quiet) 0 requests connection.agent).0)
    × (c'.agent ≡ (serve (λ k. quiet) 0 requests connection.agent).1)
handle_connection-serve_example =
    handle_connection-serve be32_value (λ n h. be32_value-be32 n) (λ k. quiet) requests connection
      (omega arith) refl
