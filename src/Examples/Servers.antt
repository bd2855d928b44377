-- ===== src/Examples/Servers.antt =====
-- Runs of the server.
use delegatio.Common.{refl, true, false}
use delegatio.Ssh.Server.{
  in_accept, returned, added, counted, ServerState, accepts, adds, counts, starts, closes, stops,
}
use delegatio.Ssh.Server.Connections.{ServerRun, started, IsCounted, run-IsCounted}

-- Start returns while a connection is between Accept and the wait group.
abbrev overtaken : ServerState
overtaken = record {
  point = in_accept;
  live = 1;
  leaving = 0;
  handle_conn_wg = 1;
  current_connections = 1;
  listening = false;
  stopped = true;
}

abbrev late : ServerState
late = record started { point = returned; listening = false; stopped = true }

overtaken_run : ServerRun started overtaken
overtaken_run =
    ServerRun.then
      (ServerRun.then
        (ServerRun.then
          (ServerRun.then
            (ServerRun.then (ServerRun.then (ServerRun.here started) (accepts started refl refl))
              (closes (record started { point = returned })))
            (stops (record started { point = returned; listening = false }) refl refl))
          (adds late refl))
        (counts (record late { point = added; handle_conn_wg = 1 }) refl))
      (starts (record late { point = counted; handle_conn_wg = 1; current_connections = 1 }) refl)

run-IsCounted_example : IsCounted overtaken
run-IsCounted_example = run-IsCounted overtaken_run
