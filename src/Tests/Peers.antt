-- ===== src/Tests/Peers.antt =====
-- The handshake, the calls and the remote command of a peer connection on concrete inputs.
use distributed_workbench.Base.{
  ◌+◌, bytes, false, some, ◌≡◌, ◌↔◌, refl, List, [], ◌∷◌, ok, err, Str-discrete, ℕ_discrete, str_lt,
}
use distributed_workbench.Base.Map.{insert, lookup, remove}
use distributed_workbench.Json.{null}
use distributed_workbench.Peer.{response, PeerConnectConfig, Attempt}
use distributed_workbench.Peer.Answers.{tally-run}
use distributed_workbench.Peer.Bridge.{
  Bridge, Event, calling, expiring, reading, run, tally, calls, step, read_frame, begin_call,
  deliver, expire, drain,
}
use distributed_workbench.Peer.Handshake.{
  initiate_handshake, accept_handshake, reply, hello_of, frame, closed, handshake_iff,
}
use distributed_workbench.Peer.Quoting.{
  remote_command, shell_words, shell_words-remote_command, gap, remote_local, remote_fabric,
}
use distributed_workbench.Protocol.{Response, success}

abbrev connection : PeerConnectConfig
connection = record {
  local_id = bytes "desk";
  peer_id = bytes "lab";
  host = bytes "lab.example";
  local_controller_socket = bytes "/run/c";
  local_executor_socket = bytes "/run/e";
  expose_controller_socket = bytes "/run/lab-c";
  expose_executor_socket = bytes "/run/lab-e";
  remote_executable = bytes "/opt/it's here/workbench";
  remote_state_root = bytes "/var/wb";
  remote_windows = false;
  state_path = bytes "/run/lab.json";
}

handshake_iff_example :
    (initiate_handshake
        (bytes "lab")
        (reply (accept_handshake (bytes "desk") (bytes "lab") (frame (hello_of (bytes "desk")))))
      ≡ ok tt)
    ↔ ((bytes "desk" ≡ bytes "desk") × (bytes "lab" ≡ bytes "lab"))
handshake_iff_example = handshake_iff (bytes "desk") (bytes "lab") (bytes "lab") (bytes "desk")

shell_words-remote_command_example :
    shell_words gap [] (remote_command connection)
    ≡ some (
        bytes "/opt/it's here/workbench"
        ∷ bytes "peer"
        ∷ bytes "accept"
        ∷ bytes "--id"
        ∷ bytes "desk"
        ∷ bytes "--local-id"
        ∷ bytes "lab"
        ∷ bytes "--local-controller-socket"
        ∷ remote_local connection (bytes "controller")
        ∷ bytes "--local-executor-socket"
        ∷ remote_local connection (bytes "executor")
        ∷ bytes "--expose-controller-socket"
        ∷ remote_fabric connection (bytes "controller")
        ∷ bytes "--expose-executor-socket"
        ∷ remote_fabric connection (bytes "executor")
        ∷ [])
shell_words-remote_command_example = shell_words-remote_command connection

abbrev pong : Response
pong = success (bytes "1") null

abbrev idle : Bridge
idle = record { pending = []; answered = [] }

-- Two calls, one answered and one that waits when the other side closes; a third is not written.
abbrev events : List Event
events =
    calling (bytes "a") (ok tt)
    ∷ calling (bytes "b") (ok tt)
    ∷ calling (bytes "c") (err (bytes "broken pipe"))
    ∷ reading (frame (response (bytes "a") pong))
    ∷ expiring (bytes "a") (bytes "timed out")
    ∷ reading closed
    ∷ []

events_run : (run events idle).pending ≡ []
unfolding run step begin_call deliver expire drain read_frame insert lookup remove str_lt
    Str-discrete ℕ_discrete
events_run = refl

tally-run_example :
    tally (bytes "a") (run events idle) ≡ calls (bytes "a") events + tally (bytes "a") idle
unfolding run step begin_call insert lookup str_lt remove Str-discrete ℕ_discrete
tally-run_example =
    tally-run (bytes "a") events idle tt (refl, (refl, (refl, (tt, (tt, (tt, tt))))))

closed_stops : (read_frame closed (step (calling (bytes "a") (ok tt)) idle)).1 ≡ false
unfolding read_frame
closed_stops = refl

abbrev refused : Attempt
refused = record { began = 0; ended = 5; elapsed = 5; outcome = err (bytes "refused") }
