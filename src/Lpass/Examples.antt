-- ===== src/Lpass/Examples.antt =====
-- A playback and a failing capture on DAI 5
-- (upstream-src/sound/soc/qcom/qdsp6/q6apm-lpass-dais.c).
use audioreach_usb_offload_r.Prelude.{Sat, refl, true, false, none, some, [], ◌∷◌}
use audioreach_usb_offload_r.Stream.{ok}
use audioreach_usb_offload_r.Apm.{playback, capture}
use audioreach_usb_offload_r.Apm.Graphs.{CmdEnv, OpenEnv}
use audioreach_usb_offload_r.Lpass.{Lpass, PrepareEnv, Session, sessions}
use audioreach_usb_offload_r.Lpass.Ports.{Idle, Apart}
use audioreach_usb_offload_r.Lpass.Owned.{sessions-Idle}

abbrev quiet : Lpass
quiet = record {
  apm = record { known = λ n. true; graphs = λ n. none };
  dais = λ n. record { graph = false; is_port_started = false };
  sent = [];
}

abbrev good_command : CmdEnv
good_command = record { pkt_allocated = true; sent = ok 0; answered = some 0 }

abbrev refused : CmdEnv
refused = record { pkt_allocated = true; sent = ok 0; answered = some 2 }

abbrev good_open : OpenEnv
good_open = record {
  graph_allocated = true;
  pkt = ok 0;
  idr = ok 0;
  open_cmd = good_command;
  handle_allocated = true;
  port = ok 0;
  close_cmd = good_command;
}

abbrev good_prepare : PrepareEnv
good_prepare = record {
  stop = good_command;
  close = good_command;
  opening = good_open;
  prepare = good_command;
  start = good_command;
  undo = good_command;
}

-- Playback prepared twice, then a capture whose graph does not start.
abbrev plays : Session
plays = record {
  dir = playback;
  opening = good_open;
  prepares = good_prepare ∷ good_prepare ∷ [];
  stop = good_command;
  close = good_command;
}

abbrev records : Session
records = record {
  dir = capture;
  opening = good_open;
  prepares = record good_prepare { start = refused } ∷ [];
  stop = good_command;
  close = good_command;
}

sessions-Idle_example :
    Sat (sessions quiet 5 (plays ∷ records ∷ [])) (λ t. Idle t 5 × Apart 5 quiet t)
sessions-Idle_example = sessions-Idle quiet 5 (plays ∷ records ∷ []) (refl, refl, refl)
