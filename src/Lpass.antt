-- ===== src/Lpass.antt =====
-- The back-end DAIs of upstream-src/sound/soc/qcom/qdsp6/q6apm-lpass-dais.c: when each of them opens,
-- starts, stops and closes the graph with its number. `none` is a fault: a call with a null graph.
pub mod Ports
pub mod Prepare
pub mod Owned
mod Examples
use audioreach_usb_offload_r.Prelude.{
  and_then, ℕ, ◌+◌, Bool, true, false, not, ◌&&◌, Option, none, some, List, [], ◌∷◌, ◌++◌, ◌==◌,
  if◌then◌else◌,
}
use audioreach_usb_offload_r.Stream.{Ret, ok, err}
use audioreach_usb_offload_r.Sideband.{update}
use audioreach_usb_offload_r.Apm.{Direction, playback, capture}
use audioreach_usb_offload_r.Apm.Graphs.{
  Apm, Command, CmdEnv, OpenEnv, graph_open, graph_close, graph_prepare, graph_start, graph_stop,
}

-- The entries of one DAI in `struct q6apm_lpass_dai_data`: whether `graph` is set, and
-- `is_port_started`.
pub record Dai : Type 0 where
  pub graph : Bool
  pub is_port_started : Bool

-- All DAIs, the graph manager, and the commands that the DSP has been sent.
pub record Lpass : Type 0 where
  pub apm : Apm
  pub dais : ℕ → Dai
  pub sent : List Command

abbrev pub set_dai : Lpass → ℕ → Dai → Lpass
set_dai s n d = record s { dais = update s.dais n d }

abbrev pub advanced : Lpass → Apm → List Command → Lpass
advanced s a cs = record s { apm = a; sent = s.sent ++ cs }

-- `q6apm_graph_stop` of the DAI's graph, whose result is not looked at, and the flag reset.
unfoldable pub stop_port : Lpass → ℕ → CmdEnv → Option Lpass
unfolding graph_stop
stop_port s n x =
    if not (s.dais n).graph
    then none
    else and_then (graph_stop s.apm n x)
        (λ r. some (set_dai (advanced s r.0 r.1) n (record (s.dais n) { is_port_started = false })))

-- `q6apm_graph_close` of the DAI's graph, and the pointer reset.
unfoldable pub close_port : Lpass → ℕ → CmdEnv → Option Lpass
unfolding graph_close
close_port s n x =
    if not (s.dais n).graph
    then none
    else and_then (graph_close s.apm n x)
        (λ r. some (set_dai (advanced s r.0 r.1) n (record (s.dais n) { graph = false })))

abbrev pub noted : Lpass → ℕ → Apm × List Command × Ret → Lpass × Ret
noted s n (a, cs, err e) = (advanced s a cs, err e)
noted s n (a, cs, ok i) = (set_dai (advanced s a cs) n (record (s.dais n) { graph = true }), ok 0)

-- `q6apm_graph_open` for the DAI's number.
unfoldable pub open_port : Lpass → ℕ → OpenEnv → Option (Lpass × Ret)
unfolding graph_open
open_port s n env = and_then (graph_open s.apm n env) (λ r. some (noted s n r))

-- `q6apm_lpass_dai_shutdown`
unfoldable pub dai_shutdown : Lpass → ℕ → CmdEnv → CmdEnv → Option Lpass
unfolding stop_port close_port
dai_shutdown s n stop close =
    and_then (if (s.dais n).is_port_started then stop_port s n stop else some s)
      (λ t. if (t.dais n).graph then close_port t n close else some t)

-- `q6apm_lpass_dai_startup`
unfoldable pub dai_startup : Lpass → ℕ → Direction → OpenEnv → Option (Lpass × Ret)
unfolding open_port
dai_startup s n playback env = some (s, ok 0)
dai_startup s n capture env = open_port s n env

-- The answers for one call of prepare, in the order of the steps.
pub record PrepareEnv : Type 0 where
  pub stop : CmdEnv
  pub close : CmdEnv
  pub opening : OpenEnv
  pub prepare : CmdEnv
  pub start : CmdEnv
  pub undo : CmdEnv

-- The label `err`.
abbrev pub gave_up : Lpass → ℕ → Direction → CmdEnv → ℕ → Option (Lpass × Ret)
gave_up s n capture x e = some (s, err e)
gave_up s n playback x e = and_then (close_port s n x) (λ t. some (t, err e))

-- The port that runs is stopped, and closed for playback.
unfoldable pub quiesce : Lpass → ℕ → Direction → PrepareEnv → Option Lpass
unfolding stop_port close_port
quiesce s n dir env =
    if not (s.dais n).is_port_started
    then some s
    else and_then (stop_port s n env.stop)
        (λ t. elim dir [ playback ↦ close_port t n env.close | capture ↦ some t ])

abbrev pub reopen : Lpass → ℕ → Direction → PrepareEnv → Option (Lpass × Ret)
reopen s n playback env = open_port s n env.opening
reopen s n capture env = some (s, ok 0)

abbrev pub after_start :
    Lpass → ℕ → Direction → PrepareEnv → Apm × List Command × Ret → Option (Lpass × Ret)
after_start s n dir env (a, cs, err e) = gave_up (advanced s a cs) n dir env.undo e
after_start s n dir env (a, cs, ok i) =
    let t = advanced s a cs in
    some (set_dai t n (record (t.dais n) { is_port_started = true }), ok 0)

abbrev pub start_port : Lpass → ℕ → Direction → PrepareEnv → Option (Lpass × Ret)
start_port s n dir env = and_then (graph_start s.apm n env.start) (after_start s n dir env)

abbrev pub after_prepare :
    Lpass → ℕ → Direction → PrepareEnv → Apm × List Command × Ret → Option (Lpass × Ret)
after_prepare s n dir env (a, cs, err e) = gave_up (advanced s a cs) n dir env.undo e
after_prepare s n dir env (a, cs, ok i) = start_port (advanced s a cs) n dir env

-- The media format, which reads the graph and never fails, the preparation and the start.
unfoldable pub run_port : Lpass → ℕ → Direction → PrepareEnv → Option (Lpass × Ret)
unfolding graph_prepare graph_start close_port
run_port s n dir env =
    if not (s.dais n).graph
    then none
    else and_then (graph_prepare s.apm n env.prepare) (after_prepare s n dir env)

abbrev pub reopened : ℕ → Direction → PrepareEnv → Lpass × Ret → Option (Lpass × Ret)
reopened n dir env (s, err e) = some (s, err e)
reopened n dir env (s, ok i) = run_port s n dir env

-- `q6apm_lpass_dai_prepare`
unfoldable pub dai_prepare : Lpass → ℕ → Direction → PrepareEnv → Option (Lpass × Ret)
unfolding quiesce open_port run_port
dai_prepare s n dir env =
    and_then (quiesce s n dir env) (λ t. and_then (reopen t n dir env) (reopened n dir env))

-- One use of a DAI as ALSA drives it: startup, prepare any number of times, whatever comes of it, and
-- shutdown. After a failed startup nothing is called.
pub record Session : Type 0 where
  pub dir : Direction
  pub opening : OpenEnv
  pub prepares : List PrepareEnv
  pub stop : CmdEnv
  pub close : CmdEnv

unfoldable pub prepare_all : Lpass → ℕ → Direction → List PrepareEnv → Option Lpass
unfolding dai_prepare
prepare_all s n dir [] = some s
prepare_all s n dir (env ∷ rest) =
    and_then (dai_prepare s n dir env) (λ r. prepare_all r.0 n dir rest)

abbrev pub after_startup : ℕ → Session → Lpass × Ret → Option Lpass
after_startup n x (s, err e) = some s
after_startup n x (s, ok i) =
    and_then (prepare_all s n x.dir x.prepares) (λ t. dai_shutdown t n x.stop x.close)

unfoldable pub sessions : Lpass → ℕ → List Session → Option Lpass
unfolding dai_startup prepare_all dai_shutdown
sessions s n [] = some s
sessions s n (x ∷ xs) =
    and_then (and_then (dai_startup s n x.dir x.opening) (after_startup n x)) (λ t. sessions t n xs)
