-- ===== src/Apm/Graphs/Protocol.antt =====
-- The DSP's view of the graphs of source-reference/kernel/qdsp6/q6apm.c, as a protocol of commands that
-- the calls of any number of clients implement.
use audioreach_usb_offload_r.Prelude.{
  ℕ, ◌≤◌, ◌<◌, ◌≡◌, ◌⊎◌, true, Option, none, some, List, [], ◌∷◌, ◌++◌, ◌==◌, if◌then◌else◌,
}
use audioreach_usb_offload_r.Stream.{Ret, ok}
use audioreach_usb_offload_r.Sideband.{update}
use audioreach_usb_offload_r.Apm.Graphs.{
  ArGraph, Apm, Command, open_graph, prepare_graph, start_graph, stop_graph, flush_graph,
  close_graph, CmdEnv, OpenEnv, graph_open, graph_close, graph_prepare, graph_flush, graph_start,
  graph_stop,
}

-- A graph in the DSP, and the commands that it takes in each state.
pub data DspState : Type 0 where
  closed ready running : DspState

abbrev pub dsp_one : DspState → Command → Option DspState
dsp_one closed (open_graph n) = some ready
dsp_one ready (prepare_graph n) = some ready
dsp_one ready (start_graph n) = some running
dsp_one ready (flush_graph n) = some ready
dsp_one ready (close_graph n) = some closed
dsp_one running (prepare_graph n) = some running
dsp_one running (flush_graph n) = some running
dsp_one running (stop_graph n) = some ready
dsp_one _ _ = none

abbrev pub target : Command → ℕ
target (open_graph n) = n
target (prepare_graph n) = n
target (start_graph n) = n
target (stop_graph n) = n
target (flush_graph n) = n
target (close_graph n) = n

abbrev pub dsp_step : (ℕ → DspState) → Command → Option (ℕ → DspState)
dsp_step d c = elim (dsp_one (d (target c)) c) [
  | none ↦ none
  | some s ↦ some (update d (target c) s)
]

-- The commands in order; none where the DSP refuses one.
unfoldable pub dsp_run : (ℕ → DspState) → List Command → Option (ℕ → DspState)
dsp_run d [] = some d
dsp_run d (c ∷ cs) = elim (dsp_step d c) [ none ↦ none | some e ↦ dsp_run e cs ]

-- What the DSP should be in.
abbrev pub view_of : Option ArGraph → DspState
view_of none = closed
view_of (some g) = if g.started == g.stopped then ready else running

abbrev pub Views : Apm → (ℕ → DspState) → Type 0
Views a d = (n : ℕ) → d n ≡ view_of (a.graphs n)

abbrev pub IsGraph : Option ArGraph → Type 0
IsGraph none = Unit
IsGraph (some g) = (0 < g.refcount) × (g.stopped ≤ g.started)

-- Each graph is referred to, and not stopped more often than started.
abbrev pub IsApm : Apm → Type 0
IsApm a = (n : ℕ) → IsGraph (a.graphs n)

-- The calls of clients, where every command is delivered and every allocation succeeds.
pub data ClientCall : Type 0 where
  opens closes starts stops prepares flushes : ℕ → ClientCall

abbrev pub delivered : CmdEnv
delivered = record { pkt_allocated = true; sent = ok 0; answered = some 0 }

abbrev pub all_good : OpenEnv
all_good = record {
  graph_allocated = true;
  pkt = ok 0;
  idr = ok 0;
  open_cmd = delivered;
  handle_allocated = true;
  port = ok 0;
  close_cmd = delivered;
}

abbrev unreturned : Option (Apm × List Command × Ret) → Option (Apm × List Command)
unreturned none = none
unreturned (some r) = some (r.0, r.1)

unfoldable pub client_call : Apm → ClientCall → Option (Apm × List Command)
unfolding graph_open graph_close graph_start graph_stop graph_prepare graph_flush
client_call a (opens n) = unreturned (graph_open a n all_good)
client_call a (closes n) = graph_close a n delivered
client_call a (starts n) = unreturned (graph_start a n delivered)
client_call a (stops n) = unreturned (graph_stop a n delivered)
client_call a (prepares n) = unreturned (graph_prepare a n delivered)
client_call a (flushes n) = unreturned (graph_flush a n delivered)

-- What a client may call: it closes a graph that it holds, the last one not while it runs, and stops a
-- graph as often as it has been started.
abbrev pub Legal : Apm → ClientCall → Type 0
Legal a (opens n) = a.known n ≡ true
Legal a (closes n) =
    (g : ArGraph) × (a.graphs n ≡ some g) × ((1 < g.refcount) ⊎ (g.started ≡ g.stopped))
Legal a (starts n) = (g : ArGraph) × (a.graphs n ≡ some g)
Legal a (stops n) = (g : ArGraph) × (a.graphs n ≡ some g) × (g.stopped < g.started)
Legal a (prepares n) = (g : ArGraph) × (a.graphs n ≡ some g)
Legal a (flushes n) = (g : ArGraph) × (a.graphs n ≡ some g)

-- A call that succeeds, whose commands the DSP takes and follows.
abbrev pub Refines : Apm → (ℕ → DspState) → Option (Apm × List Command) → Type 0
Refines a d r =
    (b : Apm) × (cs : List Command) × (e : ℕ → DspState) × (r ≡ some (b, cs))
    × (dsp_run d cs ≡ some e)
    × Views b e
    × IsApm b

-- Legal calls one after another, and the commands that they send.
pub data Run (a : Apm) : Apm → List Command → Type 0 where
  here : Run a a []
  next :
      {b c : Apm} {xs : List Command} (k : ClientCall) (ys : List Command)
      → Run a b xs
      → Legal b k
      → client_call b k ≡ some (c, ys)
      → Run a c (xs ++ ys)
