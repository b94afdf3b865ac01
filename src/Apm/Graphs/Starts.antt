-- ===== src/Apm/Graphs/Starts.antt =====
-- The start count of a graph when a command fails or a stop is not matched
-- (source-reference/kernel/qdsp6/q6apm.c).
use audioreach_usb_offload_r.Prelude.{ℕ, ◌+◌, ◌≡◌, false, some, List, [], ◌==◌, arith}
use audioreach_usb_offload_r.Stream.{Ret, ok, err}
use audioreach_usb_offload_r.Apm.Graphs.{
  ArGraph, Apm, Command, start_graph, CmdEnv, graph_mgmt_cmd, graph_start, graph_stop, stop_graph,
  set_graph,
}

-- A graph that is not running: after a start that fails, and after a stop too many whatever the DSP
-- answers to it, the next start returns success without a command to the DSP.
pub graph_start-silent :
    (a : Apm) (n : ℕ) (g : ArGraph) (x z : CmdEnv) (e : ℕ)
    → a.graphs n ≡ some g
    → g.started ≡ g.stopped
    → (graph_mgmt_cmd (start_graph n) x).1 ≡ err e
    → ((b : Apm) × (cs : List Command) × (graph_start a n x ≡ some (b, cs, err e))
        × ((y : CmdEnv) → (c : Apm) × (graph_start b n y ≡ some (c, [], ok 0))))
      × ((b : Apm) × (cs : List Command) × (ret : Ret) × (graph_stop a n z ≡ some (b, cs, ret))
          × ((y : CmdEnv) → (c : Apm) × (graph_start b n y ≡ some (c, [], ok 0))))
unfolding graph_start graph_stop
graph_start-silent a n g x z e there count failed =
    let once : ArGraph = record g { started = g.started + 1 } in
    let less : ArGraph = record g { stopped = g.stopped + 1 } in
    let lost : (g.started + 1 == g.stopped) ≡ false = ground arith in
    let under : (g.started == g.stopped + 1) ≡ false = ground arith in
    (
      (
        set_graph a n (some once),
        (graph_mgmt_cmd (start_graph n) x).0,
        ground (arith, there, count, failed),
        λ y. (
          set_graph a n (some (record once { started = once.started + 1 })),
          ground (arith, lost),
        ),
      ),
      (
        set_graph a n (some less),
        (graph_mgmt_cmd (stop_graph n) z).0,
        (graph_mgmt_cmd (stop_graph n) z).1,
        ground (arith, there, count),
        λ y. (
          set_graph a n (some (record less { started = less.started + 1 })),
          ground (arith, under),
        ),
      ),
    )
