-- ===== src/Apm/Graphs.antt =====
-- The life of the graphs in source-reference/kernel/qdsp6/q6apm.c: the clients of one graph share it by
-- a reference count and a start count, and the first and the last of them command the DSP. `none` is a
-- fault: a call on a graph that has been freed.
pub mod Protocol
pub mod Refine
pub mod Starts
use audioreach_usb_offload_r.Prelude.{
  ℕ, zero, suc, ◌+◌, ◌-◌, Bool, true, false, not, ◌&&◌, Option, none, some, List, [], ◌∷◌, ◌++◌,
  ltb, ◌==◌, if◌then◌else◌,
}
use audioreach_usb_offload_r.Stream.{Ret, ok, err, einval, enodev, enomem}
use audioreach_usb_offload_r.Sideband.{update}
use audioreach_usb_offload_r.Apm.{etimedout}

-- `struct audioreach_graph`. Its `start_count`, an `int`, is `started` less `stopped`, which may be
-- negative.
pub record ArGraph : Type 0 where
  pub refcount : ℕ
  pub started : ℕ
  pub stopped : ℕ

-- `struct q6apm`: the graphs that the topology declares (`graph_info_idr`), and those that exist
-- (`graph_idr`).
pub record Apm : Type 0 where
  pub known : ℕ → Bool
  pub graphs : ℕ → Option ArGraph

-- APM_CMD_GRAPH_OPEN and so on, with the graph.
pub data Command : Type 0 where
  open_graph prepare_graph start_graph stop_graph flush_graph close_graph : ℕ → Command

-- One command: whether its packet can be allocated, what sending it returns, and the status in the
-- result that `apm_callback` notes, if one comes in time.
pub record CmdEnv : Type 0 where
  pub pkt_allocated : Bool
  pub sent : Ret
  pub answered : Option ℕ

abbrev result_of : Option ℕ → Ret
result_of none = err etimedout
result_of (some status) = if ltb 0 status then err einval else ok 0

abbrev exchanged : Command → Ret → Option ℕ → List Command × Ret
exchanged c (err e) answered = ([], err e)
exchanged c (ok n) answered = (c ∷ [], result_of answered)

-- `audioreach_graph_mgmt_cmd`: the commands that reach the DSP, and the return value.
unfoldable pub graph_mgmt_cmd : Command → CmdEnv → List Command × Ret
graph_mgmt_cmd c x = if not x.pkt_allocated then ([], err enomem) else exchanged c x.sent x.answered

-- The answers for opening a graph. `pkt` and `idr` are 0 or the error of `audioreach_alloc_graph_pkt`
-- and `idr_alloc`, `port` that of `gpr_alloc_port`.
pub record OpenEnv : Type 0 where
  pub graph_allocated : Bool
  pub pkt : Ret
  pub idr : Ret
  pub open_cmd : CmdEnv
  pub handle_allocated : Bool
  pub port : Ret
  pub close_cmd : CmdEnv

abbrev pub set_graph : Apm → ℕ → Option ArGraph → Apm
set_graph a n g = record a { graphs = update a.graphs n g }

-- A graph that does not exist yet. The outcome of the command is not looked at.
abbrev created : Apm → ℕ → OpenEnv → Apm × List Command × Ret
created a n env =
    if not (a.known n)
    then (a, [], err enodev)
    else if not env.graph_allocated
    then (a, [], err enomem)
    else elim env.pkt [
      | err e ↦ (a, [], err e)
      | ok i ↦ elim env.idr [
        | err e ↦ (a, [], err e)
        | ok j ↦ (
          set_graph a n (some (record { refcount = 1; started = 0; stopped = 0 })),
          (exchanged (open_graph n) env.open_cmd.sent env.open_cmd.answered).0,
          ok 0,
        )
      ]
    ]

-- `q6apm_get_audioreach_graph`
unfoldable pub get_audioreach_graph : Apm → ℕ → OpenEnv → Apm × List Command × Ret
get_audioreach_graph a n env = elim (a.graphs n) [
  | some g ↦ (set_graph a n (some (record g { refcount = g.refcount + 1 })), [], ok 0)
  | none ↦ created a n env
]

abbrev put : Apm → ℕ → CmdEnv → ArGraph → Apm × List Command
put a n x g =
    if g.refcount == 1
    then (set_graph a n none, (graph_mgmt_cmd (close_graph n) x).0)
    else (set_graph a n (some (record g { refcount = g.refcount - 1 })), [])

-- `kref_put` with `q6apm_put_audioreach_graph`.
unfoldable pub put_audioreach_graph : Apm → ℕ → CmdEnv → Option (Apm × List Command)
unfolding graph_mgmt_cmd
put_audioreach_graph a n x = elim (a.graphs n) [ none ↦ none | some g ↦ some (put a n x g) ]

abbrev pub given_up :
    List Command → Ret → Option (Apm × List Command) → Option (Apm × List Command × Ret)
given_up cs ret none = none
given_up cs ret (some (a, ds)) = some (a, cs ++ ds, ret)

abbrev pub opened : ℕ → OpenEnv → Apm × List Command × Ret → Option (Apm × List Command × Ret)
opened n env (a, cs, err e) = some (a, cs, err e)
opened n env (a, cs, ok i) =
    if not env.handle_allocated
    then given_up cs (err enomem) (put_audioreach_graph a n env.close_cmd)
    else elim env.port [
      | err e ↦ given_up cs (err e) (put_audioreach_graph a n env.close_cmd)
      | ok j ↦ some (a, cs, ok 0)
    ]

-- `q6apm_graph_open`: on success the caller has a reference to graph n.
unfoldable pub graph_open : Apm → ℕ → OpenEnv → Option (Apm × List Command × Ret)
unfolding get_audioreach_graph put_audioreach_graph
graph_open a n env = opened n env (get_audioreach_graph a n env)

-- `q6apm_graph_close`
unfoldable pub graph_close : Apm → ℕ → CmdEnv → Option (Apm × List Command)
unfolding put_audioreach_graph
graph_close a n x = put_audioreach_graph a n x

abbrev pub with_result : Apm → List Command × Ret → Apm × List Command × Ret
with_result a r = (a, r.0, r.1)

abbrev with_graph :
    Option ArGraph → (ArGraph → Apm × List Command × Ret) → Option (Apm × List Command × Ret)
with_graph none f = none
with_graph (some g) f = some (f g)

-- `q6apm_graph_prepare` and `q6apm_graph_flush`
unfoldable pub graph_prepare : Apm → ℕ → CmdEnv → Option (Apm × List Command × Ret)
unfolding graph_mgmt_cmd
graph_prepare a n x =
    with_graph (a.graphs n) (λ g. with_result a (graph_mgmt_cmd (prepare_graph n) x))

unfoldable pub graph_flush : Apm → ℕ → CmdEnv → Option (Apm × List Command × Ret)
unfolding graph_mgmt_cmd
graph_flush a n x = with_graph (a.graphs n) (λ g. with_result a (graph_mgmt_cmd (flush_graph n) x))

-- `q6apm_graph_start`: the count is raised whatever the outcome.
unfoldable pub graph_start : Apm → ℕ → CmdEnv → Option (Apm × List Command × Ret)
unfolding graph_mgmt_cmd
graph_start a n x = with_graph (a.graphs n) (λ g.
    with_result (set_graph a n (some (record g { started = g.started + 1 })))
      (if g.started == g.stopped then graph_mgmt_cmd (start_graph n) x else ([], ok 0)))

-- `q6apm_graph_stop`
unfoldable pub graph_stop : Apm → ℕ → CmdEnv → Option (Apm × List Command × Ret)
unfolding graph_mgmt_cmd
graph_stop a n x = with_graph (a.graphs n) (λ g.
    with_result (set_graph a n (some (record g { stopped = g.stopped + 1 })))
      (if ltb (g.stopped + 1) g.started then ([], ok 0) else graph_mgmt_cmd (stop_graph n) x))
