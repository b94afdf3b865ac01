-- ===== src/Lpass/Prepare.antt =====
-- Preparing a back-end DAI of upstream-src/sound/soc/qcom/qdsp6/q6apm-lpass-dais.c.
use audioreach_usb_offload_r.Prelude.{
  and_then, Sat, Sat-map, and_then-Sat, ℕ, ◌+◌, ◌≡◌, ◌⊎◌, inl, inr, refl, Bool, true, false, some,
  List, ◌==◌, arith,
}
use audioreach_usb_offload_r.Stream.{Ret, ok, err}
use audioreach_usb_offload_r.Apm.{Direction, playback, capture}
use audioreach_usb_offload_r.Apm.Graphs.{ArGraph, Apm, Command, CmdEnv, graph_prepare, graph_start}
use audioreach_usb_offload_r.Lpass.{
  Lpass, after_start, after_prepare, reopened, advanced, set_dai, reopen, start_port, gave_up,
  PrepareEnv, stop_port, close_port, open_port, quiesce, run_port, dai_prepare,
}
use audioreach_usb_offload_r.Lpass.Ports.{
  Idle, Holds, Apart, stops, closes, Opened, opens, Apart-trans, and_then-Apart,
}

-- A DAI whose graph does not run: for playback it has none.
abbrev pub Quiet : Direction → Lpass → ℕ → Type 0
Quiet playback s n = Idle s n
Quiet capture s n = Holds s n false

-- A DAI between startup and shutdown.
abbrev pub Owned : Direction → Lpass → ℕ → Type 0
Owned dir s n = Quiet dir s n ⊎ Holds s n true

-- After a step that may fail.
abbrev pub Stepped : Direction → ℕ → Bool → Lpass × Ret → Type 0
Stepped dir n b (t, ok i) = Holds t n b
Stepped dir n b (t, err e) = Quiet dir t n

Quiet-unstarted :
    (dir : Direction) (s : Lpass) (n : ℕ) → Quiet dir s n → (s.dais n).is_port_started ≡ false
Quiet-unstarted playback s n (free, off, gone) = off
Quiet-unstarted capture s n h = h.1

quiesces :
    (s : Lpass) (n : ℕ) (dir : Direction) (env : PrepareEnv)
    → Owned dir s n
    → Sat (quiesce s n dir env) (λ t. Quiet dir t n × Apart n s t)
unfolding quiesce
quiesces s n dir env (inl q) = rw (Quiet-unstarted dir s n q, Sat) (q, λ m ne. (refl, refl))
quiesces s n playback env (inr h) =
    rw (h.1, Sat)
      (and_then-Apart n s (stop_port s n env.stop) (λ t. close_port t n env.close)
        (λ t. Holds t n false) (λ t. t) (λ t. t) _ (stops s n true env.stop h)
        (λ t k. closes t n env.close k))
quiesces s n capture env (inr h) =
    rw (h.1, Sat)
      (and_then-Sat (stop_port s n env.stop) _ _ _ (stops s n true env.stop h) (λ t k. k))

fails :
    (s : Lpass) (n : ℕ) (dir : Direction) (x : CmdEnv) (e : ℕ)
    → Holds s n false
    → Sat (gave_up s n dir x e) (λ r. Stepped dir n true r × Apart n s r.0)
fails s n capture x e h = (h, λ m ne. (refl, refl))
fails s n playback x e h = and_then-Sat (close_port s n x) _ _ _ (closes s n x h) (λ t k. k)

-- A command for graph n: only its counts change.
Commanded : Apm → ℕ → Apm × List Command × Ret → Type 0
Commanded a n (b, cs, ret) =
    ((g : ArGraph) × (b.graphs n ≡ some g) × (g.refcount ≡ 1))
    × ((m : ℕ) → (n == m) ≡ false → b.graphs m ≡ a.graphs m)

graph_start-Commanded :
    (a : Apm) (n : ℕ) (x : CmdEnv) (g : ArGraph)
    → a.graphs n ≡ some g
    → g.refcount ≡ 1
    → Sat (graph_start a n x) (Commanded a n)
unfolding graph_start Commanded
graph_start-Commanded a n x g there one =
    rw (there, Sat)
      ((record g { started = g.started + 1 }, ground arith, one), λ m ne. ground (arith, ne))

graph_prepare-Commanded :
    (a : Apm) (n : ℕ) (x : CmdEnv) (g : ArGraph)
    → a.graphs n ≡ some g
    → g.refcount ≡ 1
    → Sat (graph_prepare a n x) (Commanded a n)
unfolding graph_prepare Commanded
graph_prepare-Commanded a n x g there one = rw (there, Sat) ((g, there, one), λ m ne. refl)

-- A DAI that has its graph still has it after a command.
commanded :
    (s : Lpass) (n : ℕ) (a : Apm) (cs : List Command) (ret : Ret)
    → Holds s n false
    → Commanded s.apm n (a, cs, ret)
    → Holds (advanced s a cs) n false × Apart n s (advanced s a cs)
unfolding Commanded
commanded s n a cs ret h (there, others) =
    ((h.0, h.1, there.0, there.1, there.2), λ m ne. (others m ne, refl))

flagged :
    (t : Lpass) (n : ℕ)
    → Holds t n false
    → Holds (set_dai t n (record (t.dais n) { is_port_started = true })) n true
      × Apart n t (set_dai t n (record (t.dais n) { is_port_started = true }))
flagged t n (held, off, g, there, one) =
    ((ground (arith, held), ground arith, g, there, one), λ m ne. (refl, ground (arith, ne)))

started_lem :
    (s : Lpass) (n : ℕ) (dir : Direction) (env : PrepareEnv) (r : Apm × List Command × Ret)
    → Holds s n false
    → Commanded s.apm n r
    → Sat (after_start s n dir env r) (λ t. Stepped dir n true t × Apart n s t.0)
started_lem s n dir env (a, cs, err e) h c =
    let k = commanded s n a cs (err e) h c in
    Sat-map (gave_up (advanced s a cs) n dir env.undo e)
      (λ t q. (q.0, Apart-trans n s (advanced s a cs) t.0 k.1 q.1))
      (fails (advanced s a cs) n dir env.undo e k.0)
started_lem s n dir env (a, cs, ok i) h c =
    let k = commanded s n a cs (ok i) h c in
    let f = flagged (advanced s a cs) n k.0 in
    (
      f.0,
      Apart-trans n s (advanced s a cs)
          (set_dai (advanced s a cs) n
            (record ((advanced s a cs).dais n) { is_port_started = true }))
          k.1 f.1,
    )

starts :
    (s : Lpass) (n : ℕ) (dir : Direction) (env : PrepareEnv)
    → Holds s n false
    → Sat (start_port s n dir env) (λ r. Stepped dir n true r × Apart n s r.0)
starts s n dir env h =
    and_then-Sat (graph_start s.apm n env.start) (after_start s n dir env) (Commanded s.apm n) _
      (graph_start-Commanded s.apm n env.start h.2 h.3 h.4) (λ r c. started_lem s n dir env r h c)

prepared_lem :
    (s : Lpass) (n : ℕ) (dir : Direction) (env : PrepareEnv) (r : Apm × List Command × Ret)
    → Holds s n false
    → Commanded s.apm n r
    → Sat (after_prepare s n dir env r) (λ t. Stepped dir n true t × Apart n s t.0)
prepared_lem s n dir env (a, cs, err e) h c = started_lem s n dir env (a, cs, err e) h c
prepared_lem s n dir env (a, cs, ok i) h c =
    let k = commanded s n a cs (ok i) h c in
    Sat-map (start_port (advanced s a cs) n dir env)
      (λ t q. (q.0, Apart-trans n s (advanced s a cs) t.0 k.1 q.1))
      (starts (advanced s a cs) n dir env k.0)

runs :
    (s : Lpass) (n : ℕ) (dir : Direction) (env : PrepareEnv)
    → Holds s n false
    → Sat (run_port s n dir env) (λ r. Stepped dir n true r × Apart n s r.0)
unfolding run_port
runs s n dir env h =
    rw (h.0, Sat)
      (and_then-Sat (graph_prepare s.apm n env.prepare) (after_prepare s n dir env)
        (Commanded s.apm n) _ (graph_prepare-Commanded s.apm n env.prepare h.2 h.3 h.4)
        (λ r c. prepared_lem s n dir env r h c))

reopens :
    (s : Lpass) (n : ℕ) (dir : Direction) (env : PrepareEnv)
    → Quiet dir s n
    → Sat (reopen s n dir env) (λ r. Stepped dir n false r × Apart n s r.0)
reopens s n playback env h =
    Sat-map (open_port s n env.opening) (λ r q. (opened_step r q.0, q.1)) (opens s n env.opening h)
  where
    opened_step : (r : Lpass × Ret) → Opened n r → Stepped playback n false r
    opened_step (t, ok i) o = o
    opened_step (t, err e) o = o
reopens s n capture env h = (h, λ m ne. (refl, refl))

reopened_lem :
    (n : ℕ) (dir : Direction) (env : PrepareEnv) (r : Lpass × Ret)
    → Stepped dir n false r
    → Sat (reopened n dir env r) (λ t. Stepped dir n true t × Apart n r.0 t.0)
reopened_lem n dir env (s, err e) h = (h, λ m ne. (refl, refl))
reopened_lem n dir env (s, ok i) h = runs s n dir env h

-- `prepare` of a DAI between startup and shutdown.
pub prepares :
    (s : Lpass) (n : ℕ) (dir : Direction) (env : PrepareEnv)
    → Owned dir s n
    → Sat (dai_prepare s n dir env) (λ r. Stepped dir n true r × Apart n s r.0)
unfolding dai_prepare
prepares s n dir env h =
    and_then-Apart n s (quiesce s n dir env)
      (λ t. and_then (reopen t n dir env) (reopened n dir env)) (λ t. Quiet dir t n) (λ t. t)
      (λ r. r.0) (Stepped dir n true) (quiesces s n dir env h)
      (λ t q.
        and_then-Apart n t (reopen t n dir env) (reopened n dir env) (Stepped dir n false)
          (λ r. r.0) (λ r. r.0) (Stepped dir n true) (reopens t n dir env q)
          (λ r k. reopened_lem n dir env r k))
