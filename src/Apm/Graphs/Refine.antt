-- ===== src/Apm/Graphs/Refine.antt =====
-- The calls of the clients of source-reference/kernel/qdsp6/q6apm.c implement the protocol of the DSP.
use audioreach_usb_offload_r.Prelude.{
  ℕ, ◌+◌, ◌-◌, ◌≡◌, inl, inr, refl, sym, ap, ◌∙◌, true, false, Option, none, some, List, [], ◌∷◌,
  ◌++◌, ltb, ◌==◌, arith, Bool-cases, Option-cases,
}
use audioreach_usb_offload_r.Sideband.{update}
use audioreach_usb_offload_r.Apm.Graphs.{
  ArGraph, Apm, Command, open_graph, prepare_graph, start_graph, stop_graph, flush_graph,
  close_graph, set_graph, graph_mgmt_cmd, get_audioreach_graph, put_audioreach_graph, graph_open,
  graph_close, graph_prepare, graph_flush, graph_start, graph_stop,
}
use audioreach_usb_offload_r.Apm.Graphs.Protocol.{
  DspState, closed, ready, running, dsp_one, target, dsp_step, dsp_run, view_of, Views, IsGraph,
  IsApm, ClientCall, opens, closes, starts, stops, prepares, flushes, client_call, Legal, Refines,
  Run, here, next,
}

Views-stay :
    (a : Apm) (d : ℕ → DspState) (n : ℕ) (o : Option ArGraph)
    → Views a d
    → view_of o ≡ view_of (a.graphs n)
    → Views (set_graph a n o) d
Views-stay a d n o v e m = elim (Bool-cases (n == m)) [
  | inl same ↦
      let f : n ≡ m = ground arith in rw same (v m ∙ sym (e ∙ ap (λ k. view_of (a.graphs k)) f))
  | inr other ↦ rw other (v m)
]

Views-move :
    (a : Apm) (d : ℕ → DspState) (n : ℕ) (o : Option ArGraph) (s : DspState)
    → Views a d
    → s ≡ view_of o
    → Views (set_graph a n o) (update d n s)
Views-move a d n o s v e m = elim (Bool-cases (n == m)) [
  | inl same ↦ rw same e
  | inr other ↦ rw other (v m)
]

IsApm-set : (a : Apm) (n : ℕ) (o : Option ArGraph) → IsApm a → IsGraph o → IsApm (set_graph a n o)
IsApm-set a n o v g m = elim (Bool-cases (n == m)) [
  | inl same ↦ rw same g
  | inr other ↦ rw other (v m)
]

-- No command: the DSP's view of the graph stays.
silent :
    (a : Apm) (d : ℕ → DspState) (n : ℕ) (o : Option ArGraph) (r : Option (Apm × List Command))
    → IsApm a
    → Views a d
    → IsGraph o
    → view_of o ≡ view_of (a.graphs n)
    → r ≡ some (set_graph a n o, [])
    → Refines a d r
unfolding dsp_run
silent a d n o r i v g e f =
    (set_graph a n o, [], d, f, refl, Views-stay a d n o v e, IsApm-set a n o i g)

-- One command that takes the DSP to the new view.
commanded :
    (a : Apm) (d : ℕ → DspState) (n : ℕ) (o : Option ArGraph) (c : Command) (s : DspState)
    (r : Option (Apm × List Command))
    → IsApm a
    → Views a d
    → IsGraph o
    → target c ≡ n
    → dsp_one (view_of (a.graphs n)) c ≡ some s
    → s ≡ view_of o
    → r ≡ some (set_graph a n o, c ∷ [])
    → Refines a d r
unfolding dsp_run
commanded a d n o c s r i v g t p e f =
    let q : dsp_one (d (target c)) c ≡ some s =
      ap (λ k. dsp_one (d k) c) t ∙ ap (λ w. dsp_one w c) (v n) ∙ p in
    (
      set_graph a n o,
      c ∷ [],
      update d n s,
      f,
      ground (arith, q, t),
      Views-move a d n o s v e,
      IsApm-set a n o i g,
    )

opens-Refines :
    (a : Apm) (d : ℕ → DspState) (n : ℕ)
    → IsApm a
    → Views a d
    → a.known n ≡ true
    → Refines a d (client_call a (opens n))
unfolding client_call graph_open get_audioreach_graph
opens-Refines a d n i v k = elim (Option-cases (a.graphs n)) [
  | inl e ↦
      commanded a d n (some (record { refcount = 1; started = 0; stopped = 0 })) (open_graph n)
        ready _ i v (omega arith, omega arith) refl (rw e refl) refl (ground (arith, e, k))
  | inr (g, e) ↦
      let (used, count) = rw e at (i n) in
      silent a d n (some (record g { refcount = g.refcount + 1 })) _ i v (omega arith, count)
        (rw e refl) (ground (arith, e))
]

closes-Refines :
    (a : Apm) (d : ℕ → DspState) (n : ℕ)
    → IsApm a
    → Views a d
    → Legal a (closes n)
    → Refines a d (client_call a (closes n))
unfolding client_call graph_close put_audioreach_graph graph_mgmt_cmd
closes-Refines a d n i v (g, e, h) =
    let (used, count) = rw e at (i n) in
    elim (Bool-cases (g.refcount == 1)) [
      | inl f ↦
          let idle : (g.started == g.stopped) ≡ true = ground (arith, h, f) in
          commanded a d n none (close_graph n) closed _ i v tt refl (rw e (rw idle refl)) refl
            (ground (arith, e, f))
      | inr f ↦
          silent a d n (some (record g { refcount = g.refcount - 1 })) _ i v
            (ground (arith, f, used), count) (rw e refl) (ground (arith, e, f))
    ]

starts-Refines :
    (a : Apm) (d : ℕ → DspState) (n : ℕ)
    → IsApm a
    → Views a d
    → Legal a (starts n)
    → Refines a d (client_call a (starts n))
unfolding client_call graph_start graph_mgmt_cmd
starts-Refines a d n i v (g, e) =
    let (used, count) = rw e at (i n) in
    let more : ArGraph = record g { started = g.started + 1 } in
    let runs : running ≡ view_of (some more) = ground (arith, count) in
    elim (Bool-cases (g.started == g.stopped)) [
      | inl f ↦
          commanded a d n (some more) (start_graph n) running _ i v (used, omega (arith, count))
            refl (rw e (rw f refl)) runs (ground (arith, e, f))
      | inr f ↦
          silent a d n (some more) _ i v (used, omega (arith, count)) (sym runs ∙ rw e (rw f refl))
            (ground (arith, e, f))
    ]

stops-Refines :
    (a : Apm) (d : ℕ → DspState) (n : ℕ)
    → IsApm a
    → Views a d
    → Legal a (stops n)
    → Refines a d (client_call a (stops n))
unfolding client_call graph_stop graph_mgmt_cmd
stops-Refines a d n i v (g, e, lt) =
    let (used, count) = rw e at (i n) in
    let less : ArGraph = record g { stopped = g.stopped + 1 } in
    let busy : (g.started == g.stopped) ≡ false = ground (arith, lt) in
    elim (Bool-cases (ltb (g.stopped + 1) g.started)) [
      | inl f ↦
          silent a d n (some less) _ i v (used, omega (arith, lt)) (rw e (ground (arith, busy, f)))
            (ground (arith, e, f))
      | inr f ↦
          commanded a d n (some less) (stop_graph n) ready _ i v (used, omega (arith, lt)) refl
            (rw e (rw busy refl)) (ground (arith, f, lt)) (ground (arith, e, f))
    ]

-- A command that leaves the graph as it is.
kept :
    (a : Apm) (d : ℕ → DspState) (n : ℕ) (c : Command) (r : Option (Apm × List Command))
    → IsApm a
    → Views a d
    → target c ≡ n
    → dsp_one (view_of (a.graphs n)) c ≡ some (view_of (a.graphs n))
    → r ≡ some (a, c ∷ [])
    → Refines a d r
unfolding dsp_run
kept a d n c r i v t p f =
    let q : dsp_one (d (target c)) c ≡ some (d n) =
      ap (λ k. dsp_one (d k) c) t ∙ ap (λ w. dsp_one w c) (v n) ∙ p ∙ ap some (sym (v n)) in
    (a, c ∷ [], update d n (d n), f, ground (arith, q, t), (λ m. ground (arith, v m)), i)

takes_prepare :
    (g : ArGraph) (n : ℕ) → dsp_one (view_of (some g)) (prepare_graph n) ≡ some (view_of (some g))
takes_prepare g n = ground arith

takes_flush :
    (g : ArGraph) (n : ℕ) → dsp_one (view_of (some g)) (flush_graph n) ≡ some (view_of (some g))
takes_flush g n = ground arith

-- A legal call never faults, the DSP takes its commands in the state that it is in, and is afterwards in
-- the state that the counts say: closed without a client, ready or running by the start count.
pub call-Refines :
    (a : Apm) (d : ℕ → DspState) (c : ClientCall)
    → IsApm a
    → Views a d
    → Legal a c
    → Refines a d (client_call a c)
unfolding client_call graph_prepare graph_flush graph_mgmt_cmd
call-Refines a d (opens n) i v h = opens-Refines a d n i v h
call-Refines a d (closes n) i v h = closes-Refines a d n i v h
call-Refines a d (starts n) i v h = starts-Refines a d n i v h
call-Refines a d (stops n) i v h = stops-Refines a d n i v h
call-Refines a d (prepares n) i v (g, e) =
    kept a d n (prepare_graph n) _ i v refl (rw e (takes_prepare g n)) (ground (arith, e))
call-Refines a d (flushes n) i v (g, e) =
    kept a d n (flush_graph n) _ i v refl (rw e (takes_flush g n)) (ground (arith, e))

dsp_run-append :
    (xs ys : List Command) (d e : ℕ → DspState)
    → dsp_run d xs ≡ some e
    → dsp_run d (xs ++ ys) ≡ dsp_run e ys
unfolding dsp_run
dsp_run-append [] ys d e h = ground (arith, h)
dsp_run-append (x ∷ xs) ys d e h = elim (Option-cases (dsp_step d x)) [
  | inl n ↦ ground (arith, h, n)
  | inr (f, s) ↦ ground (arith, s, dsp_run-append xs ys f e (ground (arith, h, s)))
]

IsApm-eq : (b c : Apm) → b ≡ c → IsApm b → IsApm c
IsApm-eq b c e i n = rw (← e) (i n)

-- From counts that the DSP agrees with, and where every command is delivered and every allocation
-- succeeds: whatever the clients do, as long as each call is legal when it is made, the DSP takes
-- the whole sequence of commands, and ends in the state that the counts say.
pub Run-refines :
    (a : Apm) (d : ℕ → DspState) {b : Apm} {cs : List Command}
    → IsApm a
    → Views a d
    → Run a b cs
    → (e : ℕ → DspState) × (dsp_run d cs ≡ some e) × Views b e × IsApm b
unfolding dsp_run
Run-refines a d i v here = (d, refl, v, i)
Run-refines a d i v (next {b} {c} {xs} k ys r legal e) =
    let (m, run, view, inv) = Run-refines a d i v r in
    let (b2, cs2, f, same, more, view2, inv2) = call-Refines b m k inv view legal in
    let same_apm : b2 ≡ c = ground (arith, same, e) in
    let same_commands : cs2 ≡ ys = ground (arith, same, e) in
    (
      f,
      dsp_run-append xs ys d m run ∙ ap (dsp_run m) (sym same_commands) ∙ more,
      λ n. view2 n ∙ ap (λ (t : Apm). view_of (t.graphs n)) same_apm,
      IsApm-eq b2 c same_apm inv2,
    )
