-- ===== src/Lpass/Ports.antt =====
-- What opening, stopping and closing the graph of a back-end DAI
-- (upstream-src/sound/soc/qcom/qdsp6/q6apm-lpass-dais.c) do to it and to the others.
use audioreach_usb_offload_r.Prelude.{
  and_then, Sat, Sat-map, and_then-Sat, ℕ, ◌+◌, ◌≡◌, ◌⊎◌, inl, inr, refl, Bool, true, false, Option,
  none, some, List, ◌==◌, arith, ◌∙◌, Bool-cases,
}
use audioreach_usb_offload_r.Stream.{Ret, ok, err, enomem}
use audioreach_usb_offload_r.Apm.Graphs.{
  ArGraph, Apm, Command, given_up, opened, CmdEnv, OpenEnv, get_audioreach_graph,
  put_audioreach_graph, graph_open, graph_close, graph_stop,
}
use audioreach_usb_offload_r.Lpass.{Lpass, noted, stop_port, close_port, open_port}

-- DAI n has no graph, and graph n does not exist.
abbrev pub Idle : Lpass → ℕ → Type 0
Idle s n =
    ((s.dais n).graph ≡ false) × ((s.dais n).is_port_started ≡ false) × (s.apm.graphs n ≡ none)

-- DAI n has the only reference to graph n.
abbrev pub Holds : Lpass → ℕ → Bool → Type 0
Holds s n b =
    ((s.dais n).graph ≡ true)
    × ((s.dais n).is_port_started ≡ b)
    × (g : ArGraph) × (s.apm.graphs n ≡ some g)
    × (g.refcount ≡ 1)

-- The other graphs and DAIs are as they were.
abbrev pub Apart : ℕ → Lpass → Lpass → Type 0
Apart n s t = (m : ℕ) → (n == m) ≡ false → (t.apm.graphs m ≡ s.apm.graphs m) × (t.dais m ≡ s.dais m)

pub stops :
    (s : Lpass) (n : ℕ) (b : Bool) (x : CmdEnv)
    → Holds s n b
    → Sat (stop_port s n x) (λ t. Holds t n false × Apart n s t)
unfolding stop_port graph_stop
stops s n b x (held, flag, g, there, one) = rw held (
    rw there (
      (ground (arith, held), ground arith, record g { stopped = g.stopped + 1 }, ground arith, one),
      λ m ne. (ground (arith, ne), ground (arith, ne)),
    ))

pub closes :
    (s : Lpass) (n : ℕ) (x : CmdEnv)
    → Holds s n false
    → Sat (close_port s n x) (λ t. Idle t n × Apart n s t)
unfolding close_port graph_close put_audioreach_graph
closes s n x (held, flag, g, there, one) =
    rw (held, there, one, Sat)
      (
        (ground arith, ground (arith, flag), ground arith),
        λ m ne. (ground (arith, ne), ground (arith, ne)),
      )

-- An attempt to open the graph: the DAI has it on success, and there is none on an error.
abbrev pub Opened : ℕ → Lpass × Ret → Type 0
Opened n (t, ok i) = Holds t n false
Opened n (t, err e) = Idle t n

Ret-cases : (r : Ret) → ((i : ℕ) × (r ≡ ok i)) ⊎ ((e : ℕ) × (r ≡ err e))
Ret-cases (ok i) = inl (i, refl)
Ret-cases (err e) = inr (e, refl)

-- Graph n after an attempt to open it.
abbrev new_graph : Ret → Option ArGraph
new_graph (ok i) = some (record { refcount = 1; started = 0; stopped = 0 })
new_graph (err e) = none

-- Graph n is there on success only, the others are those of a.
New : Apm → ℕ → Apm × List Command × Ret → Type 0
New a n (b, cs, ret) =
    (b.graphs n ≡ new_graph ret) × ((m : ℕ) → (n == m) ≡ false → b.graphs m ≡ a.graphs m)

get_audioreach_graph-New :
    (a : Apm) (n : ℕ) (env : OpenEnv) → a.graphs n ≡ none → New a n (get_audioreach_graph a n env)
unfolding get_audioreach_graph New
get_audioreach_graph-New a n env gone = (ground (arith, gone), λ m ne. ground (arith, gone, ne))

put-New :
    (a b : Apm) (n : ℕ) (x : CmdEnv) (cs : List Command) (e : ℕ)
    → New a n (b, cs, ok 0)
    → Sat (given_up cs (err e) (put_audioreach_graph b n x)) (New a n)
unfolding put_audioreach_graph New
put-New a b n x cs e (there, others) =
    rw (there, Sat) (ground arith, λ m ne. ground (arith, ne, others m))

opened-New :
    (a : Apm) (n : ℕ) (env : OpenEnv) (r : Apm × List Command × Ret)
    → New a n r
    → Sat (opened n env r) (New a n)
unfolding New
opened-New a n env (b, cs, err e) h = h
opened-New a n env (b, cs, ok i) h = elim (Bool-cases env.handle_allocated) [
  | inr f ↦ rw (f, Sat) (put-New a b n env.close_cmd cs enomem h)
  | inl t ↦
      rw (t, Sat)
        (elim (Ret-cases env.port) [
          | inl (j, p) ↦ rw (p, Sat) h
          | inr (e, p) ↦ rw (p, Sat) (put-New a b n env.close_cmd cs e h)
        ])
]

noted-Opened :
    (s : Lpass) (n : ℕ) (r : Apm × List Command × Ret)
    → Idle s n
    → New s.apm n r
    → Opened n (noted s n r) × Apart n s (noted s n r).0
unfolding New
noted-Opened s n (a, cs, err e) (free, off, gone) (there, others) =
    ((free, off, there), λ m ne. (others m ne, refl))
noted-Opened s n (a, cs, ok i) (free, off, gone) (there, others) =
    ((ground arith, ground (arith, off), _, there, refl), λ m ne. (others m ne, ground (arith, ne)))

pub opens :
    (s : Lpass) (n : ℕ) (env : OpenEnv)
    → Idle s n
    → Sat (open_port s n env) (λ r. Opened n r × Apart n s r.0)
unfolding open_port graph_open
opens s n env idle =
    and_then-Sat (graph_open s.apm n env) (λ r. some (noted s n r)) (New s.apm n) _
      (opened-New s.apm n env (get_audioreach_graph s.apm n env)
        (get_audioreach_graph-New s.apm n env idle.2))
      (λ r h. noted-Opened s n r idle h)

pub Apart-trans : (n : ℕ) (s t u : Lpass) → Apart n s t → Apart n t u → Apart n s u
Apart-trans n s t u f g m ne = ((g m ne).0 ∙ (f m ne).0, (g m ne).1 ∙ (f m ne).1)

-- Two calls one after another, of which neither touches what is not of n.
pub and_then-Apart :
    {A B : Type 0} (n : ℕ) (s : Lpass) (r : Option A) (f : A → Option B) (P : A → Type 0)
    (at_a : A → Lpass) (at_b : B → Lpass) (Q : B → Type 0)
    → Sat r (λ a. P a × Apart n s (at_a a))
    → ((a : A) → P a → Sat (f a) (λ b. Q b × Apart n (at_a a) (at_b b)))
    → Sat (and_then r f) (λ b. Q b × Apart n s (at_b b))
and_then-Apart n s none f P at_a at_b Q h k = h
and_then-Apart n s (some a) f P at_a at_b Q h k =
    Sat-map (f a) (λ b q. (q.0, Apart-trans n s (at_a a) (at_b b) h.1 q.1)) (k a h.0)
