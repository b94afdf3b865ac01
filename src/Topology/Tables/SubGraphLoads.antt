-- ===== src/Topology/Tables/SubGraphLoads.antt =====
-- `audioreach_parse_sg_tokens` of source-reference/kernel/qdsp6/topology.c on consistent tables.
pub mod Loop
use audioreach_usb_offload_r.Prelude.{
  ℕ, ◌+◌, ◌≡◌, refl, sym, ap, ◌∙◌, Bool, true, false, inl, inr, Option, none, some, List, [], ◌∷◌,
  ◌==◌, Bool-cases, Option-cases,
}
use audioreach_usb_offload_r.Topology.Tables.{
  GraphEntry, SubGraphEntry, Tables, TplgResult, ok, err, fault, endless, AllocEnv, alloc_error,
  empty_graph, empty_sub_graph, set_sub_graph, alloc_graph_info, alloc_sub_graph, add_sub_graph,
}
use audioreach_usb_offload_r.Topology.Tables.Arrays.{Elem}
use audioreach_usb_offload_r.Topology.Tables.Parse.{
  SubGraphField, SubGraphStep, perf_mode, direction, scenario_id, instance_of, graph_of, field,
  skip, sub_graph_step, put_sub_graph_field, sub_graph_field, sg_end, LoadEnv, sg_tokens,
}
use audioreach_usb_offload_r.Topology.Tables.Kept.{containers_in, num_containers_in, IsTables}
use audioreach_usb_offload_r.Topology.Tables.Added.{
  add_graph-IsTables, set_sub_graph-IsTables, link_sub_graph-IsTables,
}
use audioreach_usb_offload_r.Topology.Tables.Kept
use audioreach_usb_offload_r.Topology.Tables.Unloads.{
  Ends, Ends->>=, HasGraph, HasGraphs, Stays, update_self,
}

-- The elements after the instance of a sub-graph: no second instance, and a graph among them, unless
-- there is one already.
abbrev pub HasGraphToken : Bool → List Elem → Type 0
HasGraphToken b [] = b ≡ true
HasGraphToken b (e ∷ es) = elim (sub_graph_step e) [
  | instance_of v ↦ ⊥
  | graph_of v ↦ HasGraphToken true es
  | field f v ↦ HasGraphToken b es
  | skip ↦ HasGraphToken b es
]

-- The elements of a sub-graph: its instance first.
abbrev pub IsSubGraphTokens : List Elem → Type 0
IsSubGraphTokens [] = ⊥
IsSubGraphTokens (e ∷ es) = elim (sub_graph_step e) [
  | instance_of v ↦ HasGraphToken false es
  | graph_of v ↦ ⊥
  | field f v ↦ ⊥
  | skip ↦ ⊥
]

-- The graphs that a widget declares can be allocated.
abbrev pub AllocatesGraphs : LoadEnv → Type 0
AllocatesGraphs env = (i : ℕ) → alloc_error (env.graph i) ≡ 0

-- The tables while the sub-graph g is being made: it has no graph yet, all the others have.
pub record IsMaking (t : Tables) (g : ℕ) (s : SubGraphEntry) : Type 0 where
  tables : IsTables t
  at_s : t.sub_graphs g ≡ some s
  unlinked : s.info ≡ none
  others : (k : ℕ) → (g == k) ≡ false → HasGraph (t.sub_graphs k)

abbrev pub IsAt : Tables → Option ℕ → Type 0
IsAt t none = Unit {0}
IsAt t (some i) = (x : GraphEntry) × (t.graphs i ≡ some x)

abbrev pub is_some : Option ℕ → Bool
is_some none = false
is_some (some i) = true

-- A sub-graph of consistent tables, and the modules as they were.
abbrev pub IsLoaded : Tables → ℕ → Tables → Type 0
IsLoaded t k u = Stays t u × ((s : SubGraphEntry) × (u.sub_graphs k ≡ some s))

pub sg_end-IsLoaded :
    (t : Tables) (g : ℕ) {s : SubGraphEntry} (info : Option ℕ)
    → IsMaking t g s
    → IsAt t info
    → is_some info ≡ true
    → Ends (sg_end (some g) info t) (IsLoaded t) (Stays t)
unfolding sg_end add_sub_graph
sg_end-IsLoaded t g none m a b = absurd (cc)
sg_end-IsLoaded t g {s} (some i) m (x, at_x) b =
    rw (at_x, m.at_s, Ends)
      (
        (
          link_sub_graph-IsTables t m.tables i g at_x m.at_s m.unlinked,
          λ k. elim (Bool-cases (g == k)) [ inl e ↦ rw e (i, refl) | inr e ↦ rw e (m.others k e) ],
          λ k. refl,
        ),
        (_, update_self t.sub_graphs g _),
      )

put_sub_graph_field-kept :
    (f : SubGraphField) (v : ℕ) (s : SubGraphEntry)
    → ((put_sub_graph_field f v s).info ≡ s.info)
      × ((put_sub_graph_field f v s).container_list ≡ s.container_list)
      × ((put_sub_graph_field f v s).num_containers ≡ s.num_containers)
put_sub_graph_field-kept perf_mode v s = (refl, refl, refl)
put_sub_graph_field-kept direction v s = (refl, refl, refl)
put_sub_graph_field-kept scenario_id v s = (refl, refl, refl)

pub field-IsMaking :
    (t : Tables) (g : ℕ) {s : SubGraphEntry} (f : SubGraphField) (v : ℕ)
    → IsMaking t g s
    → IsMaking (set_sub_graph t g (some (put_sub_graph_field f v s))) g (put_sub_graph_field f v s)
field-IsMaking t g {s} f v m =
    let (a, b, c) = put_sub_graph_field-kept f v s in
    record {
      tables =
          set_sub_graph-IsTables t m.tables g _ (a ∙ ap Kept.graph_of (sym m.at_s))
            (b ∙ ap containers_in (sym m.at_s)) (c ∙ ap num_containers_in (sym m.at_s));
      at_s = update_self t.sub_graphs g _;
      unlinked = a ∙ m.unlinked;
      others = λ k e. rw e (m.others k e);
    }

-- A graph is found or made.
pub graph-IsMaking :
    (e : AllocEnv) (t : Tables) (g i : ℕ) {s : SubGraphEntry}
    → alloc_error e ≡ 0
    → IsMaking t g s
    → Ends
        (alloc_graph_info e i t)
        (λ r u. IsMaking u g s × IsAt u (some r.0) × ((k : ℕ) → u.modules k ≡ t.modules k))
        (λ u. ⊥)
unfolding alloc_graph_info
graph-IsMaking e t g i {s} works m = elim (Option-cases (t.graphs i)) [
  | inl absent ↦
      rw (absent, works, Ends)
        (
          record {
            tables = add_graph-IsTables t m.tables i absent;
            at_s = m.at_s;
            unlinked = m.unlinked;
            others = m.others;
          },
          (empty_graph, update_self t.graphs i _),
          λ k. refl,
        )
  | inr (x, there) ↦ rw (there, Ends) (m, (x, there), λ k. refl)
]
