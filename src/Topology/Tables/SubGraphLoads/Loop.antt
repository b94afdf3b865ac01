-- ===== src/Topology/Tables/SubGraphLoads/Loop.antt =====
-- The loop over the elements of a sub-graph (`audioreach_parse_sg_tokens` of
-- source-reference/kernel/qdsp6/topology.c).
use audioreach_usb_offload_r.Prelude.{
  ℕ, ◌+◌, ◌≡◌, refl, sym, ap, ◌∙◌, inl, inr, Option, none, some, List, [], ◌∷◌, ◌==◌, Bool-cases,
  Option-cases,
}
use audioreach_usb_offload_r.Topology.Tables.{
  SubGraphEntry, Tables, TplgResult, ok, err, fault, endless, alloc_error, empty_sub_graph,
  set_sub_graph, alloc_graph_info, alloc_sub_graph,
}
use audioreach_usb_offload_r.Topology.Tables.Arrays.{Elem}
use audioreach_usb_offload_r.Topology.Tables.Parse.{
  SubGraphStep, instance_of, graph_of, field, skip, sub_graph_step, put_sub_graph_field,
  sub_graph_field, LoadEnv, sg_tokens,
}
use audioreach_usb_offload_r.Topology.Tables.Kept.{containers_in, num_containers_in, IsTables}
use audioreach_usb_offload_r.Topology.Tables.Added.{set_sub_graph-IsTables}
use audioreach_usb_offload_r.Topology.Tables.Kept
use audioreach_usb_offload_r.Topology.Tables.Unloads.{Ends, Ends->>=, HasGraphs, Stays, update_self}
use audioreach_usb_offload_r.Topology.Tables.SubGraphLoads.{
  HasGraphToken, IsSubGraphTokens, AllocatesGraphs, IsMaking, IsAt, is_some, IsLoaded,
  sg_end-IsLoaded, field-IsMaking, graph-IsMaking,
}

-- A call without an error meets any condition on errors.
Ends-fails :
    {A : Type 0} (m : TplgResult A) (P : A → Tables → Type 0) (E : Tables → Type 0)
    → Ends m P (λ u. ⊥)
    → Ends m P E
Ends-fails (ok a t) P E h = h
Ends-fails (err e t) P E h = absurd h
Ends-fails fault P E h = h
Ends-fails endless P E h = h

-- A later state with the same modules.
since :
    (t0 t : Tables)
    → ((k : ℕ) → t.modules k ≡ t0.modules k)
    → (r : TplgResult ℕ) → Ends r (IsLoaded t) (Stays t)
    → Ends r (IsLoaded t0) (Stays t0)
since t0 t same (ok k u) ((a, b, c), d) = ((a, b, λ k. c k ∙ same k), d)
since t0 t same (err e u) (a, b, c) = (a, b, λ k. c k ∙ same k)
since t0 t same fault h = h
since t0 t same endless h = h

-- The rest of the loop, once the sub-graph is made.
abbrev Finishes : LoadEnv → List Elem → Type 0
Finishes env es =
    (t : Tables) (g i : ℕ) (info : Option ℕ) (s : SubGraphEntry)
    → IsMaking t g s
    → IsAt t info
    → HasGraphToken (is_some info) es
    → Ends (sg_tokens env (some g) info i es t) (IsLoaded t) (Stays t)

sg_token-Finishes :
    (env : LoadEnv) (e : Elem) (es : List Elem) (step : SubGraphStep)
    → AllocatesGraphs env
    → Finishes env es
    → sub_graph_step e ≡ step
    → Finishes env (e ∷ es)
unfolding sg_tokens sub_graph_field
sg_token-Finishes env e es (instance_of v) works later q t g i info s m a b =
    absurd (rw (q, HasGraphToken) at b)
sg_token-Finishes env e es (graph_of v) works later q t g i info s m a b =
    let call = alloc_graph_info (env.graph i) v t in
    rw (q, Ends)
      (Ends->>= call (λ r u. sg_tokens env (some g) (some r.0) (i + 1) es u) _ (IsLoaded t)
        (Stays t) (Ends-fails call _ (Stays t) (graph-IsMaking (env.graph i) t g v (works i) m))
        (λ r u n.
          since t u n.2 _ (later u g (i + 1) (some r.0) s n.0 n.1 (rw (q, HasGraphToken) at b))))
sg_token-Finishes env e es (field f v) works later q t g i info s m a b =
    rw (q, m.at_s, Ends)
      (later (set_sub_graph t g (some (put_sub_graph_field f v s))) g (i + 1) info
        (put_sub_graph_field f v s) (field-IsMaking t g f v m) a (rw (q, HasGraphToken) at b))
sg_token-Finishes env e es skip works later q t g i info s m a b =
    rw (q, Ends) (later t g (i + 1) info s m a (rw (q, HasGraphToken) at b))

sg_tokens-Finishes : (env : LoadEnv) (es : List Elem) → AllocatesGraphs env → Finishes env es
unfolding sg_tokens
sg_tokens-Finishes env [] works = λ t g i info s m a b. sg_end-IsLoaded t g info m a b
sg_tokens-Finishes env (e ∷ es) works =
    sg_token-Finishes env e es (sub_graph_step e) works (sg_tokens-Finishes env es works) refl

-- The first element finds the sub-graph or makes it.
sg_instance-IsLoaded :
    (env : LoadEnv) (e : Elem) (es : List Elem) (step : SubGraphStep) (t : Tables)
    → AllocatesGraphs env
    → IsTables t
    → HasGraphs t
    → sub_graph_step e ≡ step
    → IsSubGraphTokens (e ∷ es)
    → Ends (sg_tokens env none none 0 (e ∷ es) t) (IsLoaded t) (Stays t)
unfolding sg_tokens alloc_sub_graph
sg_instance-IsLoaded env e es (graph_of v) t works h l q is =
    absurd (rw (q, IsSubGraphTokens) at is)
sg_instance-IsLoaded env e es (field f v) t works h l q is = absurd (rw (q, IsSubGraphTokens) at is)
sg_instance-IsLoaded env e es skip t works h l q is = absurd (rw (q, IsSubGraphTokens) at is)
sg_instance-IsLoaded env e es (instance_of v) t works h l q is =
    rw (q, Ends)
      (elim (Bool-cases (v == 0)) [
        | inl z ↦ rw (z, Ends) (h, l, λ k. refl)
        | inr nz ↦
            rw (nz, Ends)
              (elim (Option-cases (t.sub_graphs v)) [
                | inr (s, there) ↦ rw (there, Ends) ((h, l, λ k. refl), (s, there))
                | inl absent ↦
                    rw (absent, Ends)
                      (elim (Bool-cases (alloc_error (env.sub_graph 0) == 0)) [
                        | inr fails ↦ rw (fails, Ends) (h, l, λ k. refl)
                        | inl works_too ↦
                            rw (works_too, Ends)
                              (sg_tokens-Finishes env es works
                                (set_sub_graph t v (some empty_sub_graph)) v 1 none empty_sub_graph
                                (record {
                                  tables =
                                      set_sub_graph-IsTables t h v empty_sub_graph
                                        (ap Kept.graph_of (sym absent))
                                        (ap containers_in (sym absent))
                                        (ap num_containers_in (sym absent));
                                  at_s = update_self t.sub_graphs v _;
                                  unlinked = refl;
                                  others = λ k ne. rw ne (l k);
                                })
                                tt (rw (q, IsSubGraphTokens) at is))
                      ])
              ])
      ])

pub sg_tokens-IsLoaded :
    (env : LoadEnv) (es : List Elem) (t : Tables)
    → AllocatesGraphs env
    → IsTables t
    → HasGraphs t
    → IsSubGraphTokens es
    → Ends (sg_tokens env none none 0 es t) (IsLoaded t) (Stays t)
sg_tokens-IsLoaded env [] t works h l is = absurd is
sg_tokens-IsLoaded env (e ∷ es) t works h l is =
    sg_instance-IsLoaded env e es (sub_graph_step e) t works h l refl is
