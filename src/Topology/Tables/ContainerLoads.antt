-- ===== src/Topology/Tables/ContainerLoads.antt =====
-- `audioreach_parse_cont_tokens` of source-reference/kernel/qdsp6/topology.c on consistent tables.
use audioreach_usb_offload_r.Prelude.{
  ℕ, ◌+◌, ◌≡◌, refl, sym, subst, ap, ◌∙◌, inl, inr, none, some, List, [], ◌∷◌, ◌==◌, Bool-cases,
  Option-cases,
}
use audioreach_usb_offload_r.Topology.Tables.{
  SubGraphEntry, ContainerEntry, Tables, alloc_error, empty_container, set_container,
  with_container, alloc_container,
}
use audioreach_usb_offload_r.Topology.Tables.Arrays.{Elem}
use audioreach_usb_offload_r.Topology.Tables.Parse.{
  ContainerField, capability_id, stack_size, graph_pos, proc_domain, ContainerStep, container_step,
  put_container_field, container_field, cont_end, LoadEnv, cont_tokens,
}
use audioreach_usb_offload_r.Topology.Tables.Kept.{
  sub_graph_of, modules_in, num_modules_in, IsTables,
}
use audioreach_usb_offload_r.Topology.Tables.Added.{set_container-IsTables, add_container-IsTables}
use audioreach_usb_offload_r.Topology.Tables.Unloads.{
  Ends, HasGraph, HasGraphs, Stays, update_self, update-HasGraph,
}

-- The elements after the instance of a container: no second instance.
abbrev pub NoInstance : List Elem → Type 0
NoInstance [] = Unit
NoInstance (e ∷ es) = elim (container_step e) [
  | ContainerStep.instance_of v ↦ ⊥
  | ContainerStep.field f v ↦ NoInstance es
  | ContainerStep.skip ↦ NoInstance es
]

-- The elements of a container: its instance first.
abbrev pub IsContainerTokens : List Elem → Type 0
IsContainerTokens [] = ⊥
IsContainerTokens (e ∷ es) = elim (container_step e) [
  | ContainerStep.instance_of v ↦ NoInstance es
  | ContainerStep.field f v ↦ ⊥
  | ContainerStep.skip ↦ ⊥
]

-- A container of consistent tables, and the modules as they were.
abbrev pub HasContainer : Tables → ℕ → Tables → Type 0
HasContainer t k u = Stays t u × ((x : ContainerEntry) × (u.containers k ≡ some x))

put_container_field-kept :
    (f : ContainerField) (v : ℕ) (x : ContainerEntry)
    → ((put_container_field f v x).sub_graph ≡ x.sub_graph)
      × ((put_container_field f v x).modules_list ≡ x.modules_list)
      × ((put_container_field f v x).num_modules ≡ x.num_modules)
put_container_field-kept capability_id v x = (refl, refl, refl)
put_container_field-kept stack_size v x = (refl, refl, refl)
put_container_field-kept graph_pos v x = (refl, refl, refl)
put_container_field-kept proc_domain v x = (refl, refl, refl)

field-IsTables :
    (t : Tables) (c : ℕ) {x : ContainerEntry} (f : ContainerField) (v : ℕ)
    → IsTables t
    → t.containers c ≡ some x
    → IsTables (set_container t c (some (put_container_field f v x)))
field-IsTables t c {x} f v h at_c =
    let (a, b, d) = put_container_field-kept f v x in
    set_container-IsTables t h c (put_container_field f v x)
      (ap some a ∙ ap sub_graph_of (sym at_c)) (b ∙ ap modules_in (sym at_c))
      (d ∙ ap num_modules_in (sym at_c))

-- The rest of the loop, once the container is there.
abbrev Finishes : LoadEnv → ℕ → List Elem → Type 0
Finishes env sg es =
    (t : Tables) (c i : ℕ) (x : ContainerEntry)
    → IsTables t
    → HasGraphs t
    → t.containers c ≡ some x
    → NoInstance es
    → Ends (cont_tokens env sg (some c) i es t) (HasContainer t) (Stays t)

cont_token-Finishes :
    (env : LoadEnv) (sg : ℕ) (e : Elem) (es : List Elem) (step : ContainerStep)
    → Finishes env sg es
    → container_step e ≡ step
    → Finishes env sg (e ∷ es)
unfolding cont_tokens container_field
cont_token-Finishes env sg e es (ContainerStep.instance_of v) later q t c i x h l at_c b =
    absurd (rw (q, NoInstance) at b)
cont_token-Finishes env sg e es (ContainerStep.field f v) later q t c i x h l at_c b =
    rw (q, at_c, Ends)
      (later (set_container t c (some (put_container_field f v x))) c (i + 1)
        (put_container_field f v x) (field-IsTables t c f v h at_c) l (update_self t.containers c _)
        (rw (q, NoInstance) at b))
cont_token-Finishes env sg e es ContainerStep.skip later q t c i x h l at_c b =
    rw (q, Ends) (later t c (i + 1) x h l at_c (rw (q, NoInstance) at b))

cont_tokens-Finishes : (env : LoadEnv) (sg : ℕ) (es : List Elem) → Finishes env sg es
unfolding cont_tokens cont_end
cont_tokens-Finishes env sg [] = λ t c i x h l at_c b. ((h, l, λ k. refl), (x, at_c))
cont_tokens-Finishes env sg (e ∷ es) =
    cont_token-Finishes env sg e es (container_step e) (cont_tokens-Finishes env sg es) refl

-- The first element finds the container or makes it.
cont_instance-HasContainer :
    (env : LoadEnv) (sg : ℕ) {s : SubGraphEntry} (e : Elem) (es : List Elem) (step : ContainerStep)
    (t : Tables)
    → IsTables t
    → HasGraphs t
    → t.sub_graphs sg ≡ some s
    → container_step e ≡ step
    → IsContainerTokens (e ∷ es)
    → Ends (cont_tokens env sg none 0 (e ∷ es) t) (HasContainer t) (Stays t)
unfolding cont_tokens alloc_container
cont_instance-HasContainer env sg e es (ContainerStep.field f v) t h l at_s q is =
    absurd (rw (q, IsContainerTokens) at is)
cont_instance-HasContainer env sg e es ContainerStep.skip t h l at_s q is =
    absurd (rw (q, IsContainerTokens) at is)
cont_instance-HasContainer env sg {s} e es (ContainerStep.instance_of v) t h l at_s q is =
    rw (q, Ends)
      (elim (Bool-cases (v == 0)) [
        | inl z ↦ rw (z, Ends) (h, l, λ k. refl)
        | inr nz ↦
            rw (nz, Ends)
              (elim (Option-cases (t.containers v)) [
                | inr (x, there) ↦ rw (there, Ends) ((h, l, λ k. refl), (x, there))
                | inl absent ↦
                    rw (absent, at_s, Ends)
                      (elim (Bool-cases (alloc_error (env.container 0) == 0)) [
                        | inr fails ↦ rw (fails, Ends) (h, l, λ k. refl)
                        | inl works ↦
                            rw (works, Ends)
                              (cont_tokens-Finishes env sg es (with_container t v sg s) v 1
                                (empty_container sg) (add_container-IsTables t h sg v absent at_s)
                                (update-HasGraph t.sub_graphs sg _ (subst HasGraph at_s (l sg)) l)
                                (update_self t.containers v _) (rw (q, IsContainerTokens) at is))
                      ])
              ])
      ])

pub cont_tokens-HasContainer :
    (env : LoadEnv) (sg : ℕ) {s : SubGraphEntry} (es : List Elem) (t : Tables)
    → IsTables t
    → HasGraphs t
    → t.sub_graphs sg ≡ some s
    → IsContainerTokens es
    → Ends (cont_tokens env sg none 0 es t) (HasContainer t) (Stays t)
cont_tokens-HasContainer env sg [] t h l at_s is = absurd is
cont_tokens-HasContainer env sg (e ∷ es) t h l at_s is =
    cont_instance-HasContainer env sg e es (container_step e) t h l at_s refl is
