-- ===== src/Topology/Tables/Parse.antt =====
-- How a widget of the topology becomes a module in its container, sub-graph and graph:
-- `audioreach_widget_load_module_common` of source-reference/kernel/qdsp6/topology.c, up to the private
-- data that a module may carry.
use audioreach_usb_offload_r.Prelude.{
  ℕ, ◌+◌, Bool, Option, none, some, List, [], ◌∷◌, if◌then◌else◌,
}
use audioreach_usb_offload_r.Topology.{Token, instance_id, parse_common_tokens}
use audioreach_usb_offload_r.Topology.Tables.{
  SubGraphEntry, ContainerEntry, Tables, TplgResult, ok, err, fault, endless, ◌>>=◌, einval, enodev,
  AllocEnv, set_sub_graph, set_container, set_module, at_sub_graph, at_container, at_module,
  alloc_graph_info, add_sub_graph, alloc_sub_graph, alloc_container, alloc_module,
}
use audioreach_usb_offload_r.Topology.Tables.Arrays.{
  Elem, sub_graph_instance_id, dai_index, sub_graph_perf_mode, sub_graph_direction,
  sub_graph_scenario_id, container_instance_id, container_capability_id, container_stack_size,
  container_graph_pos, container_proc_domain, common, Private, is_sub_graph_instance,
  is_container_instance, is_module_instance, rounds, read_elems, Search, found, absent, out_of_fuel,
  get_array,
}

-- What the parser of a sub-graph does at an element: it looks the sub-graph up, or its graph, or sets
-- a field.
pub data SubGraphField : Type 0 where
  perf_mode direction scenario_id : SubGraphField

pub data SubGraphStep : Type 0 where
  instance_of graph_of : ℕ → SubGraphStep
  field : SubGraphField → ℕ → SubGraphStep
  skip : SubGraphStep

abbrev pub sub_graph_step : Elem → SubGraphStep
sub_graph_step (sub_graph_instance_id v) = instance_of v
sub_graph_step (dai_index v) = graph_of v
sub_graph_step (sub_graph_perf_mode v) = field perf_mode v
sub_graph_step (sub_graph_direction v) = field direction v
sub_graph_step (sub_graph_scenario_id v) = field scenario_id v
sub_graph_step _ = skip

abbrev pub put_sub_graph_field : SubGraphField → ℕ → SubGraphEntry → SubGraphEntry
put_sub_graph_field perf_mode v s = record s { perf_mode = v }
put_sub_graph_field direction v s = record s { direction = v }
put_sub_graph_field scenario_id v s = record s { scenario_id = v }

-- The outcomes of the allocations at the elements of a widget, and whether there is memory for the
-- private data of its module.
pub record LoadEnv : Type 0 where
  pub sub_graph : ℕ → AllocEnv
  pub graph : ℕ → AllocEnv
  pub container : ℕ → AllocEnv
  pub module_at : ℕ → AllocEnv
  pub data_memory : Bool

unfoldable pub sub_graph_field : Option ℕ → SubGraphField → ℕ → Tables → TplgResult ℕ
sub_graph_field none f v t = fault
sub_graph_field (some k) f v t =
    at_sub_graph t k (λ s. ok k (set_sub_graph t k (some (put_sub_graph_field f v s))))

-- The end of `audioreach_parse_sg_tokens` with its variables `sg`, which may have no value, and `info`.
unfoldable pub sg_end : Option ℕ → Option ℕ → Tables → TplgResult ℕ
sg_end none info t = fault
sg_end (some sg) none t = ok sg t
sg_end (some sg) (some g) t = add_sub_graph sg g t

-- Its loop from element i on.
unfoldable pub sg_tokens : LoadEnv → Option ℕ → Option ℕ → ℕ → List Elem → Tables → TplgResult ℕ
unfolding sub_graph_field sg_end
sg_tokens env sg info i [] t = sg_end sg info t
sg_tokens env sg info i (e ∷ es) t = elim (sub_graph_step e) [
  | instance_of v ↦ alloc_sub_graph (env.sub_graph i) v t >>= λ r u.
      if r.1 then ok r.0 u else sg_tokens env (some r.0) info (i + 1) es u
  | graph_of v ↦
      alloc_graph_info (env.graph i) v t >>= λ r u. sg_tokens env sg (some r.0) (i + 1) es u
  | field f v ↦ sub_graph_field sg f v t >>= λ k u. sg_tokens env (some k) info (i + 1) es u
  | skip ↦ sg_tokens env sg info (i + 1) es t
]

pub data ContainerField : Type 0 where
  capability_id stack_size graph_pos proc_domain : ContainerField

pub data ContainerStep : Type 0 where
  instance_of : ℕ → ContainerStep
  field : ContainerField → ℕ → ContainerStep
  skip : ContainerStep

abbrev pub container_step : Elem → ContainerStep
container_step (container_instance_id v) = ContainerStep.instance_of v
container_step (container_capability_id v) = ContainerStep.field capability_id v
container_step (container_stack_size v) = ContainerStep.field stack_size v
container_step (container_graph_pos v) = ContainerStep.field graph_pos v
container_step (container_proc_domain v) = ContainerStep.field proc_domain v
container_step _ = ContainerStep.skip

abbrev pub put_container_field : ContainerField → ℕ → ContainerEntry → ContainerEntry
put_container_field capability_id v c = record c { capability_id = v }
put_container_field stack_size v c = record c { stack_size = v }
put_container_field graph_pos v c = record c { graph_pos = v }
put_container_field proc_domain v c = record c { proc_domain = v }

unfoldable pub container_field : Option ℕ → ContainerField → ℕ → Tables → TplgResult ℕ
container_field none f v t = fault
container_field (some k) f v t =
    at_container t k (λ c. ok k (set_container t k (some (put_container_field f v c))))

unfoldable pub cont_end : Option ℕ → Tables → TplgResult ℕ
cont_end none t = fault
cont_end (some c) t = ok c t

-- The loop of `audioreach_parse_cont_tokens`.
unfoldable pub cont_tokens : LoadEnv → ℕ → Option ℕ → ℕ → List Elem → Tables → TplgResult ℕ
unfolding container_field cont_end
cont_tokens env sg cont i [] t = cont_end cont t
cont_tokens env sg cont i (e ∷ es) t = elim (container_step e) [
  | ContainerStep.instance_of v ↦ alloc_container (env.container i) sg v t >>= λ r u.
      if r.1 then ok r.0 u else cont_tokens env sg (some r.0) (i + 1) es u
  | ContainerStep.field f v ↦
      container_field cont f v t >>= λ k u. cont_tokens env sg (some k) (i + 1) es u
  | ContainerStep.skip ↦ cont_tokens env sg cont (i + 1) es t
]

-- The common tokens of a module, and the instance that an element names.
abbrev pub module_tokens : List Elem → List Token
module_tokens [] = []
module_tokens (common k ∷ es) = k ∷ module_tokens es
module_tokens (e ∷ es) = module_tokens es

abbrev pub instance_at : Elem → Option ℕ
instance_at (common (instance_id v)) = some v
instance_at _ = none

-- The end of `audioreach_parse_common_tokens`: the module at index k, which was made for instance
-- `inst`, gets what its tokens say.
unfoldable pub finish_module : List Token → Option (ℕ × ℕ) → Tables → TplgResult (Option ℕ)
finish_module tokens none t = ok none t
finish_module tokens (some (k, inst)) t = at_module t k (λ y.
    elim (parse_common_tokens inst tokens) [
      | none ↦ fault
      | some m ↦ ok (some k) (set_module t k (some (record y { body = m })))
    ])

-- Its loop, with the index of the module it has made and the instance that this was made for.
unfoldable pub mod_tokens :
    LoadEnv → ℕ → List Token → Option (ℕ × ℕ) → ℕ → List Elem → Tables → TplgResult (Option ℕ)
unfolding finish_module
mod_tokens env c tokens made i [] t = finish_module tokens made t
mod_tokens env c tokens made i (e ∷ es) t = elim (instance_at e) [
  | none ↦ mod_tokens env c tokens made (i + 1) es t
  | some v ↦ alloc_module (env.module_at i) c v t >>= λ r u.
      if r.1 then err einval u else mod_tokens env c tokens (some (r.0, v)) (i + 1) es u
]

-- A parser on the elements of the array that was searched for; without one it reads through NULL.
abbrev pub with_elems : {A : Type 0} → Search → (List Elem → TplgResult A) → TplgResult A
with_elems (found a) f = elim (read_elems a.value (rounds a.num_elems)) [
  | none ↦ fault
  | some es ↦ f es
]
with_elems absent f = fault
with_elems Search.fault f = fault
with_elems out_of_fuel f = endless

abbrev pub array_with : Private → (Elem → Bool) → Search
array_with p wanted = get_array wanted (p.size + 1) p 0

unfoldable pub parse_sg_tokens : LoadEnv → Private → Tables → TplgResult ℕ
unfolding sg_tokens
parse_sg_tokens env p t =
    with_elems (array_with p is_sub_graph_instance) (λ es. sg_tokens env none none 0 es t)

unfoldable pub parse_cont_tokens : LoadEnv → ℕ → Private → Tables → TplgResult ℕ
unfolding cont_tokens
parse_cont_tokens env sg p t =
    with_elems (array_with p is_container_instance) (λ es. cont_tokens env sg none 0 es t)

unfoldable pub parse_module_tokens : LoadEnv → ℕ → Private → Tables → TplgResult (Option ℕ)
unfolding mod_tokens
parse_module_tokens env c p t =
    with_elems (array_with p is_module_instance)
      (λ es. mod_tokens env c (module_tokens es) none 0 es t)

-- `audioreach_widget_load_module_common` up to `mod->data`: the module that the widget is to point to.
unfoldable pub load_module : LoadEnv → Private → Tables → TplgResult ℕ
unfolding parse_sg_tokens parse_cont_tokens parse_module_tokens
load_module env p t = parse_sg_tokens env p t >>= (λ sg u. parse_cont_tokens env sg p u >>= λ c v.
    parse_module_tokens env c p v >>= λ m w. elim m [ none ↦ err enodev w | some k ↦ ok k w ])
