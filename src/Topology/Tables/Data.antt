-- ===== src/Topology/Tables/Data.antt =====
-- The private data of a module (`audioreach_get_module_priv_data` of
-- source-reference/kernel/qdsp6/topology.c), and the load and the unload of a widget with them. What
-- `memcpy` puts into the data, and how far it reads, is not modelled.
use audioreach_usb_offload_r.Prelude.{
  List, [], ◌∷◌, ◌≤◌, ℕ, zero, suc, ◌+◌, ◌<◌, ◌≡◌, refl, Bool, true, false, inl, inr, Option, none,
  some, ltb, if◌then◌else◌, arith, Bool-cases,
}
use audioreach_usb_offload_r.Topology.Tables.{
  ModuleEntry, Tables, TplgResult, ok, fault, endless, ◌>>=◌,
}
use audioreach_usb_offload_r.Topology.Tables.Arrays.{VendorArray, Private}
use audioreach_usb_offload_r.Topology.Tables.Parse.{LoadEnv, load_module}
use audioreach_usb_offload_r.Topology.Tables.Unload.{unlink_module}
use audioreach_usb_offload_r.Topology.Tables.Kept.{IsTables}
use audioreach_usb_offload_r.Topology.Tables.Unloads.{
  Ends, Ends->>=, HasGraphs, Unloaded, unlink_module-IsTables,
}
use audioreach_usb_offload_r.Topology.Tables.SubGraphLoads.{AllocatesGraphs}
use audioreach_usb_offload_r.Topology.Tables.ModuleLoads.{Grows}
use audioreach_usb_offload_r.Topology.Tables.Loads.{IsWidget, Loaded, load_module-IsTables}

-- `mod->data`: NULL, memory of its own, or ERR_PTR(-ENOMEM).
pub data PrivData : Type 0 where
  no_data has_data bad_pointer : PrivData

abbrev pub is_bad : PrivData → Bool
is_bad bad_pointer = true
is_bad _ = false

-- `audioreach_get_module_priv_data` from the offset `sz` on; `none` is out of fuel.
unfoldable pub get_priv_data : Bool → ℕ → Private → ℕ → Option PrivData
get_priv_data memory zero p sz = none
get_priv_data memory (suc fuel) p sz =
    let rest = get_priv_data memory fuel p (sz + (p.array_at sz).size) in
    if ltb sz p.size
    then if (p.array_at sz).is_module_cfg
      then some (if memory then has_data else bad_pointer)
      else rest
    else some no_data

abbrev with_data : ℕ → Option PrivData → Tables → TplgResult (ℕ × PrivData)
with_data k none t = endless
with_data k (some d) t = ok (k, d) t

-- `audioreach_widget_load_module_common`: the module that the widget then points to, and its `data`.
unfoldable pub load_module_common : LoadEnv → Private → Tables → TplgResult (ℕ × PrivData)
unfolding get_priv_data
load_module_common env p t =
    load_module env p t >>= λ k u. with_data k (get_priv_data env.data_memory (p.size + 1) p 0) u

-- `audioreach_widget_unload` of a module with these data, for the module that the widget points to:
-- `kfree` faults on an error pointer.
unfoldable pub unload_module : PrivData → Option ℕ → Tables → TplgResult (Unit {0})
unload_module d m t = if is_bad d then fault else unlink_module m t

-- From the offset `sz` on, `arrays` lie one after another up to the end or beyond, none of size 0.
abbrev pub Steps : Private → ℕ → List VendorArray → Type 0
Steps p sz [] = p.size ≤ sz
Steps p sz (a ∷ arrays) = (p.array_at sz ≡ a) × (0 < a.size) × Steps p (sz + a.size) arrays

-- The private data of a widget are arrays of a size, and there is memory for the data of its module.
pub record HasData (env : LoadEnv) (p : Private) : Type 0 where
  pub arrays : List VendorArray
  pub in_steps : Steps p 0 arrays
  pub memory : env.data_memory ≡ true

-- Data that an unload can free.
abbrev pub IsFreeable : Option PrivData → Type 0
IsFreeable none = ⊥
IsFreeable (some d) = is_bad d ≡ false

get_priv_data-IsFreeable :
    (p : Private) (arrays : List VendorArray) (fuel sz : ℕ)
    → Steps p sz arrays
    → p.size < suc fuel + sz
    → IsFreeable (get_priv_data true (suc fuel) p sz)
unfolding get_priv_data
get_priv_data-IsFreeable p [] fuel sz past h =
    let over : ltb sz p.size ≡ false = ground arith in rw (over, IsFreeable) refl
get_priv_data-IsFreeable p (a ∷ arrays) zero sz (at_sz, pos, later) h =
    let over : ltb sz p.size ≡ false = ground arith in rw (over, IsFreeable) refl
get_priv_data-IsFreeable p (a ∷ arrays) (suc fuel) sz (at_sz, pos, later) h =
    elim (Bool-cases (ltb sz p.size)) [
      | inr over ↦ rw (over, IsFreeable) refl
      | inl lt ↦ elim (Bool-cases (p.array_at sz).is_module_cfg) [
        | inl cfg ↦ rw (lt, cfg, IsFreeable) refl
        | inr other ↦
            rw (lt, other)
              (rw at_sz (
                get_priv_data-IsFreeable p arrays fuel (sz + a.size) later (omega (arith, pos, h))))
      ]
    ]

fetched :
    (p : Private) (arrays : List VendorArray)
    → Steps p 0 arrays
    → IsFreeable (get_priv_data true (p.size + 1) p 0)
fetched p arrays steps =
    let e : p.size + 1 ≡ suc p.size = omega arith in
    rw e (get_priv_data-IsFreeable p arrays p.size 0 steps (omega arith))

-- What a load leaves: the tables with the new module, and data that can be freed.
abbrev pub LoadedData : Tables → ℕ × PrivData → Tables → Type 0
LoadedData t (k, d) u = Loaded t k u × (is_bad d ≡ false)

with_data-LoadedData :
    (t u : Tables) (k : ℕ) (o : Option PrivData)
    → IsFreeable o
    → Loaded t k u
    → Ends (with_data k o u) (LoadedData t) (Grows t)
with_data-LoadedData t u k none free h = free
with_data-LoadedData t u k (some d) free h = (h, free)

-- The load of a widget that has what it needs, and whose private data can be had, on consistent tables
-- whose sub-graphs all have a graph, where graphs can be allocated while any other object of the
-- tables may not: it ends and faults nowhere, whether it succeeds or reports an error the tables are
-- consistent afterwards and have the modules that were there, and with success there is a new module,
-- whose data can be freed.
pub load_module_common-IsTables :
    (env : LoadEnv) (p : Private) (t : Tables)
    → IsWidget p
    → HasData env p
    → AllocatesGraphs env
    → IsTables t
    → HasGraphs t
    → Ends (load_module_common env p t) (LoadedData t) (Grows t)
unfolding load_module_common
load_module_common-IsTables env p t w has works h l =
    Ends->>= (load_module env p t) _ (Loaded t) (LoadedData t) (Grows t)
      (load_module-IsTables env p t w works h l)
      (λ k u loaded.
        with_data-LoadedData t u k _ (rw has.memory (fetched p has.arrays has.in_steps)) loaded)

-- On consistent tables whose sub-graphs all have a graph, the unload of a module that is there, and
-- whose data can be freed, faults nowhere: it leaves consistent tables, with no module but this one
-- gone.
pub unload_module-IsTables :
    (t : Tables) (d : PrivData) (k : ℕ) {y : ModuleEntry}
    → is_bad d ≡ false
    → IsTables t
    → HasGraphs t
    → t.modules k ≡ some y
    → Ends (unload_module d (some k) t) (λ _. Unloaded t k) (Unloaded t k)
unfolding unload_module
unload_module-IsTables t d k free h l at_k = rw free (unlink_module-IsTables t k h l at_k)
