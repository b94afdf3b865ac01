-- ===== src/Topology/Tables/ModuleLoads.antt =====
-- `audioreach_parse_common_tokens` of source-reference/kernel/qdsp6/topology.c on consistent tables.
use audioreach_usb_offload_r.Prelude.{
  Sat, ℕ, ◌+◌, ◌≤◌, ◌≡◌, refl, sym, subst, ap, ◌∙◌, false, inl, inr, Option, none, some, List, [],
  ◌∷◌, ◌==◌, arith, Bool-cases, Option-cases, ==_iff,
}
use audioreach_usb_offload_r.Topology.{
  Module, Token, ar_max_mod_links, initial, tokens_read, allocated, parse_common_tokens,
}
use audioreach_usb_offload_r.Topology.Links.{IsModule, parse_common_tokens-IsModule_at}
use audioreach_usb_offload_r.Topology.Tables.{
  ContainerEntry, ModuleEntry, Tables, alloc_error, with_module, alloc_module, container_with,
}
use audioreach_usb_offload_r.Topology.Tables.Arrays.{Elem}
use audioreach_usb_offload_r.Topology.Tables.Parse.{instance_at, finish_module, LoadEnv, mod_tokens}
use audioreach_usb_offload_r.Topology.Tables.Kept.{IsNamed, IsTables}
use audioreach_usb_offload_r.Topology.Tables.Added.{add_module-IsTables, set_body-IsTables}
use audioreach_usb_offload_r.Topology.Tables.Unloads.{Ends, HasGraphs, update_self}

-- The instances that the elements name are not 0, for which the IDR would pick the index.
abbrev pub HasInstances : List Elem → Type 0
HasInstances [] = Unit
HasInstances (e ∷ es) = elim (instance_at e) [
  | none ↦ HasInstances es
  | some v ↦ ((v == 0) ≡ false) × HasInstances es
]

-- The tables stay consistent and keep the modules that were there.
abbrev pub Grows : Tables → Tables → Type 0
Grows t u =
    IsTables u
    × HasGraphs u
    × ((k : ℕ) (y : ModuleEntry) → t.modules k ≡ some y → u.modules k ≡ some y)

-- A module that was not there before.
abbrev pub IsNew : Tables → ℕ → Tables → Type 0
IsNew t k u = (t.modules k ≡ none) × ((y : ModuleEntry) × (u.modules k ≡ some y))

-- What the parser returns: no module, or a new one.
abbrev pub HasNew : Tables → Option ℕ → Tables → Type 0
HasNew t none u = Grows t u
HasNew t (some k) u = Grows t u × IsNew t k u

-- The module that the loop has made of the tables t0, under its instance.
abbrev IsMade : Tables → Tables → Option (ℕ × ℕ) → Type 0
IsMade t0 t none = Unit {0}
IsMade t0 t (some r) =
    (r.0 ≡ r.1) × (t0.modules r.0 ≡ none) × ((y : ModuleEntry) × (t.modules r.0 ≡ some y))

finish_module-HasNew :
    (t0 t : Tables) (ts : List Token) (made : Option (ℕ × ℕ))
    → (tokens_read initial ts).max_op_port ≤ ar_max_mod_links
    → Grows t0 t
    → IsMade t0 t made
    → Ends (finish_module ts made t) (HasNew t0) (Grows t0)
unfolding finish_module
finish_module-HasNew t0 t ts none le (h, l, keeps) m = (h, l, keeps)
finish_module-HasNew t0 t ts (some r) le (h, l, keeps) (same, fresh, (y, at_k)) =
    after (parse_common_tokens r.1 ts) refl (parse_common_tokens-IsModule_at r.1 ts le)
  where
    after :
        (o : Option Module)
        → parse_common_tokens r.1 ts ≡ o
        → Sat o (λ m. IsModule m × (m.instance_id ≡ r.1))
        → Ends (finish_module ts (some r) t) (HasNew t0) (Grows t0)
    after none e p = absurd p
    after (some m) e (is, inst) =
        rw (at_k, e, Ends)
          (
            (
              set_body-IsTables t h r.0 m at_k (inst ∙ sym same) is,
              l,
              λ k z there. elim (Bool-cases (r.0 == k)) [
                | inl eq ↦ absurd (cc (ap t0.modules ((==_iff r.0 k).0 eq)))
                | inr ne ↦ rw ne (keeps k z there)
              ],
            ),
            (fresh, (_, update_self t.modules r.0 _)),
          )

-- The rest of the loop.
abbrev Finishes : Tables → LoadEnv → ℕ → List Token → List Elem → Type 0
Finishes t0 env c ts es =
    (t : Tables) (x : ContainerEntry) (made : Option (ℕ × ℕ)) (i : ℕ)
    → Grows t0 t
    → t.containers c ≡ some x
    → IsMade t0 t made
    → HasInstances es
    → Ends (mod_tokens env c ts made i es t) (HasNew t0) (Grows t0)

-- An index that is not in the IDR has no module.
IsNamed-absent : (k : ℕ) (o : Option ModuleEntry) → IsNamed k false o → o ≡ none
IsNamed-absent k none h = refl
IsNamed-absent k (some y) h = absurd (cc (h.0))

not-there : (t0 t : Tables) (v : ℕ) → Grows t0 t → t.modules v ≡ none → t0.modules v ≡ none
not-there t0 t v g absent = elim (Option-cases (t0.modules v)) [
  | inl n ↦ n
  | inr (y, there) ↦ absurd (cc (g.2 v y there))
]

-- A new module keeps the tables and the modules that were there.
with_module-Grows :
    (t0 t : Tables) (c v : ℕ) {x : ContainerEntry}
    → Grows t0 t
    → t.modules v ≡ none
    → t.containers c ≡ some x
    → Grows t0 (with_module t c v x (allocated v))
with_module-Grows t0 t c v (h, l, keeps) absent at_c = (
  add_module-IsTables t h c v (allocated v) absent at_c refl (refl, refl, refl, omega arith, refl),
  l,
  λ k y there. elim (Bool-cases (v == k)) [
    | inl e ↦ absurd (cc (ap t.modules ((==_iff v k).0 e), keeps k y there))
    | inr e ↦ rw e (keeps k y there)
  ],
)

mod_token-Finishes :
    (t0 : Tables) (env : LoadEnv) (c : ℕ) (ts : List Token) (e : Elem) (es : List Elem)
    (step : Option ℕ)
    → Finishes t0 env c ts es
    → instance_at e ≡ step
    → Finishes t0 env c ts (e ∷ es)
unfolding mod_tokens alloc_module
mod_token-Finishes t0 env c ts e es none later q t x made i g at_c m b =
    rw (q, Ends) (later t x made (i + 1) g at_c m (rw (q, HasInstances) at b))
mod_token-Finishes t0 env c ts e es (some v) later q t x made i g at_c m b =
    let (nz, rest) : ((v == 0) ≡ false) × HasInstances es = rw (q, HasInstances) at b in
    rw (q, Ends)
      (elim (Bool-cases (t.modules_idr v)) [
        | inl dup ↦ rw (dup, Ends) g
        | inr new ↦
            rw (new, at_c, nz, Ends)
              (elim (Bool-cases (alloc_error (env.module_at i) == 0)) [
                | inr fails ↦ rw (fails, Ends) g
                | inl works ↦
                    let absent =
                      IsNamed-absent v (t.modules v)
                        (subst (λ b. IsNamed v b (t.modules v)) new (g.0.named v)) in
                    rw (works, Ends)
                      (later (with_module t c v x (allocated v)) (container_with x v) (some (v, v))
                        (i + 1) (with_module-Grows t0 t c v g absent at_c)
                        (update_self t.containers c _)
                        (refl, not-there t0 t v g absent, (_, update_self t.modules v _)) rest)
              ])
      ])

mod_tokens-Finishes :
    (t0 : Tables) (env : LoadEnv) (c : ℕ) (ts : List Token) (es : List Elem)
    → (tokens_read initial ts).max_op_port ≤ ar_max_mod_links
    → Finishes t0 env c ts es
unfolding mod_tokens
mod_tokens-Finishes t0 env c ts [] le =
    λ t x made i g at_c m b. finish_module-HasNew t0 t ts made le g m
mod_tokens-Finishes t0 env c ts (e ∷ es) le =
    mod_token-Finishes t0 env c ts e es (instance_at e) (mod_tokens-Finishes t0 env c ts es le) refl

pub mod_tokens-HasNew :
    (t : Tables) (env : LoadEnv) (c : ℕ) {x : ContainerEntry} (ts : List Token) (es : List Elem)
    → (tokens_read initial ts).max_op_port ≤ ar_max_mod_links
    → HasInstances es
    → IsTables t
    → HasGraphs t
    → t.containers c ≡ some x
    → Ends (mod_tokens env c ts none 0 es t) (HasNew t) (Grows t)
mod_tokens-HasNew t env c ts es le b h l at_c =
    mod_tokens-Finishes t env c ts es le t _ none 0 (h, l, λ k y e. e) at_c tt b
