-- ===== src/Topology/Tables/Arrays.antt =====
-- The vendor arrays of a widget, and the search for the one with a given token
-- (`audioreach_get_sg_array`, `audioreach_get_cont_array` and `audioreach_get_module_array` in
-- source-reference/kernel/qdsp6/topology.c). The offset, an `int`, is not let overflow.
use audioreach_usb_offload_r.Prelude.{
  and_then, lt→ltb, ap, ℕ, zero, suc, ◌+◌, ◌^◌, ◌≤◌, ◌<◌, ◌≡◌, refl, Bool, true, false, inl, inr,
  Option, none, some, List, [], ◌∷◌, length, ltb, ◌==◌, if◌then◌else◌, arith, Bool-cases,
}
use audioreach_usb_offload_r.Topology.{Token, instance_id}

-- The elements, each a token with its value; `common` are those of a module that
-- `audioreach_parse_common_tokens` reads.
pub data Elem : Type 0 where
  sub_graph_instance_id dai_index sub_graph_perf_mode sub_graph_direction : ℕ → Elem
  sub_graph_scenario_id container_instance_id container_capability_id : ℕ → Elem
  container_stack_size container_graph_pos container_proc_domain : ℕ → Elem
  module_hw_if_idx module_fmt_data module_hw_if_type module_sd_line_idx module_ws_src : ℕ → Elem
  module_log_code module_log_tap_point_id module_log_mode : ℕ → Elem
  module_fmt_interleave module_fmt_sample_rate module_fmt_bit_depth : ℕ → Elem
  common : Token → Elem

-- `struct snd_soc_tplg_vendor_array`, with the elements that lie in its memory, and whether its type is
-- SND_SOC_AR_TPLG_MODULE_CFG_TYPE.
pub record VendorArray : Type 0 where
  pub size : ℕ
  pub is_module_cfg : Bool
  pub num_elems : ℕ
  pub value : List Elem

-- `struct snd_soc_tplg_private`: the arrays by their offset.
pub record Private : Type 0 where
  pub size : ℕ
  pub array_at : ℕ → VendorArray

abbrev pub is_sub_graph_instance : Elem → Bool
is_sub_graph_instance (sub_graph_instance_id v) = true
is_sub_graph_instance _ = false

abbrev pub is_container_instance : Elem → Bool
is_container_instance (container_instance_id v) = true
is_container_instance _ = false

abbrev pub is_module_instance : Elem → Bool
is_module_instance (common (instance_id v)) = true
is_module_instance _ = false

-- The rounds of `tkn_count <= num_elems - 1`, whose right side is unsigned: from 0 it wraps.
abbrev pub rounds : ℕ → ℕ
rounds n = if n == 0 then 2 ^ 32 else n

-- Whether one of the elements has the token; `none` is a read behind the last of them.
unfoldable pub has_token : (Elem → Bool) → List Elem → ℕ → Option Bool
has_token wanted es zero = some false
has_token wanted [] (suc n) = none
has_token wanted (e ∷ es) (suc n) = if wanted e then some true else has_token wanted es n

-- The elements that a parsing loop reads.
unfoldable pub read_elems : List Elem → ℕ → Option (List Elem)
read_elems es zero = some []
read_elems [] (suc n) = none
read_elems (e ∷ es) (suc n) = and_then (read_elems es n) (λ r. some (e ∷ r))

pub data Search : Type 0 where
  found : VendorArray → Search
  absent fault out_of_fuel : Search

-- The search from the offset `sz` on.
unfoldable pub get_array : (Elem → Bool) → ℕ → Private → ℕ → Search
get_array wanted zero p sz = out_of_fuel
get_array wanted (suc fuel) p sz =
    let a = p.array_at sz in
    let rest = get_array wanted fuel p (sz + a.size) in
    if ltb sz p.size
    then elim (has_token wanted a.value (rounds a.num_elems)) [
      | none ↦ fault
      | some true ↦ found a
      | some false ↦ rest
    ]
    else absent

-- `arrays` lie one after another from the offset `sz` to the end, none of them empty.
abbrev pub LaidOut : Private → ℕ → List VendorArray → Type 0
LaidOut p sz [] = sz ≡ p.size
LaidOut p sz (a ∷ arrays) =
    (p.array_at sz ≡ a)
    × (0 < a.size)
    × (0 < a.num_elems)
    × (a.num_elems ≤ length a.value)
    × (sz + a.size ≤ p.size)
    × LaidOut p (sz + a.size) arrays

-- Whether one of the first n elements is wanted.
abbrev pub any_elem : (Elem → Bool) → List Elem → ℕ → Bool
any_elem wanted es zero = false
any_elem wanted [] (suc n) = false
any_elem wanted (e ∷ es) (suc n) = if wanted e then true else any_elem wanted es n

-- The first array with an element that is wanted.
abbrev pub first_with : (Elem → Bool) → List VendorArray → Search
first_with wanted [] = absent
first_with wanted (a ∷ arrays) =
    if any_elem wanted a.value a.num_elems then found a else first_with wanted arrays

has_token_lem :
    (wanted : Elem → Bool) (es : List Elem) (n : ℕ)
    → n ≤ length es
    → has_token wanted es n ≡ some (any_elem wanted es n)
unfolding has_token
has_token_lem wanted es zero h = refl
has_token_lem wanted [] (suc n) h = elim h [ ]
has_token_lem wanted (e ∷ es) (suc n) h = ground (arith, has_token_lem wanted es n (omega arith))

rounds_pos : (n : ℕ) → 0 < n → rounds n ≡ n
rounds_pos n h = ground arith

get_array_from :
    (wanted : Elem → Bool) (p : Private) (arrays : List VendorArray) (fuel sz : ℕ)
    → LaidOut p sz arrays
    → sz ≤ p.size
    → p.size < fuel + sz
    → get_array wanted fuel p sz ≡ first_with wanted arrays
unfolding get_array
get_array_from wanted p arrays zero sz laid le h = absurd (omega arith)
get_array_from wanted p [] (suc fuel) sz laid le h = ground arith
get_array_from wanted p (a ∷ arrays) (suc fuel) sz (here, pos, some_elem, len, room, later) le h =
    let e = rounds_pos a.num_elems some_elem in
    let test : has_token wanted (p.array_at sz).value (rounds (p.array_at sz).num_elems)
        ≡ some (any_elem wanted a.value a.num_elems) =
      rw here (rw e (has_token_lem wanted a.value a.num_elems len)) in
    let rest : get_array wanted fuel p (sz + (p.array_at sz).size) ≡ first_with wanted arrays =
      rw here (get_array_from wanted p arrays fuel (sz + a.size) later room (omega arith)) in
    rw (lt→ltb sz p.size (omega arith), test)
      (elim (Bool-cases (any_elem wanted a.value a.num_elems)) [
        | inl yes_here ↦ rw yes_here (ap found here)
        | inr not_here ↦ rw not_here rest
      ])

-- Where the private data of a widget are arrays one after another, each of a positive size and with
-- an element, and all elements in memory: the search ends, and finds the first array that has the
-- token, or none if none has it.
pub get_array-first :
    (wanted : Elem → Bool) (p : Private) (arrays : List VendorArray)
    → LaidOut p 0 arrays
    → get_array wanted (p.size + 1) p 0 ≡ first_with wanted arrays
get_array-first wanted p arrays laid =
    get_array_from wanted p arrays (p.size + 1) 0 laid (omega arith) (omega arith)

-- The search never ends if it comes to an array of size 0 that does not have the token: with no
-- fuel does it find, miss or fault.
pub get_array-endless :
    (wanted : Elem → Bool) (fuel sz : ℕ) (p : Private)
    → sz < p.size
    → (p.array_at sz).size ≡ 0
    → has_token wanted (p.array_at sz).value (rounds (p.array_at sz).num_elems) ≡ some false
    → get_array wanted fuel p sz ≡ out_of_fuel
unfolding get_array
get_array-endless wanted zero sz p lt empty misses = refl
get_array-endless wanted (suc fuel) sz p lt empty misses =
    let same : sz + (p.array_at sz).size ≡ sz = omega arith in
    let rest = get_array-endless wanted fuel sz p lt empty misses in
    rw (misses, same) (rw rest (ground arith))
