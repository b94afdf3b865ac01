-- ===== src/Sideband/Links.antt =====
-- The pointers between an instance and the endpoints of its device
-- (source-reference/kernel/usb-host/xhci-sideband.c).
use audioreach_usb_offload_r.Prelude.{
  ℕ, zero, suc, ◌<◌, ◌≤◌, ◌≡◌, refl, sym, ap, ◌∙◌, inl, inr, Bool, true, false, Option, none, some,
  arith, Bool-cases,
}
use audioreach_usb_offload_r.Stream.{Ret}
use audioreach_usb_offload_r.Sideband.{
  State, VirtDevice, is_owner, ep_ctx_per_dev, add_endpoint, remove_endpoint, create_interrupter,
  remove_interrupter, drop_endpoints, unregister, register,
}

-- Entry i of the instance is set exactly if endpoint i points back to it, and only entries of the
-- table are set; a registered instance is known to its device, and one that is not holds nothing.
pub record IsLinked (s : State) : Type 0 where
  pub linked : (i : ℕ) → s.sb.eps i ≡ is_owner s.sb.id (s.dev.ep_sideband i)
  pub in_table : (i : ℕ) → ep_ctx_per_dev ≤ i → s.sb.eps i ≡ false
  pub known : s.sb.has_vdev ≡ true → s.dev.sideband ≡ some s.sb.id
  pub no_ir : s.sb.has_vdev ≡ false → s.sb.ir ≡ none
  pub no_eps : (i : ℕ) → s.sb.has_vdev ≡ false → s.sb.eps i ≡ false

-- A fresh instance is linked, if no endpoint points to its address before.
pub register-IsLinked :
    (dev : VirtDevice) (id : ℕ) (supported allocated present : Bool) {s : State}
    → ((i : ℕ) → is_owner id (dev.ep_sideband i) ≡ false)
    → register dev id supported allocated present ≡ some s
    → IsLinked s
unfolding register
register-IsLinked dev id supported allocated present new e = record {
  linked = λ i. ground (arith, new i);
  in_table = λ i h. ground arith;
  known = ground arith;
  no_ir = λ h. ground arith;
  no_eps = λ i h. ground arith;
}

-- `add_endpoint` keeps an instance linked, for an endpoint of the table.
pub add_endpoint-IsLinked :
    (s : State) (i : ℕ) → i < ep_ctx_per_dev → IsLinked s → IsLinked (add_endpoint s i).0
unfolding add_endpoint
add_endpoint-IsLinked s i lt v = record {
  linked = λ j. ground (arith, v.linked j);
  in_table = λ j h. ground (arith, v.in_table j h);
  known = ground (arith, v.known);
  no_ir = ground (arith, v.no_ir);
  no_eps = λ j h. ground (arith, v.no_eps j);
}

-- `remove_endpoint` keeps an instance linked, whether it holds the endpoint or not.
pub remove_endpoint-IsLinked : (s : State) (i : ℕ) → IsLinked s → IsLinked (remove_endpoint s i).0
unfolding remove_endpoint
remove_endpoint-IsLinked s i v = record {
  linked = λ j. ground (arith, v.linked j);
  in_table = λ j h. ground (arith, v.in_table j h);
  known = ground (arith, v.known);
  no_ir = ground (arith, v.no_ir);
  no_eps = λ j h. ground (arith, v.no_eps j);
}

-- `create_interrupter` keeps an instance linked, whatever its outcome.
pub create_interrupter-IsLinked :
    (s : State) (created : Option ℕ) (got : Ret)
    → IsLinked s
    → IsLinked (create_interrupter s created got).0
unfolding create_interrupter
create_interrupter-IsLinked s created got v = record {
  linked = λ j. ground (arith, v.linked j);
  in_table = λ j h. ground (arith, v.in_table j h);
  known = ground (arith, v.known);
  no_ir = ground (arith, v.no_ir);
  no_eps = λ j h. ground (arith, v.no_eps j);
}

-- `remove_interrupter` keeps an instance linked.
pub remove_interrupter-IsLinked : (s : State) → IsLinked s → IsLinked (remove_interrupter s)
unfolding remove_interrupter
remove_interrupter-IsLinked s v = record {
  linked = λ j. ground (arith, v.linked j);
  in_table = λ j h. ground (arith, v.in_table j h);
  known = ground (arith, v.known);
  no_ir = ground (arith, v.no_ir);
  no_eps = λ j h. ground (arith, v.no_eps j);
}

-- The state after the entries below n have been dropped.
record Dropped (n : ℕ) (s t : State) : Type 0 where
  same_id : t.sb.id ≡ s.sb.id
  same_ir : t.sb.ir ≡ s.sb.ir
  below : (j : ℕ) → j < n → t.sb.eps j ≡ false
  above : (j : ℕ) → n ≤ j → t.sb.eps j ≡ s.sb.eps j
  links : (j : ℕ) → t.sb.eps j ≡ is_owner t.sb.id (t.dev.ep_sideband j)

drop_endpoints-Dropped :
    (n : ℕ) (s : State)
    → ((j : ℕ) → s.sb.eps j ≡ is_owner s.sb.id (s.dev.ep_sideband j))
    → Dropped n s (drop_endpoints n s)
unfolding drop_endpoints
drop_endpoints-Dropped zero s l = record {
  same_id = refl;
  same_ir = refl;
  below = λ j h. elim h [ ];
  above = λ j h. refl;
  links = l;
}
drop_endpoints-Dropped (suc n) s l =
    let d = drop_endpoints-Dropped n s l in
    record {
      same_id = ground (arith, d.same_id);
      same_ir = ground (arith, d.same_ir);
      below = λ j h. ground (arith, d.below j);
      above = λ j h. ground (arith, d.above j);
      links = λ j. ground (arith, d.links j);
    }

-- To unregister an instance that is linked and registered leaves, at every endpoint, no pointer to
-- it and no entry set; there is no interrupter, and the device is free for another instance.
pub unregister-releases :
    (s : State)
    → IsLinked s
    → s.sb.has_vdev ≡ true
    → (i : ℕ)
    → ((unregister s).sb.eps i ≡ false)
      × (is_owner s.sb.id ((unregister s).dev.ep_sideband i) ≡ false)
      × ((unregister s).sb.ir ≡ none)
      × ((unregister s).sb.has_vdev ≡ false)
      × ((unregister s).dev.sideband ≡ none)
unfolding unregister
unregister-releases s v a i =
    let d = drop_endpoints-Dropped ep_ctx_per_dev s v.linked in
    let e : (drop_endpoints ep_ctx_per_dev s).sb.eps i ≡ false =
      ground (arith, d.below i, d.above i, v.in_table i) in
    (
      ground (arith, e),
      ground (arith, e, d.links i, d.same_id),
      ground arith,
      ground arith,
      ground arith,
    )

unregister_id : (s : State) → IsLinked s → (unregister s).sb.id ≡ s.sb.id
unfolding unregister
unregister_id s v = ground (arith, (drop_endpoints-Dropped ep_ctx_per_dev s v.linked).same_id)

unregister_unregistered : (s : State) → s.sb.has_vdev ≡ false → unregister s ≡ s
unfolding unregister
unregister_unregistered s h = ground arith

-- Unregistering keeps an instance linked, registered or not.
pub unregister-IsLinked : (s : State) → IsLinked s → IsLinked (unregister s)
unregister-IsLinked s v = elim (Bool-cases s.sb.has_vdev) [
  | inr off ↦ rw (unregister_unregistered s off) v
  | inl on ↦ record {
    linked = λ i.
        let r = unregister-releases s v on i in
        r.0
        ∙ sym (ap (λ id. is_owner id ((unregister s).dev.ep_sideband i)) (unregister_id s v) ∙ r.1);
    in_table = λ i h. (unregister-releases s v on i).0;
    known = λ h. absurd (true_false (sym h ∙ (unregister-releases s v on 0).3));
    no_ir = λ h. (unregister-releases s v on 0).2;
    no_eps = λ i h. (unregister-releases s v on i).0;
  }
]
  where
    true_false : true ≡ false → ⊥
    true_false e = cc
