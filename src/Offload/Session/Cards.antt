-- ===== src/Offload/Session/Cards.antt =====
-- A card and its sideband over probe and disconnect
-- (upstream-src/sound/usb/qcom/qc_audio_offload.c).
use audioreach_usb_offload_r.Prelude.{
  ◌≤◌, length, ℕ, ◌≡◌, sym, ◌∙◌, inl, inr, true, false, not, none, some, arith, if_intro,
  Option-cases,
}
use audioreach_usb_offload_r.Sideband.{State, is_owner, is_set, register, unregister}
use audioreach_usb_offload_r.Sideband.Links.{IsLinked, register-IsLinked, unregister-IsLinked}
use audioreach_usb_offload_r.Offload.{UaudioDev}
use audioreach_usb_offload_r.Offload.Request.{Chip, info_list}
use audioreach_usb_offload_r.Offload.Handler.{Card, Service, Sdev}
use audioreach_usb_offload_r.Offload.Session.{ProbeEnv, populated, probe_card}

-- A card has a chip exactly while its sideband is registered, and the sideband is linked.
pub record IsCard (card : Card) : Type 0 where
  pub side_linked : IsLinked card.side
  pub registered : is_set card.chip ≡ card.side.sb.has_vdev

register-has_vdev :
    (env : ProbeEnv) {side : State}
    → register env.vdev env.sb_id env.sb_supported env.sb_allocated env.vdev_present ≡ some side
    → side.sb.has_vdev ≡ true
unfolding register
register-has_vdev env e = ground arith

unregister-has_vdev : (s : State) → (unregister s).sb.has_vdev ≡ false
unfolding unregister
unregister-has_vdev s = ground arith

populated-IsCard :
    (card : Card) (chip : Chip) (sdev : Sdev) (side : State) (env : ProbeEnv)
    → IsLinked side
    → side.sb.has_vdev ≡ true
    → IsCard (populated card chip sdev side env)
populated-IsCard card chip sdev side env v on =
    if_intro IsCard (not env.last_iface) (λ f. record { side_linked = v; registered = sym on })
      λ f.
        if_intro IsCard (not env.ppcm_allocated)
          (λ g. record {
            side_linked = unregister-IsLinked side v;
            registered = sym (unregister-has_vdev side);
          })
          (λ g. record { side_linked = v; registered = sym on })

-- Probe keeps the chip and the sideband of a card in step, whichever allocation or call fails, if
-- they are in step before and no endpoint points to the new instance's address.
pub probe_card-IsCard :
    (card : Card) (chip : Chip) (env : ProbeEnv)
    → ((i : ℕ) → is_owner env.sb_id (env.vdev.ep_sideband i) ≡ false)
    → IsCard card
    → IsCard (probe_card card chip env)
unfolding probe_card
probe_card-IsCard card chip env new v =
    if_intro IsCard (is_set card.chip)
      (λ f. populated-IsCard card chip _ card.side env v.side_linked (sym v.registered ∙ f))
      λ f.
        if_intro IsCard (not env.sdev_allocated) (λ g. v)
          λ g.
            elim (Option-cases
              (register env.vdev env.sb_id env.sb_supported env.sb_allocated env.vdev_present)) [
                | inl e ↦ rw e (record {
                  side_linked = v.side_linked;
                  registered = sym (sym v.registered ∙ f);
                })
                | inr (side, e) ↦ rw e (
                    populated-IsCard card chip _ side env
                      (register-IsLinked env.vdev env.sb_id env.sb_supported env.sb_allocated
                        env.vdev_present new e)
                      (register-has_vdev env e))
              ]

-- A registered instance at address `id`.
record Live (id : ℕ) (side : State) : Type 0 where
  linked : IsLinked side
  there : side.sb.has_vdev ≡ true
  same_id : side.sb.id ≡ id

-- The table of a device has an entry for each of its interfaces; one of no interfaces may be null.
abbrev pub HasTable : UaudioDev → Type 0
HasTable dev = dev.num_intf ≤ length (info_list dev.info)

-- What disconnect leaves of card n, whose instance was at address `id`.
abbrev pub IsGone : ℕ → ℕ → Service → Type 0
IsGone id n t =
    IsCard (t.cards n)
    × ((t.cards n).chip ≡ none)
    × ((i : ℕ) → is_owner id ((t.cards n).side.dev.ep_sideband i) ≡ false)
