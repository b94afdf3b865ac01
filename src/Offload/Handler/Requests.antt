-- ===== src/Offload/Handler/Requests.antt =====
-- Requests to `handle_uaudio_stream_req` of upstream-src/sound/usb/qcom/qc_audio_offload.c: the
-- interface table, the `opened` flag, and requests that the code does not guard against.
use audioreach_usb_offload_r.Prelude.{
  ℕ, zero, suc, ◌+◌, ◌<◌, ◌≡◌, refl, inl, inr, Bool, true, false, none, some, List, [], ◌∷◌,
  get_elem?, ◌==◌, arith, Bool-cases,
}
use audioreach_usb_offload_r.Offload.{UaudioDev, IntfInfo}
use audioreach_usb_offload_r.Offload.Request.{
  Subs, SndStream, find_in, set_opened, info_scan, info_idx_from_ifnum,
}

-- The entry that the table lookup chooses.
abbrev pub Serves : ℕ → Bool → IntfInfo → Type 0
Serves intf_num true info = info.in_use ≡ false
Serves intf_num false info = info.intf_num ≡ intf_num

-- What the scan of the entries from i on returns.
Hit : ℕ → ℕ → List IntfInfo → ℕ → Bool → ℕ → Type 0
Hit n i infos intf_num enable j =
    (m : ℕ) × (info : IntfInfo) × (j ≡ i + m)
    × (m < n)
    × (get_elem? infos m ≡ some info)
    × Serves intf_num enable info

info_scan-Hit :
    (n i : ℕ) (infos : List IntfInfo) (intf_num : ℕ) (enable : Bool) (j : ℕ)
    → info_scan n i infos intf_num enable ≡ some j
    → Hit n i infos intf_num enable j
unfolding info_scan Hit
info_scan-Hit zero i infos intf_num enable j h = absurd (none_some h)
  where
    none_some : {x : ℕ} → none ≡ some x → ⊥
    none_some e = cc
info_scan-Hit (suc n) i [] intf_num enable j h = absurd (none_some h)
  where
    none_some : {x : ℕ} → none ≡ some x → ⊥
    none_some e = cc
info_scan-Hit (suc n) i (info ∷ infos) intf_num true j h = elim (Bool-cases info.in_use) [
  | inr e ↦ (0, info, ground arith, omega arith, refl, e)
  | inl e ↦
      let (m, x, a, b, c, d) = info_scan-Hit n (i + 1) infos intf_num true j (rw e at h) in
      (suc m, x, omega arith, omega arith, c, d)
]
info_scan-Hit (suc n) i (info ∷ infos) intf_num false j h =
    elim (Bool-cases (info.intf_num == intf_num)) [
      | inl e ↦ (0, info, ground arith, omega arith, refl, ground arith)
      | inr e ↦
          let (m, x, a, b, c, d) = info_scan-Hit n (i + 1) infos intf_num false j (rw e at h) in
          (suc m, x, omega arith, omega arith, c, d)
    ]

-- Where the table is there and the lookup finds an index, an enable request is served by an entry
-- that is free, a disable request by one that holds its interface, within the first `num_intf`
-- entries.
pub info_idx_from_ifnum_lem :
    (dev : UaudioDev) (intf_num : ℕ) (enable : Bool) (infos : List IntfInfo) (j : ℕ)
    → dev.info ≡ some infos
    → info_idx_from_ifnum dev intf_num enable ≡ some j
    → (info : IntfInfo) × (j < dev.num_intf)
      × (get_elem? infos j ≡ some info)
      × Serves intf_num enable info
unfolding info_idx_from_ifnum Hit
info_idx_from_ifnum_lem dev intf_num enable infos j e h =
    let (m, info, a, b, c, d) =
      info_scan-Hit dev.num_intf 0 infos intf_num enable j (rw (e, info_idx_from_ifnum) at h) in
    let f : j ≡ m = omega arith in (info, omega arith, rw f c, d)

-- The flag that was written is read back.
pub find_in-set_opened :
    (l : List SndStream) (pcm direction : ℕ) (v : Bool) (subs : Subs)
    → find_in l pcm direction ≡ some subs
    → find_in (set_opened l pcm direction v) pcm direction ≡ some (record subs { opened = v })
unfolding find_in set_opened
find_in-set_opened [] pcm direction v subs h = cc
find_in-set_opened (str ∷ l) pcm zero v subs h = elim (Bool-cases (str.pcm_index == pcm)) [
  | inl e ↦ ground arith
  | inr e ↦ rw (e, find_in) (rw e (find_in-set_opened l pcm zero v subs (rw e at h)))
]
find_in-set_opened (str ∷ l) pcm (suc d) v subs h = elim (Bool-cases (str.pcm_index == pcm)) [
  | inl e ↦ ground arith
  | inr e ↦ rw (e, find_in) (rw e (find_in-set_opened l pcm (suc d) v subs (rw e at h)))
]
