-- ===== src/Iova/Get.antt =====
-- `uaudio_get_iova` of upstream-src/sound/usb/qcom/qc_audio_offload.c against the set of addresses
-- that its list describes.
use audioreach_usb_offload_r.Prelude.{
  ℕ, ◌-◌, ◌%◌, ◌≤◌, ◌≡◌, refl, Bool, true, false, not, none, some, List, [], ltb, arith,
  if◌then◌else◌, Option-cases, Bool-cases, inl, inr, ◌==◌,
}
use audioreach_usb_offload_r.Iova.{IovaInfo, IovaPool, scan, fresh, get_iova, page_size}
use audioreach_usb_offload_r.Iova.Grant.{Grant, scan-Grant}

-- The three ways in which the function returns: without effect, with a run of regions that were
-- free, and with a region that it adds at the end.
pub data Got (p : IovaPool) (size : ℕ) : IovaPool × ℕ → Type 0 where
  refused : Got p size (p, 0)
  reused :
      (iova : ℕ) (regions : List IovaInfo)
      → size ≤ p.iova_size
      → Grant size p.regions iova regions
      → Got p size (record p { regions = regions; iova_size = p.iova_size - size }, iova)
  extended :
      size ≤ p.iova_size
      → scan size size [] p.regions ≡ none
      → Got p size (fresh p size, p.curr_iova)

unfoldable pub get_walk : (p : IovaPool) (size : ℕ) (allocated : Bool) → IovaPool × ℕ
get_walk p size allocated = elim (scan size size [] p.regions) [
  | some (iova, regions) ↦ (record p { regions = regions; iova_size = p.iova_size - size }, iova)
  | none ↦ if allocated then (fresh p size, p.curr_iova) else (p, 0)
]

get_walk-Got :
    (p : IovaPool) (size : ℕ) (allocated : Bool)
    → size ≤ p.iova_size
    → Got p size (get_walk p size allocated)
unfolding get_walk
get_walk-Got p size allocated le = elim (Option-cases (scan size size [] p.regions)) [
  | inl e ↦ rw (e, get_walk) (absent allocated e)
  | inr ((iova, regions), e) ↦
      rw (e, get_walk)
        (reused iova regions le (scan-Grant size size [] p.regions iova regions tt (omega arith) e))
]
  where
    absent :
        (b : Bool)
        → scan size size [] p.regions ≡ none
        → Got p size (if b then (fresh p size, p.curr_iova) else (p, 0))
    absent true e = extended le e
    absent false e = refused

pub get_iova_lem :
    (p : IovaPool) (size : ℕ) (allocated : Bool)
    → get_iova p size allocated ≡ (
        if not (size % page_size == 0)
        then (p, 0)
        else if ltb p.iova_size size
        then (p, 0)
        else if p.iova_size == 0
        then (p, 0)
        else get_walk p size allocated)
unfolding get_iova get_walk
get_iova_lem p size allocated = refl

pub get_iova-Got :
    (p : IovaPool) (size : ℕ) (allocated : Bool) → Got p size (get_iova p size allocated)
get_iova-Got p size allocated =
    rw (get_iova_lem p size allocated) elim (Bool-cases (size % page_size == 0)) [
      | inr e ↦ rw e refused
      | inl e ↦ rw e (elim (Bool-cases (ltb p.iova_size size)) [
        | inl f ↦ rw f refused
        | inr f ↦ rw f (elim (Bool-cases (p.iova_size == 0)) [
          | inl g ↦ rw g refused
          | inr g ↦ rw g (get_walk-Got p size allocated (ground arith))
        ])
      ])
    ]
