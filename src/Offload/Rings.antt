-- ===== src/Offload/Rings.antt =====
-- What a step of `prepare_qmi_response` does to the ring addresses of the service's device
-- (upstream-src/sound/usb/qcom/qc_audio_offload.c): it keeps the set of those in use, or adds a page.
use audioreach_usb_offload_r.Prelude.{
  ℕ, ◌<◌, ◌%◌, ◌≡◌, ◌≢◌, refl, ◌∙◌, Bool, false, ◌||◌, ◌&&◌, ◌==◌, arith,
}
use audioreach_usb_offload_r.Iova.{page_size, get_iova}
use audioreach_usb_offload_r.Iova.Tiling.{occupied, in_range}
use audioreach_usb_offload_r.Iova.Claims.{get_iova-claims}
use audioreach_usb_offload_r.Iova.Window.{IsRingPool, get_iova-IsRingPool, get_iova-in_window}
use audioreach_usb_offload_r.Iova.Rings.{put_iova-IsRingPool}
use audioreach_usb_offload_r.Iova.Pages.{get_iova-zero, put_iova-page_occupied, get_iova-aligned}
use audioreach_usb_offload_r.Stream.{iova_mask, prepend_sid_to_iova}
use audioreach_usb_offload_r.Stream.Token.{iova_mask-prepend}
use audioreach_usb_offload_r.Offload.{UaudioQmiDev, iova_xfer_ring_base, iova_xfer_ring_max}
use audioreach_usb_offload_r.Offload.Iommu.{xfer_ring, iommu_unmap, iommu_map_pa}

-- The ring pool is in order in the driver's window, and the stream identifier fits 32 bits.
pub record IsRings (q : UaudioQmiDev) : Type 0 where
  pub rings : IsRingPool iova_xfer_ring_base iova_xfer_ring_max q.xfer_ring
  pub small_sid : q.sid < 4294967296

-- `r` is in order, and has the same ring addresses in use as `q`.
pub record Kept (q r : UaudioQmiDev) : Type 0 where
  pub in_order : IsRings r
  pub same : (a : ℕ) → occupied a r.xfer_ring.regions ≡ occupied a q.xfer_ring.regions

-- `r` is in order, and has the page at `iova` in use besides the addresses of `q`.
pub record Holding (iova : ℕ) (q r : UaudioQmiDev) : Type 0 where
  pub in_order : IsRings r
  pub set_up : iova ≢ 0
  pub aligned : iova % page_size ≡ 0
  pub apart : (a : ℕ) → (in_range iova page_size a && occupied a q.xfer_ring.regions) ≡ false
  pub added :
      (a : ℕ)
      → occupied a r.xfer_ring.regions
        ≡ (in_range iova page_size a || occupied a q.xfer_ring.regions)

pub Kept-refl : (q : UaudioQmiDev) → IsRings q → Kept q q
Kept-refl q v = record { in_order = v; same = λ a. refl }

-- Only the ring pool and the identifier count.
pub Kept-ring :
    (q r : UaudioQmiDev) → IsRings q → r.xfer_ring ≡ q.xfer_ring → r.sid ≡ q.sid → Kept q r
Kept-ring q r v e f = record {
  in_order = record { rings = rw e v.rings; small_sid = rw f v.small_sid };
  same = λ a. rw e;
}

pub Kept-trans : (q r s : UaudioQmiDev) → Kept q r → Kept r s → Kept q s
Kept-trans q r s u v = record { in_order = v.in_order; same = λ a. v.same a ∙ u.same a }

pub Holding-Kept :
    (iova : ℕ) (q r s : UaudioQmiDev) → Holding iova q r → Kept r s → Holding iova q s
Holding-Kept iova q r s h v = record {
  in_order = v.in_order;
  set_up = h.set_up;
  aligned = h.aligned;
  apart = h.apart;
  added = λ a. v.same a ∙ h.added a;
}

-- What a mapped ring adds is taken away by unmapping it.
pub iommu_unmap-Kept :
    (iova : ℕ) (q r : UaudioQmiDev)
    → Holding iova q r
    → Kept q (iommu_unmap r xfer_ring iova page_size)
unfolding iommu_unmap
iommu_unmap-Kept iova q r h =
    let e : (iova == 0) ≡ false = ground (arith, h.set_up) in
    rw e (record {
      in_order = record {
        rings = put_iova-IsRingPool _ _ iova r.xfer_ring (omega arith) h.in_order.rings;
        small_sid = h.in_order.small_sid;
      };
      same = λ a.
          put_iova-page_occupied _ _ iova r.xfer_ring h.in_order.rings refl h.aligned a
          ∙ ground (arith, h.apart a, h.added a);
    })

-- Mapping a ring adds a page, or fails and keeps the rings.
pub iommu_map_pa-Holding :
    (q : UaudioQmiDev) (allocated : Bool)
    → IsRings q
    → let m = iommu_map_pa q xfer_ring page_size allocated in
      m.1 ≢ 0 → Holding (iova_mask (prepend_sid_to_iova m.1 q.sid)) q m.0
unfolding iommu_map_pa
iommu_map_pa-Holding q allocated v ne =
    let (lo, hi) = get_iova-in_window _ _ q.xfer_ring allocated v.rings ne in
    let e =
      (iova_mask-prepend (get_iova q.xfer_ring page_size allocated).1 q.sid (omega arith)
        v.small_sid).0 in
    rw e (record {
      in_order = record {
        rings = get_iova-IsRingPool _ _ q.xfer_ring allocated (omega arith) v.rings;
        small_sid = v.small_sid;
      };
      set_up = ne;
      aligned = get_iova-aligned _ _ q.xfer_ring allocated v.rings refl;
      apart = λ a.
          (get_iova-claims _ _ q.xfer_ring page_size allocated v.rings.pool (omega arith) ne a).0;
      added = λ a.
          (get_iova-claims _ _ q.xfer_ring page_size allocated v.rings.pool (omega arith) ne a).1;
    })

pub iommu_map_pa-Kept :
    (q : UaudioQmiDev) (allocated : Bool)
    → IsRings q
    → (iommu_map_pa q xfer_ring page_size allocated).1 ≡ 0
    → Kept q (iommu_map_pa q xfer_ring page_size allocated).0
unfolding iommu_map_pa
iommu_map_pa-Kept q allocated v z =
    Kept-ring q _ v
      (get_iova-zero _ _ q.xfer_ring page_size allocated v.rings.pool (omega arith) (omega arith) z)
      refl
