-- ===== src/Iova/Rounds.antt =====
-- `uaudio_get_iova` followed by `uaudio_put_iova` (upstream-src/sound/usb/qcom/qc_audio_offload.c),
-- and when the first of them succeeds.
use audioreach_usb_offload_r.Prelude.{
  ℕ, ◌+◌, ◌%◌, ◌≤◌, ◌<◌, ◌≡◌, ◌≢◌, ◌↔◌, refl, sym, ◌∙◌, Bool, true, false, not, ◌&&◌, ◌||◌, some,
  List, [], ◌∷◌, map, arith, Option-cases, inl, inr,
}
use audioreach_usb_offload_r.Iova.{
  IovaInfo, IovaPool, mark, scan, fresh, get_iova, put_iova, page_size, u64,
}
use audioreach_usb_offload_r.Iova.Grant.{scan-Grant}
use audioreach_usb_offload_r.Iova.Tiling.{
  in_range, occupied, map-mark-Tiled, total-map-mark, map-mark-IsTaken, Tiled-le,
}
use audioreach_usb_offload_r.Iova.Get.{
  Got, refused, reused, extended, get_iova-Got, get_walk, get_iova_lem,
}
use audioreach_usb_offload_r.Iova.Claims.{
  IsPool, get_iova-IsPool, get_iova-claims, chunk-Tiled, split-Tiled, Grant-start,
}
use audioreach_usb_offload_r.Iova.Put.{Taken, put_iova_lem, put_iova-IsPool, put_iova-occupied}

-- What a call returns is a run in use of the list that it leaves.
pub Got-Taken :
    (base top : ℕ) (p : IovaPool) (size : ℕ) (r : IovaPool × ℕ)
    → IsPool base top p
    → 0 < size
    → p.curr_iova + size < 18446744073709551616
    → Got p size r
    → r.1 ≢ 0
    → Taken base r.0.curr_iova r.1 size r.0.regions
unfolding fresh
Got-Taken base top p size _ inv pos wrap refused ne = absurd (ne refl)
Got-Taken base top p size _ inv pos wrap (reused iova regions le g) ne =
    let s = Grant-start base p.curr_iova inv.tiled g pos in
    let (run, after) = chunk-Tiled base p.curr_iova inv.tiled g in
    record {
      pre = g.pre;
      chunk = map mark g.chunk;
      post = g.post;
      splits = g.marks;
      before = rw s (split-Tiled base p.curr_iova inv.tiled g).0;
      run = rw s (map-mark-Tiled _ _ g.chunk run);
      after = rw s after;
      taken = map-mark-IsTaken g.chunk;
      fills = total-map-mark g.chunk ∙ g.fills;
    }
Got-Taken base top p size _ inv pos wrap (extended le none_fits) ne =
    let e : u64 (p.curr_iova + size) ≡ p.curr_iova + size = omega arith in
    record {
      pre = p.regions;
      chunk = record { start_iova = p.curr_iova; size = size; in_use = true } ∷ [];
      post = [];
      splits = refl;
      before = inv.tiled;
      run = (refl, pos, refl);
      after = sym e;
      taken = (refl, tt);
      fills = omega arith;
    }

Got-iova_size :
    (p : IovaPool) (size : ℕ) (r : IovaPool × ℕ)
    → Got p size r
    → r.1 ≢ 0
    → r.0.iova_size + size ≡ p.iova_size
unfolding fresh
Got-iova_size p size _ refused ne = absurd (ne refl)
Got-iova_size p size _ (reused iova regions le g) ne = omega arith
Got-iova_size p size _ (extended le none_fits) ne = omega arith

restores : (i b a : Bool) → ((i && b) ≡ false) × (a ≡ (i || b)) → (not i && a) ≡ b
restores true b a h = sym h.0
restores false b a h = h.1

-- On a pool in order, with no wrap-around at 2 ^ 64, an address that a call for at least one byte
-- returned can be given back with the same size: the pool is then in order, as many bytes are left
-- and the same addresses are in use as before the call.
pub get_iova-put_iova :
    (base top : ℕ) (p : IovaPool) (size : ℕ) (allocated : Bool)
    → IsPool base top p
    → top < 18446744073709551616
    → 0 < size
    → p.curr_iova + size < 18446744073709551616
    → (get_iova p size allocated).1 ≢ 0
    → let q = put_iova (get_iova p size allocated).0 (get_iova p size allocated).1 size in
      IsPool base top q
      × (q.iova_size ≡ p.iova_size)
      × ((a : ℕ) → occupied a q.regions ≡ occupied a p.regions)
get_iova-put_iova base top p size allocated inv small pos wrap ne =
    let r = get_iova p size allocated in
    let after = get_iova-IsPool base top p size allocated inv pos wrap in
    let run = Got-Taken base top p size r inv pos wrap (get_iova-Got p size allocated) ne in
    (
      put_iova-IsPool base top r.1 size r.0 after run pos small,
      rw (put_iova_lem base top r.1 size r.0 after run pos small)
          (Got-iova_size p size r (get_iova-Got p size allocated) ne),
      λ a. rw (put_iova-occupied base top r.1 size r.0 after run pos small a) (
          restores (in_range r.1 size a) (occupied a p.regions) (occupied a r.0.regions)
            (get_iova-claims base top p size allocated inv pos ne a)),
    )

scan-ne-zero :
    (base top : ℕ) (p : IovaPool) (size : ℕ) (iova : ℕ) (regions : List IovaInfo)
    → IsPool base top p
    → 0 < base
    → 0 < size
    → scan size size [] p.regions ≡ some (iova, regions)
    → iova ≢ 0
scan-ne-zero base top p size iova regions inv b pos e =
    let g = scan-Grant size size [] p.regions iova regions tt (omega arith) e in
    omega (arith, Grant-start base p.curr_iova inv.tiled g pos)

get_walk-ne-zero :
    (base top : ℕ) (p : IovaPool) (size : ℕ)
    → IsPool base top p
    → 0 < base
    → 0 < size
    → (get_walk p size true).1 ≢ 0
unfolding get_walk
get_walk-ne-zero base top p size inv b pos = elim (Option-cases (scan size size [] p.regions)) [
  | inl e ↦ rw (e, get_walk) (omega (arith, Tiled-le base p.curr_iova p.regions inv.tiled))
  | inr ((iova, regions), e) ↦
      rw (e, get_walk) (scan-ne-zero base top p size iova regions inv b pos e)
]

-- On a pool in order whose window does not start at 0, a request of at least one byte succeeds,
-- where memory for the list can be had, exactly if it is a multiple of the page size and no larger
-- than the amount left.
pub get_iova_iff :
    (base top : ℕ) (p : IovaPool) (size : ℕ)
    → IsPool base top p
    → 0 < base
    → 0 < size
    → ((get_iova p size true).1 ≢ 0) ↔ ((size % page_size ≡ 0) × (size ≤ p.iova_size))
get_iova_iff base top p size inv b pos = (forward, backward)
  where
    forward : (get_iova p size true).1 ≢ 0 → (size % page_size ≡ 0) × (size ≤ p.iova_size)
    forward ne = ground (arith, get_iova_lem p size true)

    backward : (size % page_size ≡ 0) × (size ≤ p.iova_size) → (get_iova p size true).1 ≢ 0
    backward h =
        ground (arith, get_iova_lem p size true, get_walk-ne-zero base top p size inv b pos)
