-- ===== src/Iova/Pages.antt =====
-- The pool of transfer rings as a set of addresses, for any address that is given back:
-- upstream-src/sound/usb/qcom/qc_audio_offload.c.
use audioreach_usb_offload_r.Prelude.{
  ℕ, ◌+◌, ◌%◌, ◌<◌, ◌≡◌, refl, Bool, false, not, ◌&&◌, List, [], ◌∷◌, ◌++◌, All, arith,
}
use audioreach_usb_offload_r.Iova.{
  IovaInfo, IovaPool, fresh, get_iova, put_iova, put_scan, page_size,
}
use audioreach_usb_offload_r.Iova.Grant.{total}
use audioreach_usb_offload_r.Iova.Tiling.{Tiled, in_range, occupied, occupied-below, Tiled-le}
use audioreach_usb_offload_r.Iova.Get.{Got, refused, reused, extended, get_iova-Got}
use audioreach_usb_offload_r.Iova.Claims.{IsPool, Grant-start}
use audioreach_usb_offload_r.Iova.Window.{IsPage, IsRingPool, All-split}

put_scan-occupied :
    (b e iova a : ℕ) (rs : List IovaInfo)
    → All IsPage rs
    → Tiled b rs e
    → b % page_size ≡ 0
    → iova % page_size ≡ 0
    → occupied a (put_scan iova page_size page_size false rs).0
      ≡ (not (in_range iova page_size a) && occupied a rs)
unfolding put_scan occupied
put_scan-occupied b e iova a [] h t m n = ground arith
put_scan-occupied b e iova a (r ∷ rs) h t m n =
    let ih = put_scan-occupied (b + r.size) e iova a rs h.1 t.2 (omega arith) n in
    let low = occupied-below a (b + r.size) e rs t.2 in ground (arith, ih, low)

-- On a ring pool in order with an aligned window, giving back the page at an aligned address
-- removes it from the addresses in use, whether it was in use or not, and no other.
pub put_iova-page_occupied :
    (base top iova : ℕ) (p : IovaPool)
    → IsRingPool base top p
    → base % page_size ≡ 0
    → iova % page_size ≡ 0
    → (a : ℕ)
    → occupied a (put_iova p iova page_size).regions
      ≡ (not (in_range iova page_size a) && occupied a p.regions)
unfolding put_iova
put_iova-page_occupied base top iova p inv m n a =
    put_scan-occupied base p.curr_iova iova a p.regions inv.pages inv.pool.tiled m n

total-pages : (rs : List IovaInfo) → All IsPage rs → total rs % page_size ≡ 0
total-pages [] h = refl
total-pages (r ∷ rs) h = omega (arith, total-pages rs h.1)

Got-aligned :
    (base top : ℕ) (p : IovaPool) (r : IovaPool × ℕ)
    → IsRingPool base top p
    → base % page_size ≡ 0
    → Got p page_size r
    → r.1 % page_size ≡ 0
unfolding fresh
Got-aligned base top p _ inv m refused = refl
Got-aligned base top p _ inv m (reused iova regions le g) =
    let pages = All-split IsPage g.pre (g.chunk ++ g.post) (rw g.splits at inv.pages) in
    omega (
      arith,
      Grant-start base p.curr_iova inv.pool.tiled g (omega arith),
      total-pages g.pre pages.0,
    )
Got-aligned base top p _ inv m (extended le e) =
    omega
      (arith, Tiled-le base p.curr_iova p.regions inv.pool.tiled, total-pages p.regions inv.pages)

-- An address that a ring is given is a multiple of the page size.
pub get_iova-aligned :
    (base top : ℕ) (p : IovaPool) (allocated : Bool)
    → IsRingPool base top p
    → base % page_size ≡ 0
    → (get_iova p page_size allocated).1 % page_size ≡ 0
get_iova-aligned base top p allocated inv m =
    Got-aligned base top p _ inv m (get_iova-Got p page_size allocated)

Got-zero :
    (base top : ℕ) (p : IovaPool) (size : ℕ) (r : IovaPool × ℕ)
    → IsPool base top p
    → 0 < base
    → 0 < size
    → Got p size r
    → r.1 ≡ 0
    → r.0 ≡ p
unfolding fresh
Got-zero base top p size _ inv b pos refused z = refl
Got-zero base top p size _ inv b pos (reused iova regions le g) z =
    absurd (omega (arith, Grant-start base p.curr_iova inv.tiled g pos))
Got-zero base top p size _ inv b pos (extended le e) z =
    absurd (omega (arith, Tiled-le base p.curr_iova p.regions inv.tiled))

-- A call that fails changes nothing.
pub get_iova-zero :
    (base top : ℕ) (p : IovaPool) (size : ℕ) (allocated : Bool)
    → IsPool base top p
    → 0 < base
    → 0 < size
    → (get_iova p size allocated).1 ≡ 0
    → (get_iova p size allocated).0 ≡ p
get_iova-zero base top p size allocated inv b pos z =
    Got-zero base top p size _ inv b pos (get_iova-Got p size allocated) z
