-- ===== src/Iova/Claims.antt =====
-- What a call of `uaudio_get_iova` of upstream-src/sound/usb/qcom/qc_audio_offload.c keeps and
-- claims.
use audioreach_usb_offload_r.Prelude.{
  ℕ, ◌+◌, ◌<◌, ◌≡◌, ◌≢◌, refl, ◌∙◌, Bool, true, false, ◌&&◌, ◌||◌, List, [], ◌∷◌, ◌++◌, map, arith,
}
use audioreach_usb_offload_r.Iova.{IovaInfo, IovaPool, mark, fresh, get_iova, u64}
use audioreach_usb_offload_r.Iova.Grant.{total, start_of, Grant}
use audioreach_usb_offload_r.Iova.Tiling.{
  Tiled, used, in_range, occupied, used-append, occupied-append, Tiled-append, append-Tiled,
  map-mark-Tiled, total-map-mark, map-mark-IsTaken, used-IsFree, used-IsTaken, occupied-IsFree,
  occupied-below, occupied-above, occupied-IsTaken,
}
use audioreach_usb_offload_r.Iova.Get.{Got, refused, reused, extended, get_iova-Got}

-- What the pool keeps between two calls: the list tiles what has been handed out from `base` on, and
-- the amount that is left is what of the window from `base` to `top` is not in use.
pub record IsPool (base top : ℕ) (p : IovaPool) : Type 0 where
  pub tiled : Tiled base p.regions p.curr_iova
  pub accounted : base + p.iova_size + used p.regions ≡ top

start_of-Tiled : (b m : ℕ) (c : List IovaInfo) → Tiled b c m → 0 < total c → start_of c ≡ b
start_of-Tiled b m [] h pos = absurd (omega arith)
start_of-Tiled b m (r ∷ rs) h pos = h.0

-- A granted run, taken apart along the tiling.
module _ (base e : ℕ) {size iova : ℕ} {before after : List IovaInfo} (t : Tiled base before e)
    (g : Grant size before iova after) where
  open g use {pre, chunk, post, splits, marks, free, fills, starts}

  pub split-Tiled : Tiled base pre (base + total pre) × Tiled (base + total pre) (chunk ++ post) e
  split-Tiled = Tiled-append base e pre (chunk ++ post) (rw splits at t)

  pub chunk-Tiled :
      Tiled (base + total pre) chunk (base + total pre + size)
      × Tiled (base + total pre + size) post e
  chunk-Tiled = rw fills at (Tiled-append (base + total pre) e chunk post split-Tiled.1)

  pub Grant-Tiled : Tiled base after e
  Grant-Tiled = rw marks (
      append-Tiled base _ e pre _ split-Tiled.0 (
        append-Tiled _ _ e (map mark chunk) post (map-mark-Tiled _ _ chunk chunk-Tiled.0)
          chunk-Tiled.1))

  pub Grant-used : used after ≡ used before + size
  Grant-used =
      rw (marks, splits)
        (omega (
          arith,
          used-append pre (map mark chunk ++ post),
          used-append (map mark chunk) post,
          used-append pre (chunk ++ post),
          used-append chunk post,
          used-IsFree chunk free,
          used-IsTaken (map mark chunk) (map-mark-IsTaken chunk),
          total-map-mark chunk,
          fills,
        ))

  pub Grant-start : 0 < size → iova ≡ base + total pre
  Grant-start pos = starts ∙ start_of-Tiled _ _ chunk chunk-Tiled.0 (rw fills pos)

  before_occupied : (a : ℕ) → occupied a before ≡ (occupied a pre || occupied a post)
  before_occupied a =
      rw
        (
          splits,
          occupied-append a pre (chunk ++ post),
          occupied-append a chunk post,
          occupied-IsFree a chunk free,
        )
        refl

  after_occupied :
      (a : ℕ)
      → occupied a after
        ≡ (occupied a pre || (in_range (base + total pre) size a || occupied a post))
  after_occupied a =
      rw
        (
          marks,
          occupied-append a pre (map mark chunk ++ post),
          occupied-append a (map mark chunk) post,
          occupied-IsTaken a _ _ (map mark chunk) (map-mark-Tiled _ _ chunk chunk-Tiled.0)
              (map-mark-IsTaken chunk),
          total-map-mark chunk,
          fills,
        )
        refl

  pub Grant-occupied :
      (a : ℕ) → 0 < size → occupied a after ≡ (in_range iova size a || occupied a before)
  Grant-occupied a pos = rw (after_occupied a, before_occupied a, Grant-start pos) (ground arith)

  pub Grant-unoccupied :
      (a : ℕ) → 0 < size → in_range iova size a ≡ true → occupied a before ≡ false
  Grant-unoccupied a pos h = rw (before_occupied a) (
      ground (
        arith,
        Grant-start pos,
        occupied-above a base _ pre split-Tiled.0,
        occupied-below a _ e post chunk-Tiled.1,
      ))

-- A region added at the end of a tiling.
module _ (base e size : ℕ) (rs : List IovaInfo) (t : Tiled base rs e) where
  abbrev added : List IovaInfo
  added = rs ++ (record { start_iova = e; size = size; in_use = true } ∷ [])

  added-Tiled : 0 < size → Tiled base added (e + size)
  added-Tiled pos = append-Tiled base e (e + size) rs _ t (refl, pos, refl)

  added-used : used added ≡ used rs + size
  unfolding used
  added-used =
      omega (arith, used-append rs (record { start_iova = e; size = size; in_use = true } ∷ []))

  added-occupied : (a : ℕ) → occupied a added ≡ (in_range e size a || occupied a rs)
  unfolding occupied
  added-occupied a =
      rw (occupied-append a rs (record { start_iova = e; size = size; in_use = true } ∷ []))
        (ground arith)

-- The pool after a call whose result is `r`.
pub Got-IsPool :
    (base top : ℕ) (p : IovaPool) (size : ℕ) (r : IovaPool × ℕ)
    → IsPool base top p
    → 0 < size
    → p.curr_iova + size < 18446744073709551616
    → Got p size r
    → IsPool base top r.0
unfolding fresh
Got-IsPool base top p size _ inv pos wrap refused = inv
Got-IsPool base top p size _ inv pos wrap (reused iova regions le g) = record {
  tiled = Grant-Tiled base p.curr_iova inv.tiled g;
  accounted = omega (arith, inv.accounted, Grant-used base p.curr_iova inv.tiled g);
}
Got-IsPool base top p size _ inv pos wrap (extended le none_fits) =
    let e : u64 (p.curr_iova + size) ≡ p.curr_iova + size = omega arith in
    record {
      tiled = rw e (added-Tiled base p.curr_iova size p.regions inv.tiled pos);
      accounted =
          omega (arith, inv.accounted, added-used base p.curr_iova size p.regions inv.tiled);
    }

-- Whatever a call returns, the list tiles the handed-out part of the window and the amount left is
-- the window less what is in use, if this held before, the request is not empty and the next fresh
-- address does not pass 2 ^ 64.
pub get_iova-IsPool :
    (base top : ℕ) (p : IovaPool) (size : ℕ) (allocated : Bool)
    → IsPool base top p
    → 0 < size
    → p.curr_iova + size < 18446744073709551616
    → IsPool base top (get_iova p size allocated).0
get_iova-IsPool base top p size allocated inv pos wrap =
    Got-IsPool base top p size _ inv pos wrap (get_iova-Got p size allocated)

Got-claims :
    (base top : ℕ) (p : IovaPool) (size : ℕ) (r : IovaPool × ℕ)
    → IsPool base top p
    → 0 < size
    → Got p size r
    → r.1 ≢ 0
    → (a : ℕ)
    → ((in_range r.1 size a && occupied a p.regions) ≡ false)
      × (occupied a r.0.regions ≡ (in_range r.1 size a || occupied a p.regions))
unfolding fresh
Got-claims base top p size _ inv pos refused ne a = absurd (ne refl)
Got-claims base top p size _ inv pos (reused iova regions le g) ne a = (
  ground (arith, Grant-unoccupied base p.curr_iova inv.tiled g a pos),
  Grant-occupied base p.curr_iova inv.tiled g a pos,
)
Got-claims base top p size _ inv pos (extended le none_fits) ne a = (
  ground (arith, occupied-above a base p.curr_iova p.regions inv.tiled),
  added-occupied base p.curr_iova size p.regions inv.tiled a,
)

-- On a pool in order, a call for at least one byte that returns an address claims exactly the
-- requested range: no address of the range was in use before, and afterwards the addresses in use
-- are those of the range and those from before.
pub get_iova-claims :
    (base top : ℕ) (p : IovaPool) (size : ℕ) (allocated : Bool)
    → IsPool base top p
    → 0 < size
    → (get_iova p size allocated).1 ≢ 0
    → (a : ℕ)
    → ((in_range (get_iova p size allocated).1 size a && occupied a p.regions) ≡ false)
      × (occupied a (get_iova p size allocated).0.regions
          ≡ (in_range (get_iova p size allocated).1 size a || occupied a p.regions))
get_iova-claims base top p size allocated inv pos ne a =
    Got-claims base top p size _ inv pos (get_iova-Got p size allocated) ne a
