-- ===== src/Iova/Tiling.antt =====
-- The measures of the list of regions of upstream-src/sound/usb/qcom/qc_audio_offload.c: where it
-- lies, how much of it is in use, and which addresses that covers.
use audioreach_usb_offload_r.Prelude.{
  ℕ, ◌+◌, ◌≤◌, ◌<◌, ◌≡◌, refl, ap, Bool, true, false, ◌&&◌, ◌||◌, List, [], ◌∷◌, ◌++◌, map, All,
  leb, ltb, arith, if◌then◌else◌,
}
use audioreach_usb_offload_r.Iova.{IovaInfo, mark, clear}
use audioreach_usb_offload_r.Iova.Grant.{IsFree, total}

-- The regions lie end to end from `b` to `e`, and none is empty.
abbrev pub Tiled : ℕ → List IovaInfo → ℕ → Type 0
Tiled b [] e = b ≡ e
Tiled b (r ∷ rs) e = (r.start_iova ≡ b) × (0 < r.size) × Tiled (b + r.size) rs e

abbrev pub IsTaken : IovaInfo → Type 0
IsTaken r = r.in_use ≡ true

-- The bytes of the regions that are in use.
unfoldable pub used : List IovaInfo → ℕ
used [] = 0
used (r ∷ rs) = (if r.in_use then r.size else 0) + used rs

-- Does the address lie in the `size` bytes from `iova` on?
abbrev pub in_range : ℕ → ℕ → ℕ → Bool
in_range iova size a = leb iova a && ltb a (iova + size)

-- Does the address lie in a region that is in use?
unfoldable pub occupied : ℕ → List IovaInfo → Bool
occupied a [] = false
occupied a (r ∷ rs) = (r.in_use && in_range r.start_iova r.size a) || occupied a rs

pub used-append : (xs ys : List IovaInfo) → used (xs ++ ys) ≡ used xs + used ys
unfolding used
used-append [] ys = omega arith
used-append (x ∷ xs) ys = ground (arith, used-append xs ys)

pub occupied-append :
    (a : ℕ) (xs ys : List IovaInfo) → occupied a (xs ++ ys) ≡ (occupied a xs || occupied a ys)
unfolding occupied
occupied-append a [] ys = refl
occupied-append a (x ∷ xs) ys = rw (occupied-append a xs ys) (ground arith)

pub Tiled-append :
    (b e : ℕ) (xs ys : List IovaInfo)
    → Tiled b (xs ++ ys) e
    → Tiled b xs (b + total xs) × Tiled (b + total xs) ys e
Tiled-append b e [] ys h = let p : b ≡ b + 0 = omega arith in (p, rw (← p) h)
Tiled-append b e (x ∷ xs) ys h =
    let (l, r) = Tiled-append (b + x.size) e xs ys h.2 in
    let p : b + x.size + total xs ≡ b + (x.size + total xs) = omega arith in
    ((h.0, h.1, rw (← p) l), rw (← p) r)

pub append-Tiled :
    (b m e : ℕ) (xs ys : List IovaInfo) → Tiled b xs m → Tiled m ys e → Tiled b (xs ++ ys) e
append-Tiled b m e [] ys hx hy = rw hx hy
append-Tiled b m e (x ∷ xs) ys hx hy = (hx.0, hx.1, append-Tiled (b + x.size) m e xs ys hx.2 hy)

-- Marking and clearing change neither where the regions lie nor how large they are.
pub map-mark-Tiled : (b e : ℕ) (rs : List IovaInfo) → Tiled b rs e → Tiled b (map mark rs) e
map-mark-Tiled b e [] h = h
map-mark-Tiled b e (r ∷ rs) h = (h.0, h.1, map-mark-Tiled (b + r.size) e rs h.2)

pub map-clear-Tiled : (b e : ℕ) (rs : List IovaInfo) → Tiled b rs e → Tiled b (map clear rs) e
map-clear-Tiled b e [] h = h
map-clear-Tiled b e (r ∷ rs) h = (h.0, h.1, map-clear-Tiled (b + r.size) e rs h.2)

pub total-map-mark : (rs : List IovaInfo) → total (map mark rs) ≡ total rs
total-map-mark [] = refl
total-map-mark (r ∷ rs) = omega (arith, total-map-mark rs)

pub map-mark-IsTaken : (rs : List IovaInfo) → All IsTaken (map mark rs)
map-mark-IsTaken [] = tt
map-mark-IsTaken (r ∷ rs) = (refl, map-mark-IsTaken rs)

-- To clear what was marked gives a free region back.
pub map-clear-mark : (rs : List IovaInfo) → All IsFree rs → map clear (map mark rs) ≡ rs
map-clear-mark [] h = refl
map-clear-mark (r ∷ rs) h = rw (map-clear-mark rs h.1) (ap (λ q. q ∷ rs) (ground arith))

pub used-IsFree : (rs : List IovaInfo) → All IsFree rs → used rs ≡ 0
unfolding used
used-IsFree [] h = refl
used-IsFree (r ∷ rs) h = ground (arith, used-IsFree rs h.1)

pub used-IsTaken : (rs : List IovaInfo) → All IsTaken rs → used rs ≡ total rs
unfolding used
used-IsTaken [] h = refl
used-IsTaken (r ∷ rs) h = ground (arith, used-IsTaken rs h.1)

pub used-map-clear : (rs : List IovaInfo) → used (map clear rs) ≡ 0
unfolding used
used-map-clear [] = refl
used-map-clear (r ∷ rs) = omega (arith, used-map-clear rs)

pub used-le-total : (rs : List IovaInfo) → used rs ≤ total rs
unfolding used
used-le-total [] = omega arith
used-le-total (r ∷ rs) = ground (arith, used-le-total rs)

pub Tiled-le : (b e : ℕ) (rs : List IovaInfo) → Tiled b rs e → b + total rs ≡ e
Tiled-le b e [] h = omega arith
Tiled-le b e (r ∷ rs) h = omega (arith, Tiled-le (b + r.size) e rs h.2)

pub occupied-IsFree : (a : ℕ) (rs : List IovaInfo) → All IsFree rs → occupied a rs ≡ false
unfolding occupied
occupied-IsFree a [] h = refl
occupied-IsFree a (r ∷ rs) h = rw (occupied-IsFree a rs h.1) (ground arith)

pub occupied-map-clear : (a : ℕ) (rs : List IovaInfo) → occupied a (map clear rs) ≡ false
unfolding occupied
occupied-map-clear a [] = refl
occupied-map-clear a (r ∷ rs) = occupied-map-clear a rs

pub occupied-below : (a b e : ℕ) (rs : List IovaInfo) → Tiled b rs e → a < b → occupied a rs ≡ false
unfolding occupied
occupied-below a b e [] h lt = refl
occupied-below a b e (r ∷ rs) h lt =
    rw (occupied-below a (b + r.size) e rs h.2 (omega arith)) (ground arith)

pub occupied-above : (a b e : ℕ) (rs : List IovaInfo) → Tiled b rs e → e ≤ a → occupied a rs ≡ false
unfolding occupied
occupied-above a b e [] h le = refl
occupied-above a b e (r ∷ rs) h le =
    rw (occupied-above a (b + r.size) e rs h.2 le) (ground (arith, Tiled-le (b + r.size) e rs h.2))

-- A run that is in use covers its range.
pub occupied-IsTaken :
    (a b e : ℕ) (rs : List IovaInfo)
    → Tiled b rs e
    → All IsTaken rs
    → occupied a rs ≡ in_range b (total rs) a
unfolding occupied
occupied-IsTaken a b e [] h t = ground arith
occupied-IsTaken a b e (r ∷ rs) h t =
    rw (occupied-IsTaken a (b + r.size) e rs h.2 t.1) (ground arith)
