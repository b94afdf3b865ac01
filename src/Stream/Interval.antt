-- ===== src/Stream/Interval.antt =====
-- `get_data_interval_from_si` of upstream-src/sound/usb/qcom/qc_audio_offload.c accepts exactly the
-- service intervals that are a power of two times the interval of the bus.
use native.Mathlib.Nat.{
  mul-mod_right, mul-div_cancel_left, div-div-eq-div-mul, pow-suc, div-add-mod,
}
use audioreach_usb_offload_r.Prelude.{
  ℕ, zero, suc, ◌*◌, ◌/◌, ◌%◌, ◌^◌, ◌<◌, ◌≡◌, ◌↔◌, refl, sym, ap, ◌∙◌, false, ◌==◌, arith,
}
use audioreach_usb_offload_r.Stream.{
  UsbSpeed, bus_interval, ok, ffs_bits, ffs, interval_of, get_data_interval_from_si,
}

twice_half : (x : ℕ) → (x % 2 == 1) ≡ false → x ≡ x / 2 * 2
twice_half x h = ground arith

ffs_bits-suc : (bits x j : ℕ) → ffs_bits bits x ≡ suc j → x / 2 ^ suc j ≡ 0 → x ≡ 2 ^ j
unfolding ffs_bits
ffs_bits-suc zero x j h z = absurd (omega arith)
ffs_bits-suc (suc bits) x zero h z = ground arith
ffs_bits-suc (suc bits) x (suc i) h z =
    let half : x / 2 ≡ 2 ^ i = ffs_bits-suc bits (x / 2) i (ground arith) (
      div-div-eq-div-mul x 2 (2 ^ suc i)
      ∙ ap (λ (d : ℕ). x / d) (omega (arith, pow-suc 2 (suc i)))
      ∙ z) in
    rw (pow-suc 2 i) (ground (arith, half))

pow-pos : (j : ℕ) → 0 < 2 ^ j
pow-pos zero = omega arith
pow-pos (suc j) = rw (pow-suc 2 j) (omega (arith, pow-pos j))

ffs_bits-pow : (bits j : ℕ) → j < bits → ffs_bits bits (2 ^ j) ≡ suc j
unfolding ffs_bits
ffs_bits-pow zero j h = absurd (omega arith)
ffs_bits-pow (suc bits) zero h = refl
ffs_bits-pow (suc bits) (suc i) h =
    let e : 2 ^ suc i / 2 ≡ 2 ^ i = rw (pow-suc 2 i) (omega arith) in
    let o : (2 ^ suc i % 2 == 1) ≡ false = rw (pow-suc 2 i) (ground arith) in
    let n : (2 ^ suc i == 0) ≡ false = rw (pow-suc 2 i) (ground (arith, pow-pos i)) in
    rw (n, o, e, ffs_bits-pow bits i (omega arith)) (omega arith)

shift-pow : (j : ℕ) → 2 ^ j / 2 ^ suc j ≡ 0
shift-pow zero = refl
shift-pow (suc i) =
    let e : 2 ^ suc (suc i) ≡ 2 * 2 ^ suc i = omega (arith, pow-suc 2 (suc i)) in
    let f : 2 ^ suc i / 2 ≡ 2 ^ i = omega (arith, pow-suc 2 i) in
    rw e (sym (div-div-eq-div-mul (2 ^ suc i) 2 (2 ^ suc i)) ∙ rw f (shift-pow i))

interval_of-eq-ok :
    (remainder binterval above k : ℕ)
    → (interval_of remainder binterval above ≡ ok k)
      ↔ ((remainder ≡ 0) × (k < 16) × (binterval ≡ suc k) × (above ≡ 0))
unfolding interval_of
interval_of-eq-ok remainder binterval above k = ground arith

bus_interval-pos : (speed : UsbSpeed) → 0 < bus_interval speed
bus_interval-pos speed = ground arith

multiple : (b m : ℕ) → 0 < b → (b * m % b ≡ 0) × (b * m / b ≡ m)
multiple b m pos = (mul-mod_right b m, mul-div_cancel_left m pos)

ffs-suc : (x j : ℕ) → ffs x ≡ suc j → x / 2 ^ suc j ≡ 0 → x ≡ 2 ^ j
unfolding ffs
ffs-suc x j = ffs_bits-suc 32 x j

ffs-pow : (j : ℕ) → j < 16 → ffs (2 ^ j) ≡ suc j
unfolding ffs
ffs-pow j h = ffs_bits-pow 32 j (omega arith)

tests_lem :
    (speed : UsbSpeed) (si : ℕ)
    → get_data_interval_from_si speed si
      ≡ interval_of
          (si % bus_interval speed)
          (ffs (si / bus_interval speed))
          (si / bus_interval speed / 2 ^ ffs (si / bus_interval speed))
unfolding get_data_interval_from_si
tests_lem speed si = refl

-- A service interval is accepted with data interval k exactly if it is 2 ^ k bus intervals, k < 16.
pub get_data_interval_from_si_iff :
    (speed : UsbSpeed) (si k : ℕ)
    → (get_data_interval_from_si speed si ≡ ok k) ↔ ((k < 16) × (si ≡ bus_interval speed * 2 ^ k))
get_data_interval_from_si_iff speed si k = (forward, backward)
  where
    forward :
        get_data_interval_from_si speed si ≡ ok k → (k < 16) × (si ≡ bus_interval speed * 2 ^ k)
    forward h =
        let (m, lt, f, a) = (interval_of-eq-ok _ _ _ k).0 (sym (tests_lem speed si) ∙ h) in
        let e = ffs-suc (si / bus_interval speed) k f (rw f at a) in
        (lt, sym (div-add-mod si (bus_interval speed)) ∙ rw (m, e) (omega arith))

    backward :
        (k < 16) × (si ≡ bus_interval speed * 2 ^ k) → get_data_interval_from_si speed si ≡ ok k
    backward (lt, e) =
        let (m, d) = multiple (bus_interval speed) (2 ^ k) (bus_interval-pos speed) in
        tests_lem speed si
        ∙ (interval_of-eq-ok _ _ _ k).1
            (rw e m, lt, rw (e, d) (ffs-pow k lt), rw (e, d, ffs-pow k lt) (shift-pow k))
