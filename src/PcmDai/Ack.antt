-- ===== src/PcmDai/Ack.antt =====
-- The periods that an application writes are queued in order and once
-- (source-reference/kernel/qdsp6/q6apm-dai.c).
use audioreach_usb_offload_r.Prelude.{
  true, and_then, ℕ, zero, suc, ◌+◌, ◌-◌, ◌*◌, ◌/◌, ◌%◌, ◌<◌, ◌≡◌, refl, ap, ◌∙◌, Option, some,
  List, [], ◌∷◌, ◌++◌, replicate, arith,
}
use native.Mathlib.Nat.{mul-add-div_right, div-eq_of_lt}
use audioreach_usb_offload_r.Iova.{u64}
use audioreach_usb_offload_r.Stream.{ok}
use audioreach_usb_offload_r.Apm.{Graph, playback, DataPacket, Sending, write_async, write_token}
use audioreach_usb_offload_r.Apm.Buffers.{IsMapped, round_robin, write_packet-IsMapped}
use audioreach_usb_offload_r.PcmDai.{DaiRtd, no_timestamp, avail_periods, queued, ack_loop, dai_ack}

-- n periods after period k have been written, and some frames of the next one.
avail_periods_lem :
    (k n r p : ℕ)
    → r < p
    → (k + n) * p + r < 18446744073709551616
    → n < 2147483648
    → avail_periods ((k + n) * p + r) (k * p) p ≡ n
avail_periods_lem k n r p lt small few =
    let split : (k + n) * p ≡ k * p + n * p = grind arith in
    let d : u64 ((k + n) * p + r + 18446744073709551616 - k * p) ≡ n * p + r =
      omega (arith, split) in
    let q : (n * p + r) / p ≡ n =
      mul-add-div_right (omega arith) n r ∙ ap (λ t. n + t) (div-eq_of_lt lt) ∙ omega arith in
    let e : u64 ((k + n) * p + r + 18446744073709551616 - k * p) / p ≡ n = ap (λ t. t / p) d ∙ q in
    ground (arith, e)

-- The packets for n periods from period k on.
abbrev pub periods_from : Graph → ℕ → ℕ → ℕ → ℕ → ℕ → ℕ → List DataPacket
periods_from g pcm_count phys sz periods k n =
    round_robin g.rx_iid g.rx.mem_map_handle no_timestamp phys sz periods k (replicate n pcm_count)

-- The stream stands at period k: the next buffer is that of the period, which is where the queue ends.
pub record At (s : DaiRtd) (p phys sz periods k : ℕ) : Type 0 where
  pub mapped : IsMapped s.graph.rx phys sz periods
  pub buffer : s.graph.rx.dsp_buf ≡ k % periods
  pub queue : s.queue_ptr ≡ k * p

-- What stays of a stream while periods are queued.
abbrev pub Same : DaiRtd → DaiRtd → Type 0
Same s t =
    (t.graph.rx_iid ≡ s.graph.rx_iid)
    × (t.graph.rx.mem_map_handle ≡ s.graph.rx.mem_map_handle)
    × (t.pcm_count ≡ s.pcm_count)

all_sent : ℕ → Sending
all_sent i = record { allocated = true; sent = ok 0 }

ack_loop-round_robin :
    (s : DaiRtd) (p phys sz periods k i n : ℕ)
    → At s p phys sz periods k
    → (k + n) * p < 18446744073709551616
    → (t : DaiRtd) × (ack_loop s p all_sent i n
        ≡ some (t, periods_from s.graph s.pcm_count phys sz periods k n, ok 0))
      × At t p phys sz periods (k + n)
      × Same s t
unfolding ack_loop all_sent write_async
ack_loop-round_robin s p phys sz periods k i zero v small =
    let z : k + 0 ≡ k = omega arith in (s, refl, rw z v, (refl, refl, refl))
ack_loop-round_robin s p phys sz periods k i (suc n) v small =
    let (h, w, m, next, iid, handle) =
      write_packet-IsMapped s.graph no_timestamp phys sz periods k s.pcm_count v.mapped v.buffer in
    let c : k + suc n ≡ k + 1 + n = omega arith in
    let step : (k + 1) * p ≡ k * p + p = grind arith in
    let least : (k + 1 + n) * p ≡ (k + 1) * p + n * p = grind arith in
    let small' : (k + 1 + n) * p < 18446744073709551616 = rw (← c) small in
    let moved : At (queued s p h) p phys sz periods (k + 1) = record {
      mapped = m;
      buffer = next;
      queue = rw v.queue (omega (arith, step, least, small'));
    } in
    let (t, rest, at, (iid', handle', count)) =
      ack_loop-round_robin (queued s p h) p phys sz periods (k + 1) (i + 1) n moved small' in
    (t, ground (arith, w, rest, iid, handle), rw c at, (iid' ∙ iid, handle' ∙ handle, count))

-- The application moves on from period k: by n periods and to frame r of the next, again and again.
abbrev pub positions : ℕ → ℕ → List (ℕ × ℕ) → List ℕ
positions p k [] = []
positions p k ((n, r) ∷ xs) = ((k + n) * p + r) ∷ positions p (k + n) xs

abbrev pub total : List (ℕ × ℕ) → ℕ
total [] = 0
total ((n, r) ∷ xs) = n + total xs

-- The positions are frames of periods, do not wrap, and no step is of 2 ^ 31 periods.
abbrev pub Advances : ℕ → ℕ → List (ℕ × ℕ) → Type 0
Advances p k [] = Unit
Advances p k ((n, r) ∷ xs) =
    ((r < p) × ((k + n) * p + r < 18446744073709551616) × (n < 2147483648)) × Advances p (k + n) xs

-- `ack` at each position, where every packet can be sent.
unfoldable pub acks : DaiRtd → ℕ → List ℕ → Option (DaiRtd × List DataPacket)
unfolding dai_ack all_sent
acks s p [] = some (s, [])
acks s p (a ∷ later) =
    and_then (dai_ack s playback a p all_sent)
      (λ r. and_then (acks r.0 p later) (λ q. some (q.0, r.1 ++ q.1)))

periods_from-append :
    (dest : Option ℕ) (handle len phys sz periods k n m : ℕ)
    → round_robin dest handle no_timestamp phys sz periods k (replicate n len)
        ++ round_robin dest handle no_timestamp phys sz periods (k + n) (replicate m len)
      ≡ round_robin dest handle no_timestamp phys sz periods k (replicate (n + m) len)
periods_from-append dest handle len phys sz periods k zero m =
    let z : k + 0 ≡ k = omega arith in let y : 0 + m ≡ m = omega arith in rw (z, y) refl
periods_from-append dest handle len phys sz periods k (suc n) m =
    let c : k + suc n ≡ k + 1 + n = omega arith in
    let d : suc n + m ≡ suc (n + m) = omega arith in
    let first : DataPacket = record {
      token = write_token (k % periods) len;
      dest = dest;
      buf_addr = phys + k % periods * sz;
      buf_size = len;
      mem_map_handle = handle;
      flags = no_timestamp;
    } in
    let ih = periods_from-append dest handle len phys sz periods (k + 1) n m in
    rw (c, d) (ap (λ l. first ∷ l) ih)

acks-step :
    (s t u : DaiRtd) (p a : ℕ) (later : List ℕ) (ps qs : List DataPacket)
    → dai_ack s playback a p all_sent ≡ some (t, ps, ok 0)
    → acks t p later ≡ some (u, qs)
    → acks s p (a ∷ later) ≡ some (u, ps ++ qs)
unfolding acks
acks-step s t u p a later ps qs e f = rw (e, f) refl

-- From a playback stream that stands at period k of a mapped region, where every packet can be sent,
-- and for positions that do not wrap and move by less than 2 ^ 31 periods at a time: the periods
-- that the application has completed are queued once and in order, in the buffers one after another,
-- and nothing else. After positions that end in period k + N, exactly the packets of the periods
-- from k to k + N have been sent.
pub acks-round_robin :
    (s : DaiRtd) (p phys sz periods k : ℕ) (xs : List (ℕ × ℕ))
    → At s p phys sz periods k
    → Advances p k xs
    → (t : DaiRtd) × (acks s p (positions p k xs)
        ≡ some (t, periods_from s.graph s.pcm_count phys sz periods k (total xs)))
      × At t p phys sz periods (k + total xs)
unfolding acks dai_ack
acks-round_robin s p phys sz periods k [] v adv =
    let z : k + 0 ≡ k = omega arith in (s, refl, rw z v)
acks-round_robin s p phys sz periods k ((n, r) ∷ xs) v ((lt, small, few), adv) =
    let count : avail_periods ((k + n) * p + r) s.queue_ptr p ≡ n =
      ap (λ t. avail_periods ((k + n) * p + r) t p) v.queue
      ∙ avail_periods_lem k n r p lt small few in
    let (t, first, at, (iid, handle, len)) =
      ack_loop-round_robin s p phys sz periods k 0 n v (omega (arith, small)) in
    let (u, rest, last) = acks-round_robin t p phys sz periods (k + n) xs at adv in
    let c : k + (n + total xs) ≡ k + n + total xs = omega arith in
    let same : periods_from t.graph t.pcm_count phys sz periods (k + n) (total xs)
        ≡ round_robin s.graph.rx_iid s.graph.rx.mem_map_handle no_timestamp phys sz periods (k + n)
            (replicate (total xs) s.pcm_count) =
      rw (iid, handle, len) refl in
    let whole =
      periods_from-append s.graph.rx_iid s.graph.rx.mem_map_handle s.pcm_count phys sz periods k n
        (total xs) in
    let one : dai_ack s playback ((k + n) * p + r) p all_sent
        ≡ some (t, periods_from s.graph s.pcm_count phys sz periods k n, ok 0) =
      ap (λ m. ack_loop s p all_sent 0 m) count ∙ first in
    (
      u,
      acks-step s t u p ((k + n) * p + r) (positions p (k + n) xs) _ _ one rest
          ∙ ap (λ l. some (u, l))
              (ap (λ l. periods_from s.graph s.pcm_count phys sz periods k n ++ l) same ∙ whole),
      rw c last,
    )
