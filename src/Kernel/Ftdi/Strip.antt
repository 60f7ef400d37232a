-- ===== src/Kernel/Ftdi/Strip.antt =====
-- `infnoise_strip_ftdi_status`: which byte of the transfer each data byte is, and that every copy
-- stays inside its buffers.
use infnoise.Base.{
  ℕ, zero, suc, ◌+◌, ◌-◌, ◌*◌, ◌/◌, ◌%◌, ◌≤◌, ◌<◌, ◌≡◌, refl, ap, subst, ◌∙◌, List, ◌++◌, take,
  drop, length, min, get_or, arith, length-append, length-take, length-drop, get_or-drop,
  get_or-take, get_or-append_left, get_or-append_right, ltb, if◌then◌else◌, true, false,
}
use native.Mathlib.Decide.{dec_lt}
use infnoise.Kernel.Const.{buflen, packet_size, status_size, data_per_packet}
use infnoise.Kernel.Ftdi.{copy_at, strip_packets, strip_leftover, strip_status}

module _ (dst : List ℕ) (off : ℕ) (src : List ℕ) (n : ℕ) (fits : off + n ≤ length dst)
    (has : n ≤ length src) where
  pub length-copy_at : length (copy_at dst off src n) ≡ length dst
  unfolding copy_at
  length-copy_at = omega (
    arith,
    length-append (take off dst) (take n src ++ drop (off + n) dst),
    length-append (take n src) (drop (off + n) dst),
    length-take off dst,
    length-take n src,
    length-drop (off + n) dst,
  )

  -- A copy changes the bytes of its range, and no others.
  pub get_or-copy_at_below : (k : ℕ) → k < off → get_or (copy_at dst off src n) k 0 ≡ get_or dst k 0
  unfolding copy_at
  get_or-copy_at_below k lt =
      get_or-append_left (take off dst) (take n src ++ drop (off + n) dst) k 0
        (omega (arith, length-take off dst))
      ∙ get_or-take off dst k 0 lt

  past :
      (k : ℕ)
      → off ≤ k
      → get_or (copy_at dst off src n) k 0 ≡ get_or (take n src ++ drop (off + n) dst) (k - off) 0
  unfolding copy_at
  past k ge =
      get_or-append_right (take off dst) (take n src ++ drop (off + n) dst) k 0
        (omega (arith, length-take off dst))
      ∙ ap (λ (t : ℕ). get_or (take n src ++ drop (off + n) dst) t 0)
          (omega (arith, length-take off dst))

  pub get_or-copy_at_inside :
      (k : ℕ) → off ≤ k → k < off + n → get_or (copy_at dst off src n) k 0 ≡ get_or src (k - off) 0
  get_or-copy_at_inside k ge lt =
      past k ge
      ∙ get_or-append_left (take n src) (drop (off + n) dst) (k - off) 0
          (omega (arith, length-take n src))
      ∙ get_or-take n src (k - off) 0 (omega arith)

  pub get_or-copy_at_above :
      (k : ℕ) → off + n ≤ k → get_or (copy_at dst off src n) k 0 ≡ get_or dst k 0
  get_or-copy_at_above k ge =
      past k (omega arith)
      ∙ get_or-append_right (take n src) (drop (off + n) dst) (k - off) 0
          (omega (arith, length-take n src))
      ∙ get_or-drop (off + n) dst (k - off - length (take n src)) 0
      ∙ ap (λ (t : ℕ). get_or dst t 0) (omega (arith, length-take n src))

-- The place of data byte `k` in the transfer: behind two status bytes in each packet of 64.
abbrev pub source : ℕ → ℕ
source k = k / 62 * 64 + 2 + k % 62

-- The first `n` bytes of the buffer are the data of the transfer, and the others are as before.
pub record IsStripped (n : ℕ) (usb_buf before out : List ℕ) : Type 0 where
  pub size : length out ≡ length before
  pub stripped : (k : ℕ) → k < n → get_or out k 0 ≡ get_or usb_buf (source k) 0
  pub kept : (k : ℕ) → n ≤ k → get_or out k 0 ≡ get_or before k 0

copied-IsStripped :
    (i len : ℕ) (usb_buf before out : List ℕ)
    → length before ≡ buflen
    → 62 * i + len ≤ buflen
    → len ≤ 62
    → i * 64 + 2 + len ≤ length usb_buf
    → IsStripped (62 * i) usb_buf before out
    → IsStripped
        (62 * i + len)
        usb_buf
        before
        (copy_at out (62 * i) (drop (i * 64 + 2) usb_buf) len)
copied-IsStripped i len usb_buf before out e fits short has s = record {
  size = length-copy_at out (62 * i) src len room enough ∙ s.size;
  stripped = λ k lt. elim (dec_lt k (62 * i)) [
    | yes old ↦ get_or-copy_at_below out (62 * i) src len room enough k old ∙ s.stripped k old
    | no new ↦
        get_or-copy_at_inside out (62 * i) src len room enough k (omega arith) lt
        ∙ get_or-drop (i * 64 + 2) usb_buf (k - 62 * i) 0
        ∙ ap (λ (t : ℕ). get_or usb_buf t 0) (place k (omega arith) (omega arith))
  ];
  kept =
      λ k ge. get_or-copy_at_above out (62 * i) src len room enough k ge ∙ s.kept k (omega arith);
}
  where
    src : List ℕ
    src = drop (i * 64 + 2) usb_buf

    room : 62 * i + len ≤ length out
    room = omega (arith, s.size)

    enough : len ≤ length src
    enough = omega (arith, length-drop (i * 64 + 2) usb_buf)

    place : (k : ℕ) → 62 * i ≤ k → k < 62 * i + 62 → i * 64 + 2 + (k - 62 * i) ≡ source k
    place k ge lt = omega arith

-- What one packet of the loop does.
next_buf : ℕ → List ℕ → List ℕ → ℕ → List ℕ
next_buf i usb_buf out n =
    let len = min data_per_packet (buflen - n) in
    if ltb 0 len then copy_at out n (drop (i * packet_size + status_size) usb_buf) len else out

strip_packets-suc :
    (left i : ℕ) (usb_buf out : List ℕ)
    → strip_packets (suc left) i usb_buf out (min buflen (62 * i))
      ≡ strip_packets left
          (i + 1)
          usb_buf
          (next_buf i usb_buf out (min buflen (62 * i)))
          (min buflen (62 * (i + 1)))
unfolding strip_packets next_buf
strip_packets-suc left i usb_buf out = ap (strip_packets left (i + 1) usb_buf _) (ground arith)

next_buf-IsStripped :
    (i : ℕ) (usb_buf before out : List ℕ)
    → length before ≡ buflen
    → (i + 1) * 64 ≤ length usb_buf
    → IsStripped (min buflen (62 * i)) usb_buf before out
    → IsStripped
        (min buflen (62 * (i + 1)))
        usb_buf
        before
        (next_buf i usb_buf out (min buflen (62 * i)))
unfolding next_buf
next_buf-IsStripped i usb_buf before out e has s = elim (dec_lt (62 * i) buflen) [
  | yes more ↦
      let len = min data_per_packet (buflen - 62 * i) in
      let whole : min buflen (62 * i) ≡ 62 * i = omega arith in
      let next : min buflen (62 * (i + 1)) ≡ 62 * i + len = omega arith in
      let pos : ltb 0 len ≡ true = ground arith in
      rw (next, whole, pos)
        (copied-IsStripped i len usb_buf before out e (omega arith) (omega arith) (omega arith)
          (subst (λ n. IsStripped n usb_buf before out) whole s))
  | no full ↦
      let same : min buflen (62 * (i + 1)) ≡ min buflen (62 * i) = omega arith in
      let done : ltb 0 (min data_per_packet (buflen - min buflen (62 * i))) ≡ false =
        ground arith in
      rw (same, done) s
]

packets-IsStripped :
    (left i : ℕ) (usb_buf before out : List ℕ)
    → length before ≡ buflen
    → (i + left) * 64 ≤ length usb_buf
    → IsStripped (min buflen (62 * i)) usb_buf before out
    → let (out', n) = strip_packets left i usb_buf out (min buflen (62 * i)) in
      (n ≡ min buflen (62 * (i + left)))
      × IsStripped (min buflen (62 * (i + left))) usb_buf before out'
packets-IsStripped zero i usb_buf before out e has s =
    let same : i + 0 ≡ i = omega arith in rw same (unfold strip_packets in (refl, s))
packets-IsStripped (suc left) i usb_buf before out e has s =
    let regroup : i + suc left ≡ i + 1 + left = omega arith in
    rw (regroup, strip_packets-suc left i usb_buf out)
      (packets-IsStripped left (i + 1) usb_buf before (next_buf i usb_buf out (min buflen (62 * i)))
        e (omega arith) (next_buf-IsStripped i usb_buf before out e (omega arith) s))

leftover-IsStripped :
    (packets leftover : ℕ) (usb_buf before out : List ℕ)
    → length before ≡ buflen
    → packets * 64 + leftover ≤ length usb_buf
    → leftover < 64
    → IsStripped (min buflen (62 * packets)) usb_buf before out
    → let (out', n) = strip_leftover packets leftover usb_buf (out, min buflen (62 * packets)) in
      (n ≡ min buflen (62 * packets + (leftover - 2)))
      × IsStripped (min buflen (62 * packets + (leftover - 2))) usb_buf before out'
unfolding strip_leftover
leftover-IsStripped packets leftover usb_buf before out e has short s = elim (dec_lt 2 leftover) [
  | no none_left ↦
      let skip : ltb 2 leftover ≡ false = ground arith in
      let same : min buflen (62 * packets + (leftover - 2)) ≡ min buflen (62 * packets) =
        omega arith in
      rw (skip, same) (refl, s)
  | yes some_left ↦ elim (dec_lt (62 * packets) buflen) [
    | no full ↦
        let skip : ltb (min buflen (62 * packets)) buflen ≡ false = ground arith in
        let open_end : ltb 2 leftover ≡ true = ground arith in
        let same : min buflen (62 * packets + (leftover - 2)) ≡ min buflen (62 * packets) =
          omega arith in
        rw (open_end, skip, same) (refl, s)
    | yes room ↦
        let len = min (leftover - 2) (buflen - 62 * packets) in
        let open_end : ltb 2 leftover ≡ true = ground arith in
        let whole : min buflen (62 * packets) ≡ 62 * packets = omega arith in
        let fits : ltb (62 * packets) buflen ≡ true = ground arith in
        let next : min buflen (62 * packets + (leftover - 2)) ≡ 62 * packets + len = omega arith in
        rw (open_end, whole, fits, next)
          (
            refl,
            copied-IsStripped packets len usb_buf before out e (omega arith) (omega arith)
                (omega arith) (subst (λ n. IsStripped n usb_buf before out) whole s),
          )
  ]
]

-- For a transfer of `usb_bytes` bytes, all of them in the buffer, and a buffer of 512 bytes for
-- the data, the function returns the number of data bytes, at most 512. Data byte `k` is the byte
-- `k % 62` behind the status bytes of packet `k / 62`, and the rest of the buffer is not changed.
pub strip_status-IsStripped :
    (usb_bytes : ℕ) (usb_buf read_buf : List ℕ)
    → length read_buf ≡ buflen
    → usb_bytes ≤ length usb_buf
    → let (out, n) = strip_status usb_bytes usb_buf read_buf in
      (n ≡ min buflen (62 * (usb_bytes / 64) + (usb_bytes % 64 - 2)))
      × IsStripped n usb_buf read_buf out
unfolding strip_status
strip_status-IsStripped usb_bytes usb_buf read_buf e has =
    let packets = usb_bytes / 64 in
    let start : IsStripped 0 usb_buf read_buf read_buf = record {
      size = refl;
      stripped = λ k lt. absurd (omega arith);
      kept = λ k ge. refl;
    } in
    let sum : 0 + packets ≡ packets = omega arith in
    let whole =
      subst
        (λ p.
          let (out, n) = strip_packets packets 0 usb_buf read_buf 0 in
          (n ≡ min buflen (62 * p)) × IsStripped (min buflen (62 * p)) usb_buf read_buf out)
        sum (packets-IsStripped packets 0 usb_buf read_buf read_buf e (omega arith) start) in
    let all =
      leftover-IsStripped packets (usb_bytes % 64) usb_buf read_buf
        (strip_packets packets 0 usb_buf read_buf 0).0 e (omega arith) (omega arith) whole.1 in
    let pair : strip_packets packets 0 usb_buf read_buf 0
        ≡ ((strip_packets packets 0 usb_buf read_buf 0).0, min buflen (62 * packets)) =
      ap (λ n. ((strip_packets packets 0 usb_buf read_buf 0).0, n)) whole.0 in
    rw pair (all.0, rw all.0 all.1)
