-- ===== src/Tools/FindLongest/Repeats.antt =====
-- `hasSubstringOfLength` finds a repeated string exactly when there is one, and the loop of main ends
-- with the longest.
use native.Mathlib.Nat.{pow-suc}
use infnoise.Base.{
  ℕ, zero, suc, ◌+◌, ◌-◌, ◌*◌, ◌^◌, ◌<◌, ◌≤◌, ◌≡◌, ◌≢◌, inl, inr, refl, sym, subst, ◌∙◌, Bool, true,
  false, ◌==◌, List, length, replicate, length-replicate, get_or, Bool-cases, arith, u32,
}
use infnoise.Tools.FindLongest.{is_seen, mark, search, has_substring_of_length, Found}
use infnoise.Tools.FindLongest.Seen.{length-mark, is_seen-empty, is_seen-mark}
use infnoise.Tools.FindLongest.Window.{
  window, window-lt, first_value_lem, next_value-window, window-same, same-window,
}

-- The strings of `len` bits at two places of the first `n` bits are the same; neither is the last one.
pub record Repeat (bits : List Bool) (len n : ℕ) : Type 0 where
  pub first : ℕ
  pub second : ℕ
  pub apart : first < second
  pub inside : second + len < n
  pub same : (k : ℕ) → k < len → get_or bits (first + k) false ≡ get_or bits (second + k) false

module _ (bits : List Bool) (len : ℕ) (short : len ≤ 62) where
  search-suc :
      (seen : List ℕ) (m left : ℕ)
      → is_seen seen (window bits m len) ≡ false
      → search bits len seen (window bits m len) (m + len) (suc left)
        ≡ search bits len
            (mark seen (window bits m len))
            (window bits (suc m) len)
            (suc m + len)
            left
  unfolding search
  search-suc seen m left new =
      let next : m + len + 1 ≡ suc m + len = omega arith in
      rw (new, next_value-window bits len m short, next) refl

  fits : (seen : List ℕ) (m : ℕ) → 2 ^ len ≤ 8 * length seen → window bits m len < 8 * length seen
  fits seen m room = omega (arith, room, window-lt bits m len)

  -- The marks are of the windows before `m`.
  search-finds :
      (seen : List ℕ) (m left : ℕ)
      → 2 ^ len ≤ 8 * length seen
      → ((v : ℕ) → is_seen seen v ≡ true → (i : ℕ) × (i < m) × (window bits i len ≡ v))
      → search bits len seen (window bits m len) (m + len) left ≡ true
      → (i : ℕ) × (j : ℕ) × (i < j) × (j < m + left) × (window bits i len ≡ window bits j len)
  unfolding search
  search-finds seen m zero room marked e = absurd (ground (arith, e))
  search-finds seen m (suc left) room marked e =
      elim (Bool-cases (is_seen seen (window bits m len))) [
        | inl found ↦
            let at = marked (window bits m len) found in (at.0, m, at.1, omega arith, at.2)
        | inr new ↦
            let rest : (i : ℕ) × (j : ℕ) × (i < j)
                × (j < suc m + left)
                × (window bits i len ≡ window bits j len) =
              search-finds (mark seen (window bits m len)) (suc m) left
                (omega (arith, room, length-mark seen (window bits m len)))
                (λ v h. elim (Bool-cases (is_seen seen v)) [
                  | inl before ↦ let at = marked v before in (at.0, omega (arith, at.1), at.2)
                  | inr now ↦ (
                    m,
                    omega arith,
                    ground
                        (arith, is_seen-mark seen (window bits m len) v (fits seen m room), h, now),
                  )
                ])
                (sym (search-suc seen m left new) ∙ e) in
            (rest.0, rest.1, rest.2, omega (arith, rest.3), rest.4)
      ]

  search-misses :
      (seen : List ℕ) (m left : ℕ)
      → 2 ^ len ≤ 8 * length seen
      → ((i : ℕ) → i < m → is_seen seen (window bits i len) ≡ true)
      → search bits len seen (window bits m len) (m + len) left ≡ false
      → (i j : ℕ) → i < j
      → m ≤ j
      → j < m + left
      → window bits i len ≢ window bits j len
  unfolding search
  search-misses seen m zero room marked e i j lt low high same = absurd (omega (arith, low, high))
  search-misses seen m (suc left) room marked e i j lt low high same =
      elim (Bool-cases (is_seen seen (window bits m len))) [
        | inl found ↦ ground (arith, e, found)
        | inr new ↦ elim (Bool-cases (j == m)) [
          | inl here ↦
              let j_m : j ≡ m = ground (arith, here) in
              true_ne_false (sym (marked i (omega (arith, lt, j_m))) ∙ rw (same, j_m) new)
          | inr later ↦
              search-misses (mark seen (window bits m len)) (suc m) left
                (omega (arith, room, length-mark seen (window bits m len)))
                (λ k below. elim (Bool-cases (k == m)) [
                  | inl this ↦
                      let k_m : k ≡ m = ground (arith, this) in
                      rw k_m (
                        ground (
                          arith,
                          is_seen-mark seen (window bits m len) (window bits m len)
                              (fits seen m room),
                        ))
                  | inr past ↦ ground (
                    arith,
                    is_seen-mark seen (window bits m len) (window bits k len) (fits seen m room),
                    marked k (ground (arith, below, past)),
                  )
                ])
                (sym (search-suc seen m left new) ∙ e) i j lt (ground (arith, low, later))
                (omega (arith, high)) same
        ]
      ]
    where
      true_ne_false : true ≢ false
      true_ne_false e = ground (arith, e)

array_room : (len : ℕ) → 3 ≤ len → 2 ^ len ≤ 8 * 2 ^ (len - 3)
array_room len le =
    let parts : suc (suc (suc (len - 3))) ≡ len = omega (arith, le) in
    subst (λ k. 2 ^ k ≤ 8 * 2 ^ (len - 3)) parts
      (omega
        (arith, pow-suc 2 (len - 3), pow-suc 2 (suc (len - 3)), pow-suc 2 (suc (suc (len - 3)))))

-- The function returns whether a string is repeated, for the lengths that its array is made for.
module _ (len : ℕ) (bits : List Bool) (n : ℕ) (long : 3 ≤ len) (short : len ≤ 62) where
  zero_plus : 0 + len ≡ len
  zero_plus = omega arith

  room : 2 ^ len ≤ 8 * length (replicate {A = ℕ} (2 ^ (len - 3)) 0)
  room = rw (length-replicate {A = ℕ} (2 ^ (len - 3)) 0) (array_room len long)

  pub has_substring_of_length-Repeat : has_substring_of_length len bits n ≡ true → Repeat bits len n
  unfolding has_substring_of_length
  has_substring_of_length-Repeat e =
      let at =
        search-finds bits len short (replicate (2 ^ (len - 3)) 0) 0 (n - len) room
          (λ v h. ground (arith, is_seen-empty (2 ^ (len - 3)) v, h))
          (rw (sym (first_value_lem bits len short), zero_plus) e) in
      record {
        first = at.0;
        second = at.1;
        apart = at.2;
        inside = omega (arith, at.3);
        same = window-same bits at.0 at.1 len at.4;
      }

  pub has_substring_of_length-none :
      has_substring_of_length len bits n ≡ false → Repeat bits len n → ⊥
  unfolding has_substring_of_length
  has_substring_of_length-none e r =
      search-misses bits len short (replicate (2 ^ (len - 3)) 0) 0 (n - len) room
        (λ i below. absurd (omega (arith, below)))
        (rw (sym (first_value_lem bits len short), zero_plus) e) r.first r.second r.apart
        (omega arith) (omega (arith, r.inside)) (same-window bits r.first r.second len r.same)

-- What the answer of `main` says of the file: the length is that of the longest repeated string. It
-- never is `at_least`: the memory is overrun first.
abbrev pub IsLongest : List Bool → Found → Type 0
IsLongest bits (Found.longest m) =
    ((l : ℕ) → 4 ≤ l → l ≤ m → Repeat bits l (u32 (length bits)))
    × (Repeat bits (m + 1) (u32 (length bits)) → ⊥)
IsLongest bits (Found.at_least m) = ⊥
IsLongest bits Found.overrun = (l : ℕ) → 4 ≤ l → l ≤ 33 → Repeat bits l (u32 (length bits))
