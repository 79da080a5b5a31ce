-- ===== src/Py/Json/Total.antt =====
-- The fuel of `loads` is enough for every text.
use aicl.Common.{[], arith, length, length-drop, suc, zero, ℕ, ◌*◌, ◌+◌, ◌<◌, ◌==◌, ◌∷◌}
use aicl.Py.Any.{dict_update, item, key, no_keys, of_dict, of_list, of_str}
use aicl.Py.Json.Consumed.{
  Less, Scans, Scans-bind, Scans-if, at_end_total, expect_total, length-skip_space, map_ok-Scans,
  refused, scan_string_total, scanned, separator_total, words_total,
}
use aicl.Py.Json.Load.{
  is_empty_dict, is_empty_list, loads, scan_items, scan_keys, scan_value, starts_with_mark,
}
use aicl.Py.Json.Scan.{skip_space}
use aicl.Py.Utf8.{Str}

module _ (float_of : Str → ℕ) where
  mutual
    unfolding scan_value scan_items scan_keys

    scan_value_total :
        (fuel : ℕ) (s : Str)
        → 2 * length s < fuel
        → Scans (Less (length s)) (scan_value float_of fuel s)
    scan_value_total zero s h = absurd (omega arith)
    scan_value_total (suc fuel) [] h = refused
    scan_value_total (suc fuel) (c ∷ s) h =
        let shorter = length-skip_space s in
        Scans-if (c == 0x22)
          (map_ok-Scans (λ p. (of_str p.0, p.1))
            (scan_string_total (suc (length s)) s (omega arith)) (λ p k. omega (arith, k)))
          (Scans-if (c == 0x7B)
            (Scans-if (is_empty_dict float_of (skip_space s))
              (scanned (omega (arith, shorter, length-drop 1 (skip_space s))))
              (map_ok-Scans (λ p. (of_dict (dict_update no_keys p.0), p.1))
                (scan_keys_total fuel (skip_space s) (omega (arith, h, shorter)))
                (λ p k. omega (arith, k, shorter))))
            (Scans-if (c == 0x5B)
              (Scans-if (is_empty_list float_of (skip_space s))
                (scanned (omega (arith, shorter, length-drop 1 (skip_space s))))
                (map_ok-Scans (λ p. (of_list p.0, p.1))
                  (scan_items_total fuel (skip_space s) (omega (arith, h, shorter)))
                  (λ p k. omega (arith, k, shorter))))
              (words_total float_of c s)))

    scan_items_total :
        (fuel : ℕ) (s : Str)
        → 2 * length s + 1 < fuel
        → Scans (Less (length s)) (scan_items float_of fuel s)
    scan_items_total zero s h = absurd (omega arith)
    scan_items_total (suc fuel) s h =
        Scans-bind (scan_value_total fuel s (omega (arith, h))) (λ p k.
          Scans-bind (separator_total float_of 0x5D (skip_space p.1)) (λ q l.
            Scans-if q.0
              (map_ok-Scans (λ r. (item p.0 r.0, r.1))
                (scan_items_total fuel q.1 (omega (arith, h, k, l, length-skip_space p.1)))
                (λ r m. omega (arith, k, l, m, length-skip_space p.1)))
              (scanned (omega (arith, k, l, length-skip_space p.1)))))

    scan_keys_total :
        (fuel : ℕ) (s : Str)
        → 2 * length s + 1 < fuel
        → Scans (Less (length s)) (scan_keys float_of fuel s)
    scan_keys_total zero s h = absurd (omega arith)
    scan_keys_total (suc fuel) s h = Scans-bind (expect_total float_of 0x22 s) (λ s1 h1.
        Scans-bind (scan_string_total (suc (length s1)) s1 (omega arith)) (λ k h2.
          Scans-bind (expect_total float_of 0x3A (skip_space k.1)) (λ s2 h3.
            let left : length (skip_space s2) < length s =
              omega (arith, h1, h2, h3, length-skip_space k.1, length-skip_space s2) in
            Scans-bind (scan_value_total fuel (skip_space s2) (omega (arith, h, left))) (λ p h4.
              let after = length-skip_space p.1 in
              Scans-bind (separator_total float_of 0x7D (skip_space p.1)) (λ q h5.
                Scans-if q.0
                  (map_ok-Scans (λ r. (key k.0 p.0 r.0, r.1))
                    (scan_keys_total fuel q.1 (omega (arith, h, left, h4, h5, after)))
                    (λ r m. omega (arith, left, h4, h5, after, m)))
                  (scanned (omega (arith, left, h4, h5, after))))))))

  -- `loads` returns a value or raises ValueError, on every text.
  pub loads_total : (s : Str) → Scans (λ v. Unit {0}) (loads float_of s)
  unfolding loads
  loads_total s = Scans-if (starts_with_mark float_of s) refused (
      Scans-bind
        (scan_value_total (suc (2 * length s)) (skip_space s) (omega (arith, length-skip_space s)))
        (λ p k. at_end_total float_of p.0 (skip_space p.1)))
