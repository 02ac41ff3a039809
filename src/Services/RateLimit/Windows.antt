-- ===== src/Services/RateLimit/Windows.antt =====
-- How many calls of one key pass in a window.
use secure_messenger.Prelude.{
  ◌==◌, if◌then◌else◌, Bool-cases, find, any, All, All-mono, update_where, ℕ, zero, suc, ◌+◌, ◌≤◌,
  ◌<◌, max, ◌≡◌, refl, ap, ◌∙◌, inl, inr, true, false, ◌&&◌, Option, none, some, List, [], ◌∷◌,
  ◌++◌, arith, Option-cases, sym,
}
use secure_messenger.Services.RateLimit.{
  Window, RateLimiter, is_window_of, current_window, next_window, set_window, maximum, check,
}

-- A call of `check` at a time.
pub record Check : Type 0 where
  pub key : ℕ
  pub now : ℕ

-- The calls with the key `key` that pass, of calls in sequence; `limit_of` gives the limit that the
-- callers ask for with each key.
unfoldable pub passes : ℕ → (ℕ → Option ℕ) → List Check → RateLimiter → ℕ
unfolding check
passes key limit_of [] r = 0
passes key limit_of (c ∷ cs) r =
    let (passed, after) = check c.key (limit_of c.key) c.now r in
    let later = passes key limit_of cs after in if c.key == key && passed then suc later else later

module _ (key : ℕ) (w : Window) where
  find-update_absent :
      (ws : List Window)
      → any (is_window_of w.key) ws ≡ false
      → find (is_window_of key) (update_where (is_window_of w.key) (λ _. w) ws)
        ≡ find (is_window_of key) ws
  find-update_absent [] h = refl
  find-update_absent (x ∷ ws) h = ground (arith, find-update_absent ws)

  find-update_window :
      (ws : List Window)
      → any (is_window_of w.key) ws ≡ true
      → find (is_window_of key) (update_where (is_window_of w.key) (λ _. w) ws)
        ≡ (if w.key == key then some w else find (is_window_of key) ws)
  find-update_window [] h = absurd (ground arith)
  find-update_window (x ∷ ws) h = elim (Bool-cases (any (is_window_of w.key) ws)) [
    | inl there ↦ ground (arith, find-update_window ws there)
    | inr absent ↦ ground (arith, find-update_absent ws absent)
  ]

  find-append_window :
      (ws : List Window)
      → any (is_window_of w.key) ws ≡ false
      → find (is_window_of key) (ws ++ w ∷ [])
        ≡ (if w.key == key then some w else find (is_window_of key) ws)
  find-append_window [] h = ground arith
  find-append_window (x ∷ ws) h = ground (arith, find-append_window ws)

  pub find-set_window :
      (ws : List Window)
      → find (is_window_of key) (set_window w ws)
        ≡ (if w.key == key then some w else find (is_window_of key) ws)
  unfolding set_window
  find-set_window ws = elim (Bool-cases (any (is_window_of w.key) ws)) [
    | inl there ↦ rw there (find-update_window ws there)
    | inr absent ↦ rw absent (find-append_window ws absent)
  ]

maximum-counts :
    (o : Option ℕ) (r : RateLimiter) (ws : List Window)
    → maximum o (record r { counts = ws }) ≡ maximum o r
maximum-counts none r ws = refl
maximum-counts (some zero) r ws = refl
maximum-counts (some (suc n)) r ws = refl

next_window-key : (key now : ℕ) (r : RateLimiter) → (next_window key now r).key ≡ key
unfolding next_window
next_window-key key now r = ground arith

next_window-running :
    (key now : ℕ) (r : RateLimiter) (w : Window)
    → find (is_window_of key) r.counts ≡ some w
    → now < w.expires
    → next_window key now r ≡ record { key = key; count = suc w.count; expires = w.expires }
unfolding next_window current_window
next_window-running key now r w found early = ground (arith, found, early)

-- No window of the key is open at a time: it has no item, or one whose window has ended.
abbrev pub IsClosed : ℕ → ℕ → RateLimiter → Type 0
IsClosed key now r = (w : Window) → find (is_window_of key) r.counts ≡ some w → w.expires ≤ now

next_window-opened :
    (key now : ℕ) (r : RateLimiter)
    → IsClosed key now r
    → next_window key now r ≡ record { key = key; count = 1; expires = now + r.window_seconds }
unfolding next_window current_window
next_window-opened key now r closed = elim (Option-cases (find (is_window_of key) r.counts)) [
  | inl fresh ↦ ground (arith, fresh)
  | inr (w, found) ↦ ground (arith, found, closed w found)
]

-- The window of `key` after a call with the key `other`.
find-check :
    (key other : ℕ) (limit : Option ℕ) (now : ℕ) (r : RateLimiter)
    → find (is_window_of key) (check other limit now r).1.counts
      ≡ (if other == key then some (next_window other now r) else find (is_window_of key) r.counts)
unfolding check
find-check key other limit now r =
    find-set_window key (next_window other now r) r.counts
    ∙ ap
        (λ k. if k == key then some (next_window other now r) else find (is_window_of key) r.counts)
        (next_window-key other now r)

module _ (key : ℕ) (limit_of : ℕ → Option ℕ) where
  passes_in_window :
      (cs : List Check) (r : RateLimiter) (w : Window)
      → find (is_window_of key) r.counts ≡ some w
      → All (λ c. c.now < w.expires) cs
      → passes key limit_of cs r + w.count ≤ max (maximum (limit_of key) r) w.count
  unfolding passes check
  passes_in_window [] r w found early = ground arith
  passes_in_window (c ∷ cs) r w found early = elim (Bool-cases (c.key == key)) [
    | inl same ↦
        let k : c.key ≡ key = ground (arith, same) in
        let running = next_window-running c.key c.now r w (rw k found) early.0 in
        let after = (check c.key (limit_of c.key) c.now r).1 in
        let later =
          passes_in_window cs after (next_window c.key c.now r)
            (find-check key c.key (limit_of c.key) c.now r ∙ rw same refl) (rw running early.1) in
        ground (
          arith,
          same,
          later,
          ap (λ (x : Window). x.count) running,
          ap (λ x. maximum (limit_of x) r) k,
          maximum-counts (limit_of key) r after.counts,
        )
    | inr other ↦
        let after = (check c.key (limit_of c.key) c.now r).1 in
        let later =
          passes_in_window cs after w
            (find-check key c.key (limit_of c.key) c.now r ∙ rw other found) early.1 in
        ground (arith, other, later, maximum-counts (limit_of key) r after.counts)
  ]

  -- Where no window of the key is open at the time `start`, since there was none or it has ended,
  -- then of all calls before the end of a window that starts at `start`, however they are mixed with
  -- calls of other keys, at most as many calls of the key pass as its limit allows.
  pub passes-le-maximum :
      (cs : List Check) (start : ℕ) (r : RateLimiter)
      → IsClosed key start r
      → All (λ c. start ≤ c.now × c.now < start + r.window_seconds) cs
      → passes key limit_of cs r ≤ maximum (limit_of key) r
  unfolding passes check
  passes-le-maximum [] start r closed times = omega arith
  passes-le-maximum (c ∷ cs) start r closed times = elim (Bool-cases (c.key == key)) [
    | inl same ↦
        let k : c.key ≡ key = ground (arith, same) in
        let opened =
          next_window-opened c.key c.now r
            (rw k λ w found. omega (arith, closed w found, times.0.0)) in
        let after = (check c.key (limit_of c.key) c.now r).1 in
        let later =
          passes_in_window cs after (next_window c.key c.now r)
            (find-check key c.key (limit_of c.key) c.now r ∙ rw same refl)
            (rw opened
              (All-mono _ _ cs (λ (d : Check) h. omega (arith, h.1, times.0.0)) times.1)) in
        ground (
          arith,
          same,
          later,
          ap (λ (x : Window). x.count) opened,
          ap (λ x. maximum (limit_of x) r) k,
          maximum-counts (limit_of key) r after.counts,
        )
    | inr other ↦
        let after = (check c.key (limit_of c.key) c.now r).1 in
        let later =
          passes-le-maximum cs start after
            (λ w found.
              closed w
                (sym (find-check key c.key (limit_of c.key) c.now r ∙ rw other refl) ∙ found))
            times.1 in
        ground (arith, other, later, maximum-counts (limit_of key) r after.counts)
  ]
