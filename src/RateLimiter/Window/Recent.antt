-- ===== src/RateLimiter/Window/Recent.antt =====
-- What `current_total` counts, against the list of all counts ever added.
use model_switch.Base.{
  ℕ, ◌+◌, ◌-◌, ◌/◌, ◌%◌, ◌^◌, ◌≤◌, ◌<◌, ◌≡◌, ◌≢◌, refl, List, [], ◌∷◌, sum_by, if◌then◌else◌, ltb,
  leb, ◌⊎◌, inl, inr, arith,
}
use model_switch.Base.Sums.{
  sum_by-set, get-le-sum_by, sum_by-filter, sum_by-congr, sum_by-le, sum_by-replicate,
}
use model_switch.RateLimiter.Window.{
  Bucket, BucketedWindow, window_ms, new, refresh, add, current_total,
}
use model_switch.RateLimiter.Window.Slots.{
  Slot, IsWindow, Slots-get, start, slot, add_lem, add-IsWindow, new-IsWindow,
}

-- A count: when, and how much.
abbrev pub Count : Type 0
Count = ℕ × ℕ

unfoldable pub add_all : List Count → BucketedWindow → BucketedWindow
add_all [] w = w
add_all (e ∷ es) w = add_all es (add e.0 e.1 w)

-- The counts come in the order of time, from `last` on and up to `now`.
abbrev pub IsChronological : ℕ → ℕ → List Count → Type 0
IsChronological last now [] = last ≤ now
IsChronological last now (e ∷ es) = (last ≤ e.0) × IsChronological e.0 now es

-- The counts whose second started less than a minute before `now`, and at most a minute before.
abbrev pub younger : ℕ → Count → ℕ
younger now e = if ltb now (start e.0 + window_ms) then e.1 else 0

abbrev pub not_older : ℕ → Count → ℕ
not_older now e = if leb now (start e.0 + window_ms) then e.1 else 0

abbrev pub amount : Count → ℕ
amount e = e.1

-- The same of a bucket.
abbrev live : ℕ → Bucket → ℕ
live now b = if ltb now (b.0 + window_ms) then b.1 else 0

abbrev counted : ℕ → Bucket → ℕ
counted now b = if leb now (b.0 + window_ms) then b.1 else 0

-- A bucket that a count replaces is empty or at least a minute older.
replaced_is_old :
    (last t : ℕ) (b : Bucket)
    → Slot last (slot t) b
    → last ≤ t
    → (b.0 ≡ start t) ⊎ ((b.1 ≡ 0) ⊎ (b.0 + window_ms ≤ start t))
replaced_is_old last t b s l = elim s.own [ inl e ↦ old e | inr e ↦ inr (inl e) ]
  where
    old : b.0 / 1000 % 60 ≡ slot t → (b.0 ≡ start t) ⊎ ((b.1 ≡ 0) ⊎ (b.0 + window_ms ≤ start t))
    old e = grind arith

-- What a count does to its bucket, where nothing overflows.
refresh_counts :
    (last t n now : ℕ) (b : Bucket)
    → Slot last (slot t) b
    → last ≤ t
    → t ≤ now
    → b.1 + n < 2 ^ 64
    → (live now (refresh (start t) n b) ≡ live now b + younger now (t, n))
      × (counted now (refresh (start t) n b) ≤ counted now b + not_older now (t, n))
      × ((refresh (start t) n b).1 ≤ b.1 + n)
unfolding refresh
refresh_counts last t n now b s l k fits =
    let older = replaced_is_old last t b s l in
    (ground (arith, older), ground (arith, older), ground arith)

-- What a count does to the sums over all buckets.
add_counts :
    (last t n now : ℕ) (w : BucketedWindow)
    → IsWindow last w
    → last ≤ t
    → t ≤ now
    → sum_by (λ (b : Bucket). b.1) w.buckets + n < 2 ^ 64
    → (sum_by (live now) (add t n w).buckets ≡ sum_by (live now) w.buckets + younger now (t, n))
      × (sum_by (counted now) (add t n w).buckets
          ≤ sum_by (counted now) w.buckets + not_older now (t, n))
      × (sum_by (λ (b : Bucket). b.1) (add t n w).buckets
          ≤ sum_by (λ (b : Bucket). b.1) w.buckets + n)
add_counts last t n now w s l k fits =
    let (b, found, e) = add_lem last t n w s in
    let v = refresh (start t) n b in
    let zero_add : 0 + slot t ≡ slot t = omega arith in
    let there : Slot last (slot t) b =
      rw zero_add at (Slots-get last 0 (slot t) w.buckets s.slots found) in
    let small = get-le-sum_by (λ (x : Bucket). x.1) w.buckets (slot t) found in
    let parts = refresh_counts last t n now b there l k (omega arith) in
    let lives = sum_by-set (live now) w.buckets (slot t) v found in
    let counts = sum_by-set (counted now) w.buckets (slot t) v found in
    let all = sum_by-set (λ (x : Bucket). x.1) w.buckets (slot t) v found in
    rw e
      (omega (arith, parts.0, lives), omega (arith, parts.1, counts), omega (arith, parts.2, all))

-- `current_total`, where nothing overflows, without the cutoff's truncated subtraction.
current_total-counted :
    (last now : ℕ) (w : BucketedWindow)
    → IsWindow last w
    → sum_by (λ (b : Bucket). b.1) w.buckets < 2 ^ 64
    → current_total now w ≡ sum_by (counted now) w.buckets
unfolding current_total
current_total-counted last now w s small =
    let cut = now - w.length_ms in
    let split = sum_by-filter (λ (b : Bucket). b.1) (λ (b : Bucket). leb cut b.0) w.buckets in
    let same =
      sum_by-congr (λ (b : Bucket). if leb cut b.0 then b.1 else 0) (counted now) w.buckets
        (λ b. ground (arith, s.minute)) in
    let below = sum_by-le (counted now) (λ (b : Bucket). b.1) w.buckets (λ b. ground arith) in
    omega (arith, split, same, below)

IsChronological-le : (es : List Count) (last now : ℕ) → IsChronological last now es → last ≤ now
IsChronological-le [] last now c = c
IsChronological-le (e ∷ es) last now c =
    let later = IsChronological-le es e.0 now c.1 in omega arith

-- The sums of all counts are exact where the grand total fits.
total_between :
    (es : List Count) (last now : ℕ) (w : BucketedWindow)
    → IsWindow last w
    → IsChronological last now es
    → sum_by (λ (b : Bucket). b.1) w.buckets + sum_by amount es < 2 ^ 64
    → (sum_by (live now) w.buckets + sum_by (younger now) es ≤ current_total now (add_all es w))
      × (current_total now (add_all es w)
          ≤ sum_by (counted now) w.buckets + sum_by (not_older now) es)
unfolding add_all
total_between [] last now w s c fits =
    let exact = current_total-counted last now w s (omega arith) in
    let more = sum_by-le (live now) (counted now) w.buckets (λ b. ground arith) in
    (omega (arith, exact, more), omega (arith, exact))
total_between (e ∷ es) last now w s c fits =
    let up : e.0 ≤ now = IsChronological-le es e.0 now c.1 in
    let parts = add_counts last e.0 e.1 now w s c.0 up (omega arith) in
    let rest =
      total_between es e.0 now (add e.0 e.1 w) (add-IsWindow last e.0 e.1 w c.0 s) c.1
        (omega (arith, parts.2)) in
    (omega (arith, rest.0, parts.0), omega (arith, rest.1, parts.1))

-- The total is at most the sum of all buckets.
pub current_total-le :
    (last now : ℕ) (w : BucketedWindow)
    → IsWindow last w
    → sum_by (λ (b : Bucket). b.1) w.buckets < 2 ^ 64
    → current_total now w ≤ sum_by (λ (b : Bucket). b.1) w.buckets
current_total-le last now w s small =
    let below = sum_by-le (counted now) (λ (b : Bucket). b.1) w.buckets (λ b. ground arith) in
    omega (arith, current_total-counted last now w s small, below)

-- Without another count the total only falls.
pub current_total-later :
    (last now later : ℕ) (w : BucketedWindow)
    → IsWindow last w
    → now ≤ later
    → sum_by (λ (b : Bucket). b.1) w.buckets < 2 ^ 64
    → current_total later w ≤ current_total now w
current_total-later last now later w s l small =
    let fewer = sum_by-le (counted later) (counted now) w.buckets (λ b. ground arith) in
    omega (
      arith,
      current_total-counted last now w s small,
      current_total-counted last later w s small,
      fewer,
    )

-- A count raises the total by its amount at most.
pub current_total-add :
    (last now n : ℕ) (w : BucketedWindow)
    → IsWindow last w
    → last ≤ now
    → sum_by (λ (b : Bucket). b.1) w.buckets + n < 2 ^ 64
    → current_total now (add now n w) ≤ current_total now w + n
current_total-add last now n w s l fits =
    let parts = add_counts last now n now w s l (omega arith) fits in
    let before = current_total-counted last now w s (omega arith) in
    let after =
      current_total-counted now now (add now n w) (add-IsWindow last now n w l s)
        (omega (arith, parts.2)) in
    ground (arith, parts.1, before, after)

-- After any counts in the order of time, the total that a fresh one-minute window reports holds every
-- count whose second started less than a minute ago, and no count whose second started more than a
-- minute ago. All counts together fit in 64 bits.
pub current_total_bounds :
    (es : List Count) (made now : ℕ)
    → IsChronological 0 now es
    → sum_by amount es < 2 ^ 64
    → (sum_by (younger now) es ≤ current_total now (add_all es (new window_ms made)))
      × (current_total now (add_all es (new window_ms made)) ≤ sum_by (not_older now) es)
unfolding new
current_total_bounds es made now c fits =
    let b = total_between es 0 now (new window_ms made) (new-IsWindow made) c (omega arith) in
    let none_yet = sum_by-replicate (counted now) 60 (0, 0) (ground arith) in
    (omega (arith, b.0), omega (arith, b.1, none_yet))

younger-eq-not_older :
    (now : ℕ) (es : List Count)
    → now % 1000 ≢ 0
    → sum_by (younger now) es ≡ sum_by (not_older now) es
younger-eq-not_older now [] h = refl
younger-eq-not_older now (e ∷ es) h = ground (arith, younger-eq-not_older now es h)

-- After any counts in the order of time that fit together in 64 bits, at a time that is not a
-- full second, the total that a fresh one-minute window reports is exactly that of the counts
-- whose second started at most a minute ago.
pub current_total_exact :
    (es : List Count) (made now : ℕ)
    → IsChronological 0 now es
    → sum_by amount es < 2 ^ 64
    → now % 1000 ≢ 0
    → current_total now (add_all es (new window_ms made)) ≡ sum_by (not_older now) es
current_total_exact es made now c fits h =
    omega (arith, current_total_bounds es made now c fits, younger-eq-not_older now es h)
