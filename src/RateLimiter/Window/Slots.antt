-- ===== src/RateLimiter/Window/Slots.antt =====
-- The buckets of a one-minute window: sixty slots, each of which holds the starts of its own second.
use model_switch.Base.{
  ℕ, zero, suc, ◌+◌, ◌*◌, ◌/◌, ◌%◌, ◌≤◌, ◌≡◌, ap₂, ◌∙◌, ◌⊎◌, inr, refl, some, List, [], ◌∷◌, length,
  get_elem?, set, replicate, length-set, get_elem?-lt, some_inj, subst, arith,
}
use model_switch.RateLimiter.Window.{Bucket, BucketedWindow, window_ms, new, refresh, add_at, add}

-- Slot `i` at a time when the last count was at `last`: its bucket starts at a full second that is
-- over or runs, and that second is one of slot `i`, unless the bucket is still empty.
pub record Slot (last i : ℕ) (b : Bucket) : Type 0 where
  pub past : b.0 ≤ last
  pub aligned : b.0 % 1000 ≡ 0
  pub own : (b.0 / 1000 % 60 ≡ i) ⊎ (b.1 ≡ 0)

abbrev pub Slots : ℕ → ℕ → List Bucket → Type 0
Slots last i [] = Unit
Slots last i (b ∷ bs) = Slot last i b × Slots last (suc i) bs

pub Slots-get :
    (last i j : ℕ) (bs : List Bucket) {b : Bucket}
    → Slots last i bs
    → get_elem? bs j ≡ some b
    → Slot last (i + j) b
Slots-get last i j [] s h = cc
Slots-get last i zero (x ∷ bs) {b} s h =
    let e : i + 0 ≡ i = omega arith in rw e (subst (Slot last i) (some_inj h) s.0)
Slots-get last i (suc j) (x ∷ bs) s h =
    let e : i + suc j ≡ suc i + j = omega arith in rw e (Slots-get last (suc i) j bs s.1 h)

Slot-later : (last later i : ℕ) (b : Bucket) → last ≤ later → Slot last i b → Slot later i b
Slot-later last later i b l s = record { past = omega arith; aligned = s.aligned; own = s.own }

Slots-later :
    (last later i : ℕ) (bs : List Bucket) → last ≤ later → Slots last i bs → Slots later i bs
Slots-later last later i [] l s = tt
Slots-later last later i (b ∷ bs) l s =
    (Slot-later last later i b l s.0, Slots-later last later (suc i) bs l s.1)

Slots-set :
    (last later i j : ℕ) (bs : List Bucket) (b : Bucket)
    → last ≤ later
    → Slot later (i + j) b
    → Slots last i bs
    → Slots later i (set bs j b)
Slots-set last later i j [] b l n s = tt
Slots-set last later i zero (x ∷ bs) b l n s =
    let e : i + 0 ≡ i = omega arith in (rw e at n, Slots-later last later (suc i) bs l s.1)
Slots-set last later i (suc j) (x ∷ bs) b l n s =
    let e : i + suc j ≡ suc i + j = omega arith in
    (Slot-later last later i x l s.0, Slots-set last later (suc i) j bs b l (rw e at n) s.1)

Slots-replicate : (k i : ℕ) → Slots 0 i (replicate k (0, 0))
Slots-replicate zero i = tt
Slots-replicate (suc k) i =
    (record { past = omega arith; aligned = refl; own = inr refl }, Slots-replicate k (suc i))

-- A one-minute window whose last count was at `last`.
pub record IsWindow (last : ℕ) (w : BucketedWindow) : Type 0 where
  pub second : w.bucket_ms ≡ 1000
  pub sixty : w.bucket_count ≡ 60
  pub minute : w.length_ms ≡ window_ms
  pub size : length w.buckets ≡ 60
  pub slots : Slots last 0 w.buckets

pub new-IsWindow : (now : ℕ) → IsWindow 0 (new window_ms now)
unfolding new
new-IsWindow now = record {
  second = refl;
  sixty = refl;
  minute = refl;
  size = refl;
  slots = Slots-replicate 60 0;
}

refresh-Slot :
    (last t n : ℕ) (b : Bucket)
    → last ≤ t
    → Slot last (t / 1000 % 60) b
    → Slot t (t / 1000 % 60) (refresh (t / 1000 * 1000) n b)
unfolding refresh
refresh-Slot last t n b l s = ground arith

abbrev pub start : ℕ → ℕ
start t = t / 1000 * 1000

abbrev pub slot : ℕ → ℕ
slot t = t / 1000 % 60

add-at :
    (last t n : ℕ) (w : BucketedWindow)
    → IsWindow last w
    → add t n w ≡ add_at (start t) (slot t) n w
unfolding add
add-at last t n w s = ap₂ (λ (a c : ℕ). add_at (t / a * a) (t / a % c) n w) s.second s.sixty

-- A count finds the bucket of its slot, and refreshes that bucket alone.
pub add_lem :
    (last t n : ℕ) (w : BucketedWindow)
    → IsWindow last w
    → (b : Bucket) × (get_elem? w.buckets (slot t) ≡ some b)
      × (add t n w ≡ record w { buckets = set w.buckets (slot t) (refresh (start t) n b) })
add_lem last t n w s =
    let (b, found) = get_elem?-lt w.buckets (slot t) (omega arith) in
    (b, found, add-at last t n w s ∙ unfold add_at in rw (found, add_at))

-- A count at a time that is not before the last one keeps the window sound.
pub add-IsWindow :
    (last t n : ℕ) (w : BucketedWindow) → last ≤ t → IsWindow last w → IsWindow t (add t n w)
add-IsWindow last t n w l s =
    let (b, found, e) = add_lem last t n w s in
    let there : Slot last (0 + slot t) b = Slots-get last 0 (slot t) w.buckets s.slots found in
    let zero_add : 0 + slot t ≡ slot t = omega arith in
    rw e (record {
      second = s.second;
      sixty = s.sixty;
      minute = s.minute;
      size = length-set w.buckets (slot t) (refresh (start t) n b) ∙ s.size;
      slots =
          Slots-set last t 0 (slot t) w.buckets (refresh (start t) n b) l
            (rw zero_add (refresh-Slot last t n b l (rw zero_add at there))) s.slots;
    })

-- A window keeps the time at which it was made.
pub epoch-add : (t n : ℕ) (w : BucketedWindow) → (add t n w).epoch ≡ w.epoch
unfolding add add_at
epoch-add t n w = ground arith
