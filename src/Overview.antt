-- ===== src/Overview.antt =====
-- frontend/src/pages/Overview.tsx: the buckets behind the chart of throughput.
pub mod Polling
pub mod Rounds
pub mod Summary
use mcpxy.Prelude.{
  ℕ, zero, suc, ◌+◌, ◌-◌, ◌*◌, Bool, true, false, Option, none, some, List, [], ◌∷◌, ◌++◌, ◌≡◌,
  refl, ap, ◌∙◌, ◌⊎◌, arith, foldl, length, length-append, ltb, Bool-cases, inl, inr, if◌then◌else◌,
}
use mcpxy.Api.Types.{TrafficRecord, is_ok_status}

pub record Bucket : Type 0 where
  pub t : ℕ
  pub ok : ℕ
  pub errors : ℕ

-- `Array.from({ length: 30 }, …)`, from bucket `i` on; the clock is far behind its first minute.
unfoldable pub initial_from : (now left i : ℕ) → List Bucket
initial_from now zero i = []
initial_from now (suc left) i =
    record { t = now - (29 - i) * 2000; ok = 0; errors = 0 } ∷ initial_from now left (suc i)

unfoldable pub initial_buckets : ℕ → List Bucket
unfolding initial_from
initial_buckets now = initial_from now 30 0

-- `isOk ? 1 : 0`
abbrev pub one_if : Bool → ℕ
one_if true = 1
one_if false = 0

abbrev pub bump : Bool → Bucket → Bucket
bump is_ok b = record b {
  ok = b.ok + one_if is_ok;
  errors = b.errors + one_if (if is_ok then false else true);
}

abbrev pub fresh : ℕ → Bool → Bucket
fresh now is_ok = record {
  t = now;
  ok = one_if is_ok;
  errors = one_if (if is_ok then false else true);
}

-- The last bucket, before it the others; there is always one.
unfoldable pub bump_last : Bool → List Bucket → List Bucket
bump_last is_ok [] = []
bump_last is_ok (b ∷ []) = bump is_ok b ∷ []
bump_last is_ok (b ∷ c ∷ bs) = b ∷ bump_last is_ok (c ∷ bs)

unfoldable pub last_bucket : List Bucket → Option Bucket
last_bucket [] = none
last_bucket (b ∷ []) = some b
last_bucket (b ∷ c ∷ bs) = last_bucket (c ∷ bs)

-- `prev.slice(1)`
abbrev pub shift : List Bucket → List Bucket
shift [] = []
shift (b ∷ bs) = bs

-- The update that a record makes at the time `now`: `now - lastBucket.t < 2000`.
unfoldable pub count_record : List Bucket → ℕ × TrafficRecord → List Bucket
unfolding bump_last last_bucket
count_record prev (now, rec) = elim (last_bucket prev) [
  | none ↦ prev
  | some b ↦
      if ltb now (b.t + 2000)
      then bump_last (is_ok_status rec.status) prev
      else shift prev ++ fresh now (is_ok_status rec.status) ∷ []
]

abbrev pub size : Bucket → ℕ
size b = b.ok + b.errors

abbrev pub total : List Bucket → ℕ
total [] = 0
total (b ∷ bs) = size b + total bs

-- What a record pushes out of the window.
abbrev pub dropped : List Bucket → ℕ → ℕ
dropped [] now = 0
dropped (b ∷ bs) now = elim (last_bucket (b ∷ bs)) [
  | none ↦ 0
  | some c ↦ if ltb now (c.t + 2000) then 0 else size b
]

length-bump_last : (is_ok : Bool) (bs : List Bucket) → length (bump_last is_ok bs) ≡ length bs
unfolding bump_last
length-bump_last is_ok [] = refl
length-bump_last is_ok (b ∷ []) = refl
length-bump_last is_ok (b ∷ c ∷ bs) = omega (arith, length-bump_last is_ok (c ∷ bs))

total-bump_last :
    (is_ok : Bool) (b : Bucket) (bs : List Bucket)
    → total (bump_last is_ok (b ∷ bs)) ≡ suc (total (b ∷ bs))
unfolding bump_last
total-bump_last is_ok b [] = ground arith
total-bump_last is_ok b (c ∷ bs) = omega (arith, total-bump_last is_ok c bs)

size-fresh : (now : ℕ) (is_ok : Bool) → size (fresh now is_ok) ≡ 1
size-fresh now true = refl
size-fresh now false = refl

total-append : (bs cs : List Bucket) → total (bs ++ cs) ≡ total bs + total cs
total-append [] cs = omega arith
total-append (b ∷ bs) cs = omega (arith, total-append bs cs)

last_bucket-some : (b : Bucket) (bs : List Bucket) → (c : Bucket) × (last_bucket (b ∷ bs) ≡ some c)
unfolding last_bucket
last_bucket-some b [] = (b, refl)
last_bucket-some b (c ∷ bs) = last_bucket-some c bs

count_record-cases :
    (b c : Bucket) (bs : List Bucket) (now : ℕ) (rec : TrafficRecord)
    → last_bucket (b ∷ bs) ≡ some c
    → ((count_record (b ∷ bs) (now, rec) ≡ bump_last (is_ok_status rec.status) (b ∷ bs))
        × (dropped (b ∷ bs) now ≡ 0))
      ⊎ ((count_record (b ∷ bs) (now, rec) ≡ bs ++ fresh now (is_ok_status rec.status) ∷ [])
          × (dropped (b ∷ bs) now ≡ size b))
unfolding count_record
count_record-cases b c bs now rec e = elim (Bool-cases (ltb now (c.t + 2000))) [
  | inl soon ↦ inl (ground arith, ground arith)
  | inr late ↦ inr (ground arith, ground arith)
]

-- A record is counted once: where there is a bucket, the chart then counts one record more than
-- before, less those of the bucket that a new one pushes out; and it has as many buckets.
pub total-count_record :
    (b : Bucket) (bs : List Bucket) (now : ℕ) (rec : TrafficRecord)
    → let after = count_record (b ∷ bs) (now, rec) in
      (total after + dropped (b ∷ bs) now ≡ suc (total (b ∷ bs))) × (length after ≡ length (b ∷ bs))
total-count_record b bs now rec =
    let (c, e) = last_bucket-some b bs in
    let is_ok = is_ok_status rec.status in
    elim (count_record-cases b c bs now rec e) [
      | inl (soon, none_) ↦ (
        omega (arith, ap total soon, none_, total-bump_last is_ok b bs),
        ap length soon ∙ length-bump_last is_ok (b ∷ bs),
      )
      | inr (late, first) ↦ (
        omega (
          arith,
          ap total late,
          first,
          total-append bs (fresh now is_ok ∷ []),
          size-fresh now is_ok,
        ),
        omega (arith, ap length late, length-append bs (fresh now is_ok ∷ [])),
      )
    ]

length-count_record :
    (bs : List Bucket) (r : ℕ × TrafficRecord) → length (count_record bs r) ≡ length bs
length-count_record [] r = unfold count_record in refl
length-count_record (b ∷ bs) (now, rec) = (total-count_record b bs now rec).1

length-foldl :
    (bs : List Bucket) (records : List (ℕ × TrafficRecord))
    → length (foldl count_record bs records) ≡ length bs
length-foldl bs [] = refl
length-foldl bs (r ∷ records) = length-foldl (count_record bs r) records ∙ length-count_record bs r

-- The chart always has its thirty buckets, whenever the records of the stream come.
pub window-length :
    (start : ℕ) (records : List (ℕ × TrafficRecord))
    → length (foldl count_record (initial_buckets start) records) ≡ 30
unfolding initial_buckets
window-length start records = length-foldl (initial_buckets start) records
