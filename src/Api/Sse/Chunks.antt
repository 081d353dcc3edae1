-- ===== src/Api/Sse/Chunks.antt =====
-- How the frames are cut out of the stream: the buffer's loop ends, and the chunks do not matter.
use Prim.Native.String.{String, [], ◌∷◌, count}
use mcpxy.Prelude.{
  ℕ, zero, suc, ◌<◌, Option, none, some, List, [], ◌∷◌, ◌++◌, ◌≡◌, refl, sym, ap, ◌∙◌, arith, ◌<>◌,
  append_assoc, append-nil, Option-cases, Bool-cases, inl, inr, Char, true, false, ◌⊎◌, ◌&&◌, ◌+◌,
}
use text.Mathlib.TextLemmas.{
  cons-append, nil-append, length-cons, append-nil as text_append-nil,
  append_assoc as text_append_assoc,
}
use mcpxy.Api.Json.{Json}
use mcpxy.Api.Sse.{cut, is_newline, read_block, drain, feed, stream_from, subscribe_traffic}

-- What a successful cut of two characters or more says.
cut-inv :
    (c d : Char) (s : String) {b r : String}
    → cut (c ∷ d ∷ s) ≡ some (b, r)
    → ((is_newline c && is_newline d ≡ true) × (b ≡ "") × (r ≡ s))
      ⊎ ((b' : String) × (is_newline c && is_newline d ≡ false)
          × (cut (d ∷ s) ≡ some (b', r))
          × (b ≡ c ∷ b'))
unfolding cut
cut-inv c d s h = elim (Bool-cases (is_newline c && is_newline d)) [
  | inl both ↦ inl (ground arith)
  | inr other ↦ elim (Option-cases (cut (d ∷ s))) [
    | inl stop ↦ ground arith
    | inr ((b', r'), more) ↦ inr (b', ground arith, ground arith, ground arith)
  ]
]

-- All chunks as one text.
abbrev pub join : List String → String
join [] = ""
join (chunk ∷ chunks) = chunk <> join chunks

cut-append : (s t : String) {b r : String} → cut s ≡ some (b, r) → cut (s <> t) ≡ some (b, r <> t)
unfolding cut
cut-append [] t h = cc
cut-append (c ∷ []) t h = cc
cut-append (c ∷ d ∷ s) t {b} {r} h =
    rw (cons-append, cons-append)
      (elim (cut-inv c d s h) [
        | inl (both, eb, er) ↦ rw (both, eb, er, cut)
        | inr (b', other, more, eb) ↦
            let ih = rw cons-append at (cut-append (d ∷ s) t more) in ground arith
      ])

cut-count : (s : String) {b r : String} → cut s ≡ some (b, r) → count r < count s
unfolding cut
cut-count [] h = cc
cut-count (c ∷ []) h = cc
cut-count (c ∷ d ∷ s) h = elim (cut-inv c d s h) [
  | inl (both, eb, er) ↦ rw er (omega (arith, length-cons c (d ∷ s), length-cons d s))
  | inr (b', other, more, eb) ↦ omega (arith, length-cons c (d ∷ s), cut-count (d ∷ s) more)
]

module _ (parse_json : String → Option Json) where
  drain-none : (f : ℕ) (s : String) → cut s ≡ none → drain parse_json f s ≡ ([], s)
  unfolding drain
  drain-none zero s h = refl
  drain-none (suc f) s h = rw (h, drain)

  drain-some :
      (f : ℕ) (s : String) {b r : String}
      → cut s ≡ some (b, r)
      → drain parse_json (suc f) s
        ≡ (read_block parse_json b ++ (drain parse_json f r).0, (drain parse_json f r).1)
  unfolding drain
  drain-some f s h = rw (h, drain)

  drain_enough :
      (f g : ℕ) (s : String)
      → count s < f
      → count s < g
      → drain parse_json f s ≡ drain parse_json g s
  drain_enough zero g s h k = absurd (omega arith)
  drain_enough (suc f) zero s h k = absurd (omega arith)
  drain_enough (suc f) (suc g) s h k = elim (Option-cases (cut s)) [
    | inl stop ↦ drain-none (suc f) s stop ∙ sym (drain-none (suc g) s stop)
    | inr ((b, r), more) ↦
        drain-some f s more
        ∙ ap (λ p. (read_block parse_json b ++ p.0, p.1))
            (drain_enough f g r (omega (arith, cut-count s more)) (omega (arith, cut-count s more)))
        ∙ sym (drain-some g s more)
  ]

  drain-left : (f : ℕ) (s : String) → count s < f → cut (drain parse_json f s).1 ≡ none
  drain-left zero s h = absurd (omega arith)
  drain-left (suc f) s h = elim (Option-cases (cut s)) [
    | inl stop ↦ rw (drain-none (suc f) s stop) stop
    | inr ((b, r), more) ↦
        rw (drain-some f s more) (drain-left f r (omega (arith, cut-count s more)))
  ]

  drain-append :
      (f g h : ℕ) (s t : String)
      → count s < f
      → count (s <> t) < g
      → count ((drain parse_json f s).1 <> t) < h
      → ((drain parse_json g (s <> t)).0
          ≡ (drain parse_json f s).0 ++ (drain parse_json h ((drain parse_json f s).1 <> t)).0)
        × ((drain parse_json g (s <> t)).1 ≡ (drain parse_json h ((drain parse_json f s).1 <> t)).1)
  drain-append zero g h s t a b c = absurd (omega arith)
  drain-append (suc f) zero h s t a b c = absurd (omega arith)
  drain-append (suc f) (suc g) h s t a b c = elim (Option-cases (cut s)) [
    | inl stop ↦
        let e = drain_enough (suc g) h (s <> t) b (rw (drain-none (suc f) s stop) at c) in
        rw (drain-none (suc f) s stop) (ap (λ p. p.0) e, ap (λ p. p.1) e)
    | inr ((blk, r), more) ↦
        let (ih0, ih1) =
          drain-append f g h r t (omega (arith, cut-count s more))
            (omega (arith, cut-count (s <> t) (cut-append s t more)))
            (rw (drain-some f s more) at c) in
        rw (drain-some g (s <> t) (cut-append s t more), drain-some f s more)
          (
            rw ih0 (
                sym (
                  append_assoc (read_block parse_json blk) (drain parse_json f r).0
                    (drain parse_json h ((drain parse_json f r).1 <> t)).0)),
            ih1,
          )
  ]

  -- One round of the stream's loop ends: the fuel that a chunk gets is enough, more fuel changes
  -- nothing, and no complete block is left in the buffer.
  pub feed_total :
      (buffer chunk : String) (extra : ℕ)
      → (cut (feed parse_json buffer chunk).1 ≡ none)
        × (drain parse_json (suc (count (buffer <> chunk)) + extra) (buffer <> chunk)
            ≡ feed parse_json buffer chunk)
  unfolding feed
  feed_total buffer chunk extra = (
    drain-left (suc (count (buffer <> chunk))) (buffer <> chunk) (omega arith),
    drain_enough (suc (count (buffer <> chunk)) + extra) (suc (count (buffer <> chunk)))
        (buffer <> chunk) (omega arith) (omega arith),
  )

  feed-join :
      (buffer chunk more : String)
      → (feed parse_json buffer (chunk <> more)).0
        ≡ (feed parse_json buffer chunk).0
          ++ (feed parse_json (feed parse_json buffer chunk).1 more).0
  unfolding feed
  feed-join buffer chunk more =
      rw (← text_append_assoc buffer chunk more)
        (drain-append (suc (count (buffer <> chunk))) (suc (count ((buffer <> chunk) <> more)))
          (suc (
            count ((drain parse_json (suc (count (buffer <> chunk))) (buffer <> chunk)).1 <> more)))
          (buffer <> chunk) more (omega arith) (omega arith) (omega arith)).0

  feed-nothing : (buffer : String) → cut buffer ≡ none → feed parse_json buffer "" ≡ ([], buffer)
  unfolding feed
  feed-nothing buffer h = rw text_append-nil (drain-none (suc (count buffer)) buffer h)

  stream_from-join :
      (buffer : String) (chunks : List String)
      → cut buffer ≡ none
      → stream_from parse_json buffer chunks ≡ (feed parse_json buffer (join chunks)).0
  unfolding stream_from
  stream_from-join buffer [] h = sym (ap (λ p. p.0) (feed-nothing buffer h))
  stream_from-join buffer (chunk ∷ chunks) h = rw (feed-join buffer chunk (join chunks)) (
      ap (λ es. (feed parse_json buffer chunk).0 ++ es)
        (stream_from-join (feed parse_json buffer chunk).1 chunks (feed_total buffer chunk 0).0))

  pub subscribe_traffic-one :
      (s : String) → subscribe_traffic parse_json (s ∷ []) ≡ (feed parse_json "" s).0
  unfolding subscribe_traffic stream_from
  subscribe_traffic-one s = append-nil (feed parse_json "" s).0

  -- The events that a subscriber sees depend on the text of the stream alone, not on the chunks
  -- in which the network delivers it.
  pub subscribe_traffic-join :
      (chunks : List String)
      → subscribe_traffic parse_json chunks ≡ subscribe_traffic parse_json (join chunks ∷ [])
  unfolding subscribe_traffic stream_from cut
  subscribe_traffic-join chunks =
      stream_from-join "" chunks refl ∙ sym (append-nil (feed parse_json "" (join chunks)).0)

  -- The event of a complete block comes before those of the rest.
  pub feed-cut :
      (s : String) {b r : String}
      → cut s ≡ some (b, r)
      → (feed parse_json "" s).0 ≡ read_block parse_json b ++ (feed parse_json "" r).0
  unfolding feed
  feed-cut s {b} {r} h =
      rw (nil-append, nil-append)
        (rw (drain-some (count s) s h) (
          ap (λ p. read_block parse_json b ++ p.0)
            (drain_enough (count s) (suc (count r)) r (cut-count s h) (omega arith))))
